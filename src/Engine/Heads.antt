-- ===== src/Engine/Heads.antt =====
-- What the steps of an engine leave in the in-memory store.
use zhir.Value.{Json}
use zhir.History.Entry.{Hashing}
use zhir.Storage.Core.{CoreEncoding}
use zhir.Storage.Memory.{Store}
use zhir.Engine.State.{Engine}
use zhir.Engine.Action.{Environment}
use zhir.Engine.Steps.{Steps, steps-keep}
use zhir.Engine.Durable.{MemoryStore, DrawsOnce, IsDurable, durable}

module _ {V : Type 0} ⦃j : Json V⦄ ⦃hashing : Hashing V⦄ ⦃coding : CoreEncoding V⦄
    ⦃environment : Environment V⦄ where
  -- Over the in-memory store, which answers in time, and with identities that are never drawn
  -- twice: whatever the engine is given to handle and whatever it returns, if the head of its
  -- run is its checkpoint and the store has seen no identity that is still to be drawn, then
  -- so it is afterwards.
  pub Steps-IsDurable :
      {e f : Engine V (Store V)} → DrawsOnce environment → Steps e f → IsDurable e → IsDurable f
  Steps-IsDurable once steps h = steps-keep (durable once) steps h
