-- ===== src/History/Chain.antt =====
-- `Node` and `History` of crates/zhir-core/src/run/history.rs, with their reads and `append`.
pub mod Flat
pub mod Chunks
pub mod Digests
use zhir.Prelude.{
  ℕ, suc, ◌+◌, ◌-◌, String, Bool, Option, none, some, List, [], ◌∷◌, ◌++◌, map, lookup, ltb, leb,
  ◌==◌, length, get_elem?, drop, last?, if◌then◌else◌, String-discrete, same, ℕ_discrete,
}
use mathlib.Core.List.{reverse}
use zhir.Error.{Result, ok, err, invalid, refuse_if, ◌>>=◌, ◌>>◌}
use zhir.Value.{Json}
use zhir.Operation.{CallRef}
use zhir.Message.{Message, RuntimeToolCall}
use zhir.History.Entry.{HistoryEntry, Hashing, Digest, append_digest, zero_digest, validate_entry}
use zhir.History.Order.{Order, default_order, append_order}

pub data Chain (V : Type 0) : Type 0 where
  nil : Chain V
  node :
      (previous : Chain V) (messages : List (HistoryEntry V)) (prefix_digests : List Digest)
      (len : ℕ) (digest : Digest)
      → Chain V

pub record History (V : Type 0) : Type 0 where
  pub head : Chain V
  pub len : ℕ
  pub digest : Digest
  pub order : Order V

abbrev pub chunk_size : ℕ
chunk_size = 64

-- `History::default()`
unfoldable pub default_history : {V : Type 0} → History V
default_history = record { head = nil; len = 0; digest = zero_digest; order = default_order }

abbrev fault : Option String → Result (Unit {0})
fault none = ok tt
fault (some e) = err (invalid e)

module _ {V : Type 0} where
  unfoldable pub flatten : List (List (HistoryEntry V)) → List (HistoryEntry V)
  flatten [] = []
  flatten (c ∷ cs) = c ++ flatten cs

  -- The chunks, the newest first.
  unfoldable pub chunks : Chain V → List (List (HistoryEntry V))
  chunks nil = []
  chunks (node previous messages _ _ _) = messages ∷ chunks previous

  -- `History::iter`, `History::entries`
  unfoldable pub entries : History V → List (HistoryEntry V)
  unfolding chunks flatten
  entries h = flatten (reverse (chunks h.head))

  -- `History::messages`
  unfoldable pub messages : History V → List (Message V)
  unfolding entries
  messages h = map (λ e. e.message) (entries h)

  unfoldable pub get_from : Chain V → ℕ → Option (HistoryEntry V)
  get_from nil index = none
  get_from (node previous messages _ len _) index =
      let start = len - length messages in
      let rest = get_from previous index in
      if leb start index then get_elem? messages (index - start) else rest

  -- `History::get`
  unfoldable pub get : History V → ℕ → Option (HistoryEntry V)
  unfolding get_from
  get h index = get_from h.head index

  abbrev pub get_some : History V → Option ℕ → Option (HistoryEntry V)
  get_some h none = none
  get_some h (some index) = get h index

  -- `History::by_id`
  unfoldable pub by_id : History V → String → Option (HistoryEntry V)
  unfolding get lookup
  by_id h id = get_some h (lookup String-discrete id h.order.ids)

  abbrev last_of : Chain V → Option (HistoryEntry V)
  last_of nil = none
  last_of (node _ messages _ _ _) = last? messages

  -- `History::last`
  unfoldable pub last : History V → Option (HistoryEntry V)
  last h = last_of h.head

  -- `History::validate`
  unfoldable pub validate_history : History V → Result (Unit {0})
  validate_history h = do refuse_if (h.len == 0) (invalid "empty history"); fault h.order.error

  -- The new head: the last chunk grows until it is full, and then a new one is started.
  unfoldable pub push : Chain V → ℕ → Digest → HistoryEntry V → Chain V
  push nil len digest entry = node nil (entry ∷ []) (digest ∷ []) (len + 1) digest
  push (node previous messages digests len' digest') len digest entry =
      if ltb (length messages) chunk_size
      then node previous (messages ++ entry ∷ []) (digests ++ digest ∷ []) (len + 1) digest
      else node (node previous messages digests len' digest') (entry ∷ []) (digest ∷ []) (len + 1)
          digest

  -- The history with one more entry, whose digest is given.
  unfoldable pub grow : History V → HistoryEntry V → Digest → History V
  unfolding push append_order
  grow h entry digest = record {
    head = push h.head h.len digest entry;
    len = h.len + 1;
    digest = digest;
    order = append_order h.order entry h.len;
  }

module _ {V : Type 0} ⦃j : Json V⦄ ⦃hashing : Hashing V⦄ where
  -- The body of the loop of `append`.
  unfoldable pub append_one : History V → HistoryEntry V → Result (History V)
  unfolding grow
  append_one h entry = do
    validate_entry entry
    digest ← append_digest h.digest entry
    ok (grow h entry digest)

  -- `History::append`
  unfoldable pub append : History V → List (HistoryEntry V) → Result (History V)
  append h [] = ok h
  append h (e ∷ es) = do h' ← append_one h e; append h' es

  -- `History::from_entries`
  unfoldable pub from_entries : List (HistoryEntry V) → Result (History V)
  unfolding default_history append
  from_entries es = append default_history es
