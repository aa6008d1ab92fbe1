-- ===== src/Policies/Scheduling.antt =====
-- `DefaultScheduling` of crates/zhir-kernel/src/defaults/scheduling.rs, with what it reads of
-- crates/zhir-core/src/tool/mod.rs. It never fails.
use zhir.Prelude.{
  ◌≡◌, refl, ap, String, Bool, true, false, Option, none, some, List, [], ◌∷◌, ◌++◌, inl, inr, Map,
  lookup, String-discrete, if◌then◌else◌, Bool-cases,
}
use zhir.Error.{Every}
use zhir.Message.{RuntimeToolCall}

pub data InputSpec (V : Type 0) : Type 0 where
  structured : (schema : V) → InputSpec V
  freeform : (format : Option V) → InputSpec V

pub record Execution : Type 0 where
  pub parallel : Bool
  pub read_only : Bool
  pub idempotent : Bool

pub record RuntimeToolSpec (V : Type 0) : Type 0 where
  pub name : String
  pub description : String
  pub input : InputSpec V
  pub output_schema : Option V
  pub execution : Execution

pub record Admission (V : Type 0) : Type 0 where
  pub calls : List (RuntimeToolCall V)
  pub parallel : Bool

module _ {V : Type 0} where
  abbrev runs_parallel : Option (RuntimeToolSpec V) → Bool
  runs_parallel none = false
  runs_parallel (some spec) = spec.execution.parallel

  -- The closure `parallel`.
  unfoldable pub is_parallel : Map String (RuntimeToolSpec V) → RuntimeToolCall V → Bool
  unfolding lookup
  is_parallel specs call = runs_parallel (lookup String-discrete call.name specs)

  -- `take_while(parallel)`
  unfoldable pub take_parallel :
      Map String (RuntimeToolSpec V) → List (RuntimeToolCall V) → List (RuntimeToolCall V)
  unfolding is_parallel
  take_parallel specs [] = []
  take_parallel specs (call ∷ calls) =
      if is_parallel specs call then call ∷ take_parallel specs calls else []

  -- `DefaultScheduling::select`
  unfoldable pub select : List (RuntimeToolCall V) → Map String (RuntimeToolSpec V) → Admission V
  unfolding is_parallel take_parallel
  select [] specs = record { calls = []; parallel = false }
  select (first ∷ candidates) specs =
      if is_parallel specs first
      then record { calls = take_parallel specs (first ∷ candidates); parallel = true }
      else record { calls = first ∷ []; parallel = false }

  abbrev pub StartsSerial : Map String (RuntimeToolSpec V) → List (RuntimeToolCall V) → Type 0
  StartsSerial specs [] = Unit {0}
  StartsSerial specs (call ∷ _) = is_parallel specs call ≡ false

  -- What an admission may hold, before the calls that wait: parallel calls up to the next serial
  -- one, or one serial call, or nothing if nothing waits.
  abbrev pub Admits :
      Map String (RuntimeToolSpec V)
      → List (RuntimeToolCall V)
      → Bool
      → List (RuntimeToolCall V)
      → Type 0
  Admits specs calls true rest =
      Every (λ call. is_parallel specs call ≡ true) calls × StartsSerial specs rest
  Admits specs [] false rest = rest ≡ []
  Admits specs (call ∷ calls) false rest = (is_parallel specs call ≡ false) × (calls ≡ [])

  prefix :
      (specs : Map String (RuntimeToolSpec V)) (calls : List (RuntimeToolCall V))
      → (rest : List (RuntimeToolCall V)) × (calls ≡ take_parallel specs calls ++ rest)
        × Every (λ call. is_parallel specs call ≡ true) (take_parallel specs calls)
        × StartsSerial specs rest
  unfolding take_parallel
  prefix specs [] = ([], refl, tt, tt)
  prefix specs (call ∷ calls) = elim (Bool-cases (is_parallel specs call)) [
    | inl yes_parallel ↦
        let (rest, split, all_parallel, serial) = prefix specs calls in
        rw yes_parallel (rest, ap (◌∷◌ call) split, (yes_parallel, all_parallel), serial)
    | inr not_parallel ↦ rw not_parallel (call ∷ calls, refl, tt, not_parallel)
  ]

  -- The default scheduling admits a prefix of the waiting calls: the parallel calls up to the
  -- next serial one, or one serial call alone; nothing only if nothing waits.
  pub select-Admits :
      (candidates : List (RuntimeToolCall V)) (specs : Map String (RuntimeToolSpec V))
      → (rest : List (RuntimeToolCall V)) × (candidates ≡ (select candidates specs).calls ++ rest)
        × Admits specs (select candidates specs).calls (select candidates specs).parallel rest
  unfolding select
  select-Admits [] specs = ([], refl, refl)
  select-Admits (first ∷ candidates) specs = elim (Bool-cases (is_parallel specs first)) [
    | inl yes_parallel ↦
        let (rest, split, all_parallel, serial) = prefix specs candidates in
        rw yes_parallel (rest, ap (◌∷◌ first) split, ((yes_parallel, all_parallel), serial))
    | inr not_parallel ↦ rw not_parallel (candidates, refl, (not_parallel, refl))
  ]
