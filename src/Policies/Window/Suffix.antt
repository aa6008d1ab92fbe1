-- ===== src/Policies/Window/Suffix.antt =====
-- What a window keeps: the messages of the system and a suffix with the last turns.
use Prim.Native.String.{◌++◌ as append_text}
use mathlib.Core.Path.{subst}
use zhir.Prelude.{
  ℕ, zero, suc, ◌+◌, ◌-◌, ◌≤◌, ◌≡◌, refl, sym, ap, ◌∙◌, arith, String, Bool, true, false,
  Bool-cases, ◌||◌, ◌==◌, leb, ltb, Option, none, some, List, [], ◌∷◌, ◌++◌, inl, inr, length,
  get_elem?, take, drop, retain, if◌then◌else◌,
}
use zhir.Error.{Result, ok, err, >>=-eq-ok, >>-eq-ok, refuse_if-eq-ok, ok-injective}
use zhir.Error as Error
use zhir.Value.{Json}
use zhir.History.Entry.{Hashing, HistoryEntry}
use zhir.History.Chain.{entries, from_entries, validate_history}
use zhir.Run.{Checkpoint}
use zhir.Run.Validation.{validate}
use zhir.Engine.Action.{Rewrite}
use zhir.Policies.Window.{
  HistoryWindow, is_busy, is_system, last_within, or_first, or_this, reduce, reduce_at,
  retained_from, rewrite_from, starts_from, starts_turn, window_start,
}

at_first : (index m : ℕ) → some index ≡ some m → index ≡ m
at_first index m at = ground (arith, at)

module _ {V : Type 0} where
  abbrev entries_of : Option (Rewrite V) → List (HistoryEntry V)
  entries_of none = []
  entries_of (some rewrite) = rewrite.entries

  -- The turns that start in a list.
  abbrev pub turns_in : List (HistoryEntry V) → ℕ
  turns_in [] = 0
  turns_in (entry ∷ rest) = (if starts_turn entry then 1 else 0) + turns_in rest

  retained_all :
      (first index : ℕ) (es : List (HistoryEntry V))
      → first ≤ index
      → retained_from first index es ≡ es
  unfolding retained_from
  retained_all first index [] le = refl
  retained_all first index (entry ∷ rest) le =
      let later = retained_all first (suc index) rest (omega (arith, le)) in
      ground (arith, later, le)

  retained_split :
      (first index k : ℕ) (es : List (HistoryEntry V))
      → first ≡ index + k
      → retained_from first index es ≡ retain is_system (take k es) ++ drop k es
  unfolding retained_from
  retained_split first index zero es is = retained_all first index es (omega (arith, is))
  retained_split first index (suc k) [] is = refl
  retained_split first index (suc k) (entry ∷ rest) is =
      let later = retained_split first (suc index) k rest (omega (arith, is)) in
      elim (Bool-cases (is_system entry)) [
        | inl b ↦ ground (arith, later, b, is)
        | inr b ↦ ground (arith, later, b, is)
      ]

  length-starts_from :
      (index : ℕ) (es : List (HistoryEntry V)) → length (starts_from index es) ≡ turns_in es
  unfolding starts_from
  length-starts_from index [] = refl
  length-starts_from index (entry ∷ rest) =
      let later = length-starts_from (suc index) rest in
      elim (Bool-cases (starts_turn entry)) [
        | inl b ↦ rw b (omega (arith, later))
        | inr b ↦ rw b (omega (arith, later))
      ]

  -- Behind the start of a turn are as many turns as behind its index.
  get_elem?-starts_from :
      (index : ℕ) (es : List (HistoryEntry V)) (k m : ℕ)
      → get_elem? (starts_from index es) k ≡ some m
      → (n : ℕ) × (m ≡ index + n) × (turns_in es ≡ k + turns_in (drop n es))
  unfolding starts_from
  get_elem?-starts_from index [] k m at = absurd (ground (arith, at))
  get_elem?-starts_from index (entry ∷ rest) zero m at = elim (Bool-cases (starts_turn entry)) [
    | inl b ↦ (0, omega (arith, at_first index m (ground (arith, at, b))), omega arith)
    | inr b ↦
        let (n, is, counts) =
          get_elem?-starts_from (suc index) rest zero m (ground (arith, at, b)) in
        (suc n, omega (arith, is), rw b (omega (arith, counts)))
  ]
  get_elem?-starts_from index (entry ∷ rest) (suc k) m at = elim (Bool-cases (starts_turn entry)) [
    | inl b ↦
        let (n, is, counts) = get_elem?-starts_from (suc index) rest k m (ground (arith, at, b)) in
        (suc n, omega (arith, is), rw b (omega (arith, counts)))
    | inr b ↦
        let (n, is, counts) =
          get_elem?-starts_from (suc index) rest (suc k) m (ground (arith, at, b)) in
        (suc n, omega (arith, is), rw b (omega (arith, counts)))
  ]

  drop-turns :
      (m n : ℕ) (es : List (HistoryEntry V)) → m ≤ n → turns_in (drop n es) ≤ turns_in (drop m es)
  drop-turns m zero es le = ground (arith, le)
  drop-turns m (suc n) [] le = omega arith
  drop-turns zero (suc n) (entry ∷ rest) le = omega (arith, drop-turns zero n rest (omega arith))
  drop-turns (suc m) (suc n) (entry ∷ rest) le = drop-turns m n rest (omega (arith, le))

or_this-within :
    (later : Option ℕ) (within : Bool) (index required : ℕ)
    → or_first later ≤ required
    → (within ≡ true → index ≤ required)
    → or_first (or_this later within index) ≤ required
or_this-within (some later) within index required le at = le
or_this-within none true index required le at = at refl
or_this-within none false index required le at = le

last_within-le :
    (required : ℕ) (starts : List ℕ) → or_first (last_within required starts) ≤ required
unfolding last_within
last_within-le required [] = omega arith
last_within-le required (index ∷ rest) =
    or_this-within (last_within required rest) (leb index required) index required
      (last_within-le required rest) (λ b. ground (arith, b))

module _ {V : Type 0} where
  window_start-le :
      (dependencies : Option (Checkpoint V → ℕ → Result ℕ)) (turns : ℕ) (c : Checkpoint V)
      (starts : List ℕ) (found first : ℕ)
      → window_start (record { turns = turns; dependencies = dependencies }) c starts found
        ≡ ok first
      → first ≤ found
  unfolding window_start
  window_start-le none turns c starts found first h =
      let same = ok-injective h in omega (arith, same)
  window_start-le (some dependencies) turns c starts found first h =
      let (required, given, h1) = >>=-eq-ok (dependencies c found) _ h in
      let (checked, h2) = >>-eq-ok _ (ok (or_first (last_within required starts))) h1 in
      let below = refuse_if-eq-ok (ltb found required) _ checked in
      let le : required ≤ found = ground (arith, below) in
      let same = ok-injective h2 in omega (arith, same, le, last_within-le required starts)

module _ {V : Type 0} ⦃j : Json V⦄ ⦃hashing : Hashing V⦄ where
  rewrite_from-entries :
      (decimal : ℕ → String) (turns : ℕ) (messages : List (HistoryEntry V)) (first : ℕ)
      (rewrite : Rewrite V)
      → rewrite_from decimal turns messages first ≡ ok (some rewrite)
      → rewrite.entries ≡ retained_from first 0 messages
  unfolding rewrite_from
  rewrite_from-entries decimal turns messages first rewrite h =
      let retained = retained_from first 0 messages in
      let branch : Bool → Result (Option (Rewrite V)) = λ b.
        if b
        then ok none
        else Error.◌>>=◌ (from_entries retained) λ history. Error.◌>>◌ (validate_history history) (
            ok (
              some (record {
                entries = retained;
                reason =
                    append_text "retain last " (append_text (decimal turns) " complete user turns");
              }))) in
      elim (Bool-cases (length retained == length messages)) [
        | inl all ↦ absurd (ground (arith, all, h))
        | inr less ↦
            let (history, built, h1) =
              >>=-eq-ok (from_entries retained) _
                (subst (λ b. branch b ≡ ok (some rewrite)) less h) in
            let (valid, h2) = >>-eq-ok (validate_history history) _ h1 in
            sym (ap entries_of (ok-injective h2))
      ]

  -- What a window keeps of a list: the system's messages and a suffix with its turns.
  abbrev pub KeepsTurns : ℕ → List (HistoryEntry V) → List (HistoryEntry V) → Type 0
  KeepsTurns turns es kept =
      (first : ℕ) × (kept ≡ retain is_system (take first es) ++ drop first es)
      × (turns ≤ turns_in (drop first es))

  reduce_at-KeepsTurns :
      (decimal : ℕ → String) (window : HistoryWindow V) (c : Checkpoint V) (o : Option ℕ)
      (rewrite : Rewrite V)
      → let starts : List ℕ = starts_from 0 (entries c.history) in
        get_elem? starts (length starts - window.turns) ≡ o
        → leb (length starts) window.turns ≡ false
        → reduce_at decimal window c starts o ≡ ok (some rewrite)
        → KeepsTurns window.turns (entries c.history) rewrite.entries
  reduce_at-KeepsTurns decimal window c none rewrite at more h = absurd (ground (arith, h))
  reduce_at-KeepsTurns decimal window c (some found) rewrite at more h =
      let es = entries c.history in
      let starts : List ℕ = starts_from 0 es in
      let (first, moved, h1) = >>=-eq-ok (window_start window c starts found) _ h in
      let (n, is, counts) = get_elem?-starts_from 0 es (length starts - window.turns) found at in
      let le = window_start-le window.dependencies window.turns c starts found first moved in
      let fewer : window.turns ≤ length starts = ground (arith, more) in
      let behind = drop-turns first n es (omega (arith, le, is)) in
      (
        first,
        rewrite_from-entries decimal window.turns es first rewrite h1
            ∙ retained_split first 0 first es (omega arith),
        omega (arith, counts, length-starts_from 0 es, fewer, behind),
      )

  -- When a window of the last turns rewrites a history, whatever dependencies the host has,
  -- the entries that it keeps are the messages of the system before some index and every
  -- entry from that index on, and at least as many turns as the window has start there.
  pub reduce-KeepsTurns :
      (decimal : ℕ → String) (window : HistoryWindow V) (c : Checkpoint V) (rewrite : Rewrite V)
      → reduce decimal window c ≡ ok (some rewrite)
      → KeepsTurns window.turns (entries c.history) rewrite.entries
  unfolding reduce
  reduce-KeepsTurns decimal window c rewrite h =
      let starts : List ℕ = starts_from 0 (entries c.history) in
      let (valid, h1) = >>-eq-ok (validate c) _ h in
      let branch : Bool → Result (Option (Rewrite V)) = λ b.
        if b
        then ok none
        else reduce_at decimal window c starts (get_elem? starts (length starts - window.turns)) in
      elim (Bool-cases (is_busy c || leb (length starts) window.turns)) [
        | inl stays ↦ absurd (ground (arith, subst (λ b. branch b ≡ ok (some rewrite)) stays h1))
        | inr goes ↦
            reduce_at-KeepsTurns decimal window c _ rewrite refl (ground (arith, goes))
              (subst (λ b. branch b ≡ ok (some rewrite)) goes h1)
      ]
