-- ===== src/Prelude/Tests.antt =====
-- Boolean tests on native numbers, on texts and on decidable types, and the conditional.
use Prim.Native.Nat.{ℕ, compare, Ordering}
use Prim.Native.String.{String}
use mathlib.Core.Path.{◌≡◌, refl, sym, ◌∙◌}
use mathlib.Core.Logic.{◌≢◌, ◌⊎◌, inl, inr}
use mathlib.Core.Bool.{Bool, true, false, false≢true, not, ◌||◌}
use mathlib.Core.Option.{Option, none, some}
use native.Mathlib.Omega.{arith}
use text.Mathlib.Text.{◌==◌ as str_eq}
use text.Mathlib.TextEquality.{eq_iff}

abbrev pub ltb : ℕ → ℕ → Bool
ltb a b = elim (compare a b) [ Ordering.lt ↦ true | _ ↦ false ]

abbrev pub leb : ℕ → ℕ → Bool
leb a b = elim (compare a b) [ Ordering.gt ↦ false | _ ↦ true ]

infix 50 ◌==◌
abbrev pub ◌==◌ : ℕ → ℕ → Bool
a == b = elim (compare a b) [ Ordering.eq ↦ true | _ ↦ false ]

infix 1 if◌then◌else◌
abbrev pub if◌then◌else◌ {ℓ} : {A : Type ℓ} → Bool → A → A → A
if true then x else y = x
if false then x else y = y

-- `==` of a type whose equality is decided.
abbrev pub same {ℓ} : {A : Type ℓ} → Discrete A → A → A → Bool
same d a b = elim (d a b) [ yes _ ↦ true | no _ ↦ false ]

abbrev pub Bool-cases : (b : Bool) → (b ≡ true) ⊎ (b ≡ false)
Bool-cases true = inl refl
Bool-cases false = inr refl

pub Option-cases {ℓ} : {A : Type ℓ} (o : Option A) → (o ≡ none) ⊎ ((a : A) × (o ≡ some a))
Option-cases none = inl refl
Option-cases (some a) = inr (a, refl)

abbrev pub is_some {ℓ} : {A : Type ℓ} → Option A → Bool
is_some none = false
is_some (some _) = true

abbrev decide_text : (s t : String) → (str_eq s t ≡ true) ⊎ (str_eq s t ≡ false) → Dec (s ≡ t)
decide_text s t (inl e) = yes ((eq_iff s t).0 e)
decide_text s t (inr e) = no (λ p. false≢true (sym e ∙ (eq_iff s t).1 p))

unfoldable pub String-discrete : Discrete String
String-discrete s t = decide_text s t (Bool-cases (str_eq s t))

-- `is_empty` of a text.
unfoldable pub is_empty : String → Bool
unfolding String-discrete
is_empty s = same String-discrete s ""

pub same_self {ℓ} : {A : Type ℓ} (d : Discrete A) (a : A) → same d a a ≡ true
same_self d a = elim (d a a) as (λ r. elim r [ yes _ ↦ true | no _ ↦ false ] ≡ true) [
  | yes _ ↦ refl
  | no n ↦ absurd (n refl)
]

pub same→eq {ℓ} : {A : Type ℓ} (d : Discrete A) (a b : A) → same d a b ≡ true → a ≡ b
same→eq d a b h = ground arith

-- What a refused disjunction of failed tests says.
pub or-false : (a b : Bool) → (a || b) ≡ false → (a ≡ false) × (b ≡ false)
or-false a b h = (ground arith, ground arith)

pub not-same-false {ℓ} : {A : Type ℓ} (d : Discrete A) (a b : A) → not (same d a b) ≡ false → a ≡ b
not-same-false d a b h = same→eq d a b (ground arith)

pub not-==-false : (n m : ℕ) → not (n == m) ≡ false → n ≡ m
not-==-false n m h = ground arith

pub same-false {ℓ} : {A : Type ℓ} (d : Discrete A) (a b : A) → a ≢ b → same d a b ≡ false
same-false d a b ne = ground arith
