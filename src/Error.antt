-- ===== src/Error.antt =====
-- crates/zhir-core/src/error.rs: `Failure`, `Error` with the errors that it wraps, and `Result`.
use mathlib.Core.Path.{subst}
use zhir.Prelude.{
  Map, lookup, String-discrete, some, arith, ℕ, String, Bool, true, false, Option, List, [], ◌∷◌,
  ◌≡◌, refl,
}

pub record Failure : Type 0 where
  pub code : String
  pub message : String
  pub retryable : Bool

-- `Failure::new`
abbrev pub new_failure : String → String → Failure
new_failure code message = record { code = code; message = message; retryable = false }

pub data ResumeError : Type 0 where
  store_required : ResumeError
  run_not_found : (run_id : String) → ResumeError
  stale_ticket : (run_id : String) (ticket_revision head_revision : ℕ) → ResumeError
  invalid_ticket_identity not_suspended not_active selector_mismatch : ResumeError

pub data CatalogError : Type 0 where
  empty_name : CatalogError
  duplicate : (name : String) (sources : List String) → CatalogError
  not_found : (name : String) → CatalogError
  not_selected : (name : String) → CatalogError
  binding_changed : (name : String) → CatalogError

pub data Error : Type 0 where
  resume : ResumeError → Error
  catalog : CatalogError → Error
  invalid : String → Error
  model : Failure → Error
  runtime_tool : Failure → Error
  uncertain : String → Error
  protocol : String → Error
  storage : String → Error
  conflict : (expected actual : Option ℕ) → Error
  deadline cancelled : Error

pub data Result {ℓ} (T : Type ℓ) : Type ℓ where
  err : (error : Error) → Result T
  ok : (value : T) → Result T

-- `?` and what follows it.
module _ {ℓ κ} {T : Type ℓ} {U : Type κ} where
  infixl 5 ◌>>=◌
  abbrev pub ◌>>=◌ : Result T → (T → Result U) → Result U
  err error >>= next = err error
  ok value >>= next = next value

module _ {ℓ} {U : Type ℓ} where
  infixl 5 ◌>>◌
  abbrev pub ◌>>◌ : Result (Unit {0}) → Result U → Result U
  check >> next = check >>= λ done. next

-- `if bad { return Err(error) }`
abbrev pub refuse_if : Bool → Error → Result (Unit {0})
refuse_if true e = err e
refuse_if false e = ok tt

-- `for x in xs { f(x)?; }`
abbrev pub for_each {ℓ} : {A : Type ℓ} → (A → Result (Unit {0})) → List A → Result (Unit {0})
for_each f [] = ok tt
for_each f (x ∷ xs) = f x >> for_each f xs

abbrev pub IsOk {ℓ} : {A : Type ℓ} → Result A → Type 0
IsOk (ok _) = Unit {0}
IsOk (err _) = ⊥

-- Inversions of what a `do` block of checks returns.
module _ {ℓ κ} {T : Type ℓ} {U : Type κ} where
  pub >>=-eq-ok :
      (first : Result T) (next : T → Result U) {u : U}
      → (first >>= next) ≡ ok u
      → (t : T) × (first ≡ ok t) × (next t ≡ ok u)
  >>=-eq-ok (err error) next done = cc
  >>=-eq-ok (ok t) next done = (t, refl, done)

pub ok-injective {ℓ} : {A : Type ℓ} {a b : A} → ok a ≡ ok b → a ≡ b
ok-injective h = cc

pub >>-eq-ok {ℓ} :
    {B : Type ℓ} (m : Result (Unit {0})) (k : Result B) {b : B}
    → (m >> k) ≡ ok b
    → (m ≡ ok tt) × (k ≡ ok b)
>>-eq-ok (ok a) k h = (refl, h)
>>-eq-ok (err e) k h = cc

pub refuse_if-eq-ok : (b : Bool) (e : Error) → refuse_if b e ≡ ok tt → b ≡ false
refuse_if-eq-ok true e h = cc
refuse_if-eq-ok false e h = refl

-- What a loop has checked holds of each item.
abbrev pub Every {ℓ κ} : {A : Type ℓ} → (A → Type κ) → List A → Type κ
Every P [] = Unit
Every P (x ∷ xs) = P x × Every P xs

pub Every-map {ℓ κ μ} :
    {A : Type ℓ} (P : A → Type κ) (Q : A → Type μ)
    → ((x : A) → P x → Q x)
    → (xs : List A) → Every P xs
    → Every Q xs
Every-map P Q f [] h = tt
Every-map P Q f (x ∷ xs) h = (f x h.0, Every-map P Q f xs h.1)

pub for_each-Every {ℓ} :
    {A : Type ℓ} (f : A → Result (Unit {0})) (xs : List A)
    → for_each f xs ≡ ok tt
    → Every (λ x. f x ≡ ok tt) xs
for_each-Every f [] h = tt
for_each-Every f (x ∷ xs) h =
    let (first, rest) = >>-eq-ok (f x) (for_each f xs) h in (first, for_each-Every f xs rest)

pub Every-lookup {ℓ κ} :
    {A : Type ℓ} (P : String × A → Type κ) (m : Map String A) (id : String) (a : A)
    → Every P m
    → lookup String-discrete id m ≡ some a
    → P (id, a)
unfolding lookup
Every-lookup P [] id a h at = absurd (ground arith)
Every-lookup {A} P ((k, b) ∷ m) id a h at = elim (String-discrete k id) [
  | yes e ↦
      let found : b ≡ a = ground arith in
      subst P (λ i. let t : String × A = (e i, found i) in t) h.0
  | no ne ↦ Every-lookup P m id a h.1 (ground arith)
]
