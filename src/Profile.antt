-- ===== src/Profile.antt =====
-- crates/zhir-core/src/profile.rs: request intent. A `BTreeMap` is an association list; an `f64` is
-- its bit pattern.
use zhir.Prelude.{
  ℕ, ◌/◌, ◌%◌, ◌^◌, String, Bool, true, false, ◌&&◌, ◌||◌, not, Option, none, some, List, ◌==◌, any,
  same, is_empty, ltb, Map, ℕ_discrete, String-discrete,
}
use zhir.Error.{Result, invalid, refuse_if}
use zhir.Value.{Json}

abbrev pub Extensions : Type 0 → Type 0
Extensions V = Map String (Map String V)

pub data Requirement {ℓ} (T : Type ℓ) : Type ℓ where
  required preferred : T → Requirement T

unfoldable pub value {ℓ} : {T : Type ℓ} → Requirement T → T
value (required v) = v
value (preferred v) = v

unfoldable pub is_required {ℓ} : {T : Type ℓ} → Requirement T → Bool
is_required (required _) = true
is_required (preferred _) = false

pub data Fidelity : Type 0 where
  economy high original : Fidelity

pub data Serving : Type 0 where
  balanced low_latency low_cost : Serving

pub data Reasoning : Type 0 where
  low balanced high : Reasoning

pub data Interaction : Type 0 where
  turn_based duplex : Interaction

pub record ResourceUsage (V : Type 0) : Type 0 where
  pub fidelity : Option (Requirement Fidelity)
  pub transforms : List String
  pub extensions : Extensions V

-- crates/zhir-core/src/model/mod.rs. `temperature` is a bit pattern below 2^64.
pub record GenerationProfile : Type 0 where
  pub temperature : Option ℕ
  pub max_output_tokens : Option ℕ
  pub seed : Option ℕ
  pub parallel_runtime_tools : Option Bool

-- The exponent field of a double is all ones just for infinities and NaNs.
unfoldable pub is_finite : ℕ → Bool
is_finite bits = not ((bits / 2 ^ 52) % 2 ^ 11 == 2047)

pub record RequestProfile (V : Type 0) : Type 0 where
  pub generation : GenerationProfile
  pub serving : Option (Requirement Serving)
  pub reasoning : Option (Requirement Reasoning)
  pub language : Option (Requirement String)
  pub interaction : Option (Requirement Interaction)
  pub alternatives : Map String (List V)
  pub extensions : Extensions V

abbrev is_nan : ℕ → Bool
is_nan bits = ((bits / 2 ^ 52) % 2 ^ 11 == 2047) && ltb 0 (bits % 2 ^ 52)

abbrev is_zero : ℕ → Bool
is_zero bits = bits % 2 ^ 63 == 0

-- `==` of doubles: no NaN equals anything, and the two zeros are equal.
unfoldable pub f64_eq : ℕ → ℕ → Bool
f64_eq a b = not (is_nan a) && not (is_nan b) && (a == b || is_zero a && is_zero b)

temperature_eq : Option ℕ → Option ℕ → Bool
unfolding f64_eq
temperature_eq none none = true
temperature_eq (some a) (some b) = f64_eq a b
temperature_eq _ _ = false

unfoldable pub validate_extensions : {V : Type 0} → Extensions V → Result (Unit {0})
unfolding is_empty
validate_extensions extensions =
    refuse_if (any (λ e. is_empty e.0 || any (λ f. is_empty f.0) e.1) extensions)
      (invalid "extension namespace and key must be nonempty")

module _ {V : Type 0} ⦃j : Json V⦄ where
  unfoldable pub ResourceUsage-discrete : Discrete (ResourceUsage V)
  ResourceUsage-discrete = hlevel (String-discrete, j.discrete)

  unfoldable pub RequestProfile-discrete : Discrete (RequestProfile V)
  RequestProfile-discrete = hlevel (String-discrete, ℕ_discrete, j.discrete)

  -- The derived `==`: that of the fields, where `temperature` is a double.
  unfoldable pub profile_eq : RequestProfile V → RequestProfile V → Bool
  unfolding temperature_eq
  profile_eq a b =
      temperature_eq a.generation.temperature b.generation.temperature
      && same RequestProfile-discrete a
          (record b { generation = record b.generation { temperature = a.generation.temperature } })
