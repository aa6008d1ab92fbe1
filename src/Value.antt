-- ===== src/Value.antt =====
-- `serde_json::Value`, which is not part of the repository: a type with what the code asks of it.
use zhir.Prelude.{ℕ, Option, none, some, Bool, true, ltb, is_some, same, not}

pub record Json (V : Type 0) : Type 0 where
  -- `==` of values
  pub discrete : Discrete V
  pub null : V
  -- `as_object().map(|object| object.len())`
  pub object_len : V → Option ℕ

module _ {V : Type 0} ⦃j : Json V⦄ where
  abbrev pub is_null : V → Bool
  is_null v = same j.discrete v j.null

  abbrev pub is_object : V → Bool
  is_object v = is_some (j.object_len v)

  -- `v.as_object().is_none_or(|object| object.is_empty())`
  abbrev pub no_members : V → Bool
  no_members v = elim (j.object_len v) [ none ↦ true | some n ↦ not (ltb 0 n) ]
