-- ===== src/Staging/Fields.antt =====
-- The terms that are planned for an enumeration read only the fields that it gives exactly.
use yt_media_tools.Prelude.{
  ◌≡◌, refl, Bool, true, List, [], ◌∷◌, Text, All, all, Bool-cases, inl, inr,
}
use yt_media_tools.Query.Model.{Predicate}
use yt_media_tools.Staging.{
  required_fields, Term, insert_term, order_predicate_terms, precedes, with_fields, select,
  enumeration_safe,
}

module _ (is_enumerated : Text → Bool) where
  -- Every term stands with its required fields, which the source declares exact.
  abbrev pub HasField : Term → Type 0
  HasField t = (t.1 ≡ required_fields t.0) × (all is_enumerated (required_fields t.0) ≡ true)

  abbrev pub HasFields : List Term → Type 0
  HasFields = All HasField

  insert-HasFields :
      (t : Term) (ts : List Term) → HasField t → HasFields ts → HasFields (insert_term t ts)
  unfolding insert_term
  insert-HasFields t [] e w = (e, tt)
  insert-HasFields t (u ∷ us) e w = elim (Bool-cases (precedes u t)) [
    | inl k ↦ rw (k, insert_term) (w.0, insert-HasFields t us e w.1)
    | inr k ↦ rw (k, insert_term) (e, w)
  ]

  pub order-HasFields : (ts : List Term) → HasFields ts → HasFields (order_predicate_terms ts)
  unfolding order_predicate_terms
  order-HasFields [] w = tt
  order-HasFields (t ∷ ts) w =
      insert-HasFields t (order_predicate_terms ts) w.0 (order-HasFields ts w.1)

  pub plan_fields :
      (ps : List Predicate) → HasFields (with_fields (select (enumeration_safe is_enumerated) ps))
  unfolding with_fields select enumeration_safe
  plan_fields [] = tt
  plan_fields (p ∷ ps) = elim (Bool-cases (all is_enumerated (required_fields p))) [
    | inl e ↦ rw e ((refl, e), plan_fields ps)
    | inr e ↦ rw e (plan_fields ps)
  ]
