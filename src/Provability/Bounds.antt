-- ===== src/Provability/Bounds.antt =====
-- Bounds that one value lies within do not contradict each other.
use yt_media_tools.Prelude.{
  Ordering, Bool, true, false, Option, none, some, List, [], ◌∷◌, any, All, ◌≡◌, refl, ap, arith,
  Option-cases, inl, inr,
}
use yt_media_tools.Query.Value.{
  Value, Operator, less, less_or_equal, greater, greater_or_equal, compare_values, compare_keys,
  key, equal_values, holds, ordered,
}
use yt_media_tools.Query.Value.Laws.{key_of_equal, compare_values-Together}
use yt_media_tools.Provability.Limits.{
  Constraint, Limit, equalities, exclusions, choose_lower, choose_upper, stronger_lower,
  stronger_upper, lower_bound, upper_bound, beyond_limit, outside_bounds, bounds_apart,
  contradictory_constraints,
}
use yt_media_tools.Provability.Constraints.{
  Satisfied, equalities-hold, exclusions-hold, unequal-false, excluded-false, outside_domains-false,
}

compare_left : (v w u : Value) → equal_values v w ≡ true → compare_values v u ≡ compare_values w u
unfolding compare_values
compare_left v w u h = ap (λ k. compare_keys k (key u)) (key_of_equal v w h)

compare_right : (x v w : Value) → equal_values v w ≡ true → compare_values x v ≡ compare_values x w
unfolding compare_values
compare_right x v w h = ap (compare_keys (key x)) (key_of_equal v w h)

equal_of_eq : (v w : Value) → compare_values v w ≡ some Ordering.eq → equal_values v w ≡ true
unfolding equal_values
equal_of_eq v w h = rw (h, equal_values) refl

abbrev strictly : Bool → Operator
strictly true = greater_or_equal
strictly false = greater

abbrev strictly_below : Bool → Operator
strictly_below true = less_or_equal
strictly_below false = less

module _ (x : Value) where
  -- the value is within a bound
  abbrev pub Above : Option Limit → Type 0
  Above none = Unit
  Above (some (bound, closed)) = ordered (strictly closed) (compare_values x bound) ≡ true

  abbrev pub Below : Option Limit → Type 0
  Below none = Unit
  Below (some (bound, closed)) = ordered (strictly_below closed) (compare_values x bound) ≡ true

  stronger_lower-Above :
      (lower : Option Limit) (v : Value) (closed : Bool)
      → Above lower
      → Above (some (v, closed))
      → Above (stronger_lower lower v closed)
  unfolding stronger_lower choose_lower
  stronger_lower-Above none v closed a h = h
  stronger_lower-Above (some (bound, incl)) v closed a h =
      elim (Option-cases (compare_values v bound)) [
        | inl e ↦ rw (e, choose_lower) a
        | inr (Ordering.lt, e) ↦ rw (e, choose_lower) a
        | inr (Ordering.gt, e) ↦ rw (e, choose_lower) h
        | inr (Ordering.eq, e) ↦
            rw (e, choose_lower)
              (ground (arith, a, h, compare_right x v bound (equal_of_eq v bound e)))
      ]

  stronger_upper-Below :
      (upper : Option Limit) (v : Value) (closed : Bool)
      → Below upper
      → Below (some (v, closed))
      → Below (stronger_upper upper v closed)
  unfolding stronger_upper choose_upper
  stronger_upper-Below none v closed a h = h
  stronger_upper-Below (some (bound, incl)) v closed a h =
      elim (Option-cases (compare_values v bound)) [
        | inl e ↦ rw (e, choose_upper) a
        | inr (Ordering.gt, e) ↦ rw (e, choose_upper) a
        | inr (Ordering.lt, e) ↦ rw (e, choose_upper) h
        | inr (Ordering.eq, e) ↦
            rw (e, choose_upper)
              (ground (arith, a, h, compare_right x v bound (equal_of_eq v bound e)))
      ]

  lower_bound-Above :
      (cs : List Constraint) (lower : Option Limit)
      → All (Satisfied x) cs
      → Above lower
      → Above (lower_bound cs lower)
  unfolding lower_bound holds
  lower_bound-Above [] lower h a = a
  lower_bound-Above ((greater, v) ∷ cs) lower h a =
      lower_bound-Above cs (stronger_lower lower v false) h.1
        (stronger_lower-Above lower v false a h.0)
  lower_bound-Above ((greater_or_equal, v) ∷ cs) lower h a =
      lower_bound-Above cs (stronger_lower lower v true) h.1
        (stronger_lower-Above lower v true a h.0)
  lower_bound-Above ((op, v) ∷ cs) lower h a = lower_bound-Above cs lower h.1 a

  upper_bound-Below :
      (cs : List Constraint) (upper : Option Limit)
      → All (Satisfied x) cs
      → Below upper
      → Below (upper_bound cs upper)
  unfolding upper_bound holds
  upper_bound-Below [] upper h a = a
  upper_bound-Below ((less, v) ∷ cs) upper h a =
      upper_bound-Below cs (stronger_upper upper v false) h.1
        (stronger_upper-Below upper v false a h.0)
  upper_bound-Below ((less_or_equal, v) ∷ cs) upper h a =
      upper_bound-Below cs (stronger_upper upper v true) h.1
        (stronger_upper-Below upper v true a h.0)
  upper_bound-Below ((op, v) ∷ cs) upper h a = upper_bound-Below cs upper h.1 a

  outside_bounds-false :
      (es : List Value) (lower upper : Option Limit)
      → All (λ v. equal_values x v ≡ true) es
      → Above lower
      → Below upper
      → outside_bounds es lower upper ≡ false
  unfolding outside_bounds beyond_limit
  outside_bounds-false [] lower upper h a b = refl
  outside_bounds-false (e ∷ es) none none h a b = refl
  outside_bounds-false (e ∷ es) (some (l, lc)) none h a b =
      ground (arith, a, compare_left x e l h.0)
  outside_bounds-false (e ∷ es) none (some (u, uc)) h a b =
      ground (arith, b, compare_left x e u h.0)
  outside_bounds-false (e ∷ es) (some (l, lc)) (some (u, uc)) h a b =
      ground (arith, a, b, compare_left x e l h.0, compare_left x e u h.0)

  bounds_apart-false :
      (lower upper : Option Limit) → Above lower → Below upper → bounds_apart lower upper ≡ false
  unfolding bounds_apart
  bounds_apart-false none upper a b = refl
  bounds_apart-false (some (l, lc)) none a b = refl
  bounds_apart-false (some (l, lc)) (some (u, uc)) a b =
      ground (arith, a, b, compare_values-Together x l u)

  -- Constraints and domains that a value satisfies do not contradict each other.
  pub contradictory_constraints-false :
      (cs : List Constraint) (domains : List (List Value))
      → All (Satisfied x) cs
      → All (λ d. any (equal_values x) d ≡ true) domains
      → contradictory_constraints cs domains ≡ false
  unfolding contradictory_constraints
  contradictory_constraints-false cs domains h k =
      let equal = equalities-hold x cs h in
      let lower = lower_bound-Above cs none h tt in
      let upper = upper_bound-Below cs none h tt in
      rw
        (
          unequal-false x (equalities cs) equal,
          excluded-false x (equalities cs) (exclusions cs) equal (exclusions-hold x cs h),
          outside_domains-false x (equalities cs) domains equal k,
          outside_bounds-false (equalities cs) (lower_bound cs none) (upper_bound cs none) equal
              lower upper,
          bounds_apart-false (lower_bound cs none) (upper_bound cs none) lower upper,
        )
        refl
