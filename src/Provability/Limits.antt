-- ===== src/Provability/Limits.antt =====
-- yt_media_tools/semantic_provability.py: the tests of `_prove_and_contradiction` on the constraints and the
-- finite domains of one field.
use yt_media_tools.Prelude.{
  Ordering, Bool, true, false, not, ◌&&◌, ◌||◌, Option, none, some, List, [], ◌∷◌, any, all, keep,
}
use yt_media_tools.Query.Value.{
  Value, Operator, equals, differs, less, less_or_equal, greater, greater_or_equal, compare_values,
  equal_values,
}

abbrev pub Constraint : Type 0
Constraint = Operator × Value

-- the values of the constraints with an operator
unfoldable pub equalities : List Constraint → List Value
equalities [] = []
equalities ((equals, v) ∷ constraints) = v ∷ equalities constraints
equalities ((op, v) ∷ constraints) = equalities constraints

unfoldable pub exclusions : List Constraint → List Value
exclusions [] = []
exclusions ((differs, v) ∷ constraints) = v ∷ exclusions constraints
exclusions ((op, v) ∷ constraints) = exclusions constraints

-- a bound and whether it is inclusive
abbrev pub Limit : Type 0
Limit = Value × Bool

-- the new lower bound by how the value compares with the current one; TypeError keeps the current
unfoldable pub choose_lower : Option Ordering → Limit → Value → Bool → Limit
choose_lower none current value inclusive = current
choose_lower (some Ordering.lt) current value inclusive = current
choose_lower (some Ordering.eq) (bound, closed) value inclusive = (value, closed && inclusive)
choose_lower (some Ordering.gt) current value inclusive = (value, inclusive)

unfoldable pub choose_upper : Option Ordering → Limit → Value → Bool → Limit
choose_upper none current value inclusive = current
choose_upper (some Ordering.gt) current value inclusive = current
choose_upper (some Ordering.eq) (bound, closed) value inclusive = (value, closed && inclusive)
choose_upper (some Ordering.lt) current value inclusive = (value, inclusive)

-- `_stronger_lower`
unfoldable pub stronger_lower : Option Limit → Value → Bool → Option Limit
unfolding choose_lower compare_values
stronger_lower none value inclusive = some (value, inclusive)
stronger_lower (some (bound, closed)) value inclusive =
    some (choose_lower (compare_values value bound) (bound, closed) value inclusive)

-- `_stronger_upper`
unfoldable pub stronger_upper : Option Limit → Value → Bool → Option Limit
unfolding choose_upper compare_values
stronger_upper none value inclusive = some (value, inclusive)
stronger_upper (some (bound, closed)) value inclusive =
    some (choose_upper (compare_values value bound) (bound, closed) value inclusive)

-- the loop over the constraints, for the lower and for the upper bound
unfoldable pub lower_bound : List Constraint → Option Limit → Option Limit
unfolding stronger_lower
lower_bound [] lower = lower
lower_bound ((greater, v) ∷ constraints) lower =
    lower_bound constraints (stronger_lower lower v false)
lower_bound ((greater_or_equal, v) ∷ constraints) lower =
    lower_bound constraints (stronger_lower lower v true)
lower_bound ((op, v) ∷ constraints) lower = lower_bound constraints lower

unfoldable pub upper_bound : List Constraint → Option Limit → Option Limit
unfolding stronger_upper
upper_bound [] upper = upper
upper_bound ((less, v) ∷ constraints) upper = upper_bound constraints (stronger_upper upper v false)
upper_bound ((less_or_equal, v) ∷ constraints) upper =
    upper_bound constraints (stronger_upper upper v true)
upper_bound ((op, v) ∷ constraints) upper = upper_bound constraints upper

-- incompatible equality requirements
unfoldable pub unequal : List Value → Bool
unfolding equal_values
unequal [] = false
unequal (e ∷ es) = any (λ v. not (equal_values v e)) es

-- an equality with an excluded value
unfoldable pub excluded : List Value → List Value → Bool
unfolding equal_values
excluded [] exclusions = false
excluded (e ∷ es) exclusions = any (λ v. equal_values v e) exclusions

-- the values that all finite domains allow
unfoldable pub allowed : List Value → List (List Value) → List Value
unfolding equal_values
allowed first rest = keep (λ v. all (any (equal_values v)) rest) first

abbrev pub is_none_of : List Value → Bool
is_none_of [] = true
is_none_of (v ∷ vs) = false

-- disjoint domains, or an equality outside of them
unfoldable pub outside_domains : List Value → List (List Value) → Bool
unfolding allowed
outside_domains equal [] = false
outside_domains [] (first ∷ rest) = is_none_of (allowed first rest)
outside_domains (e ∷ es) (first ∷ rest) =
    is_none_of (allowed first rest) || not (any (equal_values e) (allowed first rest))

-- `v < bound or (v == bound and not closed)`, where `none` is TypeError
abbrev pub beyond : Ordering → Option Ordering → Bool → Option Bool
beyond side none closed = none
beyond side (some Ordering.eq) closed = some (not closed)
beyond Ordering.lt (some Ordering.lt) closed = some true
beyond Ordering.gt (some Ordering.gt) closed = some true
beyond side (some o) closed = some false

unfoldable pub beyond_limit : Ordering → Value → Option Limit → Option Bool
unfolding compare_values
beyond_limit side v none = some false
beyond_limit side v (some (bound, closed)) = beyond side (compare_values v bound) closed

-- the first test that is TRUE, up to a TypeError
abbrev pub first_proof : Option Bool → Option Bool → Bool
first_proof none second = false
first_proof (some true) second = true
first_proof (some false) (some true) = true
first_proof (some false) second = false

unfoldable pub outside_bounds : List Value → Option Limit → Option Limit → Bool
unfolding beyond_limit
outside_bounds [] lower upper = false
outside_bounds (e ∷ es) lower upper =
    first_proof (beyond_limit Ordering.lt e lower) (beyond_limit Ordering.gt e upper)

-- `lower > upper or (lower == upper and not (both inclusive))`
abbrev pub apart : Option Ordering → Bool → Bool
apart none closed = false
apart (some Ordering.gt) closed = true
apart (some Ordering.eq) closed = not closed
apart (some Ordering.lt) closed = false

unfoldable pub bounds_apart : Option Limit → Option Limit → Bool
unfolding compare_values
bounds_apart (some (l, lower_closed)) (some (u, upper_closed)) =
    apart (compare_values l u) (lower_closed && upper_closed)
bounds_apart lower upper = false

-- the tests on the constraints and the finite domains of one field
unfoldable pub contradictory_constraints : List Constraint → List (List Value) → Bool
unfolding equalities exclusions unequal excluded outside_domains lower_bound upper_bound
    outside_bounds bounds_apart
contradictory_constraints constraints domains =
    let equal = equalities constraints in
    let lower = lower_bound constraints none in
    let upper = upper_bound constraints none in
    unequal equal
    || (excluded equal (exclusions constraints)
        || (outside_domains equal domains
            || (outside_bounds equal lower upper || bounds_apart lower upper)))
