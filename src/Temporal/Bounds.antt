-- ===== src/Temporal/Bounds.antt =====
-- One bound, an interval of two, and how AND and OR merge them. A field's name and kind stand with
-- the field's entry and not again in each bound.
pub mod Laws
use yt_media_tools.Prelude.{
  ℕ, Bool, true, false, not, ◌&&◌, ◌||◌, Option, none, some, List, [], ◌∷◌, ◌++◌, Text, ltb, ◌==◌,
  if◌then◌else◌,
}
use yt_media_tools.Query.Like.{equal_text}

pub record TemporalBound : Type 0 where
  pub value : ℕ
  pub inclusive : Bool

pub data Kind : Type 0 where
  date datetime : Kind

-- `TemporalFieldBounds`
pub record FieldBounds : Type 0 where
  pub field : Text
  pub kind : Kind
  pub lower : Option TemporalBound
  pub upper : Option TemporalBound

abbrev pub bound : ℕ → Bool → TemporalBound
bound value inclusive = record { value = value; inclusive = inclusive }

unfoldable pub contradictory : FieldBounds → Bool
contradictory bounds = elim bounds.lower [
  | none ↦ false
  | some l ↦ elim bounds.upper [
    | none ↦ false
    | some u ↦
        if ltb u.value l.value
        then true
        else (l.value == u.value) && not (l.inclusive && u.inclusive)
  ]
]

unfoldable pub stronger_lower : Option TemporalBound → Option TemporalBound → Option TemporalBound
stronger_lower none right = right
stronger_lower (some l) none = some l
stronger_lower (some l) (some r) =
    if ltb l.value r.value
    then some r
    else if ltb r.value l.value
    then some l
    else some (bound l.value (l.inclusive && r.inclusive))

unfoldable pub stronger_upper : Option TemporalBound → Option TemporalBound → Option TemporalBound
stronger_upper none right = right
stronger_upper (some l) none = some l
stronger_upper (some l) (some r) =
    if ltb r.value l.value
    then some r
    else if ltb l.value r.value
    then some l
    else some (bound l.value (l.inclusive && r.inclusive))

unfoldable pub weaker_lower : Option TemporalBound → Option TemporalBound → Option TemporalBound
weaker_lower none right = none
weaker_lower (some l) none = none
weaker_lower (some l) (some r) =
    if ltb r.value l.value
    then some r
    else if ltb l.value r.value
    then some l
    else some (bound l.value (l.inclusive || r.inclusive))

unfoldable pub weaker_upper : Option TemporalBound → Option TemporalBound → Option TemporalBound
weaker_upper none right = none
weaker_upper (some l) none = none
weaker_upper (some l) (some r) =
    if ltb l.value r.value
    then some r
    else if ltb r.value l.value
    then some l
    else some (bound l.value (l.inclusive || r.inclusive))

-- a dict from casefolded names
abbrev pub Inferred : Type 0
Inferred = List (Text × FieldBounds)

unfoldable pub bounds_at : Text → Inferred → Option FieldBounds
unfolding equal_text
bounds_at name [] = none
bounds_at name ((k, b) ∷ rest) =
    let later = bounds_at name rest in if equal_text k name then some b else later

-- `result[key] = bounds` in a dict
unfoldable pub put : Text → FieldBounds → Inferred → Inferred
unfolding equal_text
put name b [] = (name, b) ∷ []
put name b ((k, c) ∷ rest) =
    let later = (k, c) ∷ put name b rest in if equal_text k name then (k, b) ∷ rest else later

abbrev pub with_bounds : FieldBounds → Option TemporalBound → Option TemporalBound → FieldBounds
with_bounds b lower upper = record { field = b.field; kind = b.kind; lower = lower; upper = upper }

abbrev pub intersected : FieldBounds → FieldBounds → FieldBounds
intersected current candidate =
    with_bounds current (stronger_lower current.lower candidate.lower)
      (stronger_upper current.upper candidate.upper)

abbrev pub spanned : FieldBounds → FieldBounds → FieldBounds
spanned first second =
    with_bounds first (weaker_lower first.lower second.lower)
      (weaker_upper first.upper second.upper)

-- `_merge_and`: the candidates of the right dict go into the left one
unfoldable pub merge_and : Inferred → Inferred → Inferred
unfolding bounds_at put stronger_lower stronger_upper
merge_and result [] = result
merge_and result ((k, candidate) ∷ rest) =
    merge_and
      (elim (bounds_at k result) [
        | none ↦ put k candidate result
        | some current ↦ put k (intersected current candidate) result
      ])
      rest

abbrev pub is_bounded : FieldBounds → Bool
is_bounded b = elim b.lower [ some _ ↦ true | none ↦ elim b.upper [ some _ ↦ true | none ↦ false ] ]

-- `_merge_or`: the keys of both
unfoldable pub merge_or : Inferred → Inferred → Inferred
unfolding bounds_at weaker_lower weaker_upper
merge_or [] right = []
merge_or ((k, first) ∷ rest) right =
    let others = merge_or rest right in
    elim (bounds_at k right) [
      | none ↦ others
      | some second ↦
          if is_bounded (spanned first second) then (k, spanned first second) ∷ others else others
    ]
