-- ===== src/Temporal/Inference.antt =====
-- `_infer` and `upload_date_frontier` of temporal_bounds.py. The dict of inferred bounds stands for
-- the plan, whose sorting by key no operation observes.
pub mod Merges
pub mod Points
pub mod Leaves
pub mod Sound
use yt_media_tools.Prelude.{
  ℕ, suc, Bool, true, false, not, ◌&&◌, ◌||◌, Option, none, some, List, [], ◌∷◌, Text, codes, ltb,
  if◌then◌else◌,
}
use yt_media_tools.Query.Like.{equal_text}
use yt_media_tools.Query.Value.{
  Value, day, instant, Operator, equals, differs, less, less_or_equal, greater, greater_or_equal,
}
use yt_media_tools.Query.Model.{
  Field, Literal, and, or, Predicate, unary, binary, comparison, between, in_list,
}
use yt_media_tools.Query.Evaluator.{Runtime}
use yt_media_tools.Temporal.Bounds.{
  TemporalBound, Kind, date, datetime, FieldBounds, bound, Inferred, bounds_at, merge_and, merge_or,
}

-- `_TEMPORAL_FIELDS.get`
unfoldable pub temporal_kind : Text → Option Kind
unfolding equal_text
temporal_kind name =
    if equal_text name (codes "upload_date") || equal_text name (codes "date")
    then some date
    else if equal_text name (codes "timestamp")
        || equal_text name (codes "release_timestamp")
        || equal_text name (codes "modified_timestamp")
    then some datetime
    else none

abbrev pub minimum : ℕ → List ℕ → ℕ
minimum m [] = m
minimum m (n ∷ ns) = minimum (if ltb n m then n else m) ns

abbrev pub maximum : ℕ → List ℕ → ℕ
maximum m [] = m
maximum m (n ∷ ns) = maximum (if ltb m n then n else m) ns

abbrev pub all_of : Option ℕ → Option (List ℕ) → Option (List ℕ)
all_of (some n) (some ns) = some (n ∷ ns)
all_of _ _ = none

-- the bounds that `value op literal` gives, with the literal's point
unfoldable pub bounds_of_comparison :
    Operator → ℕ → Option (Option TemporalBound × Option TemporalBound)
bounds_of_comparison greater n = some (some (bound n false), none)
bounds_of_comparison greater_or_equal n = some (some (bound n true), none)
bounds_of_comparison less n = some (none, some (bound n false))
bounds_of_comparison less_or_equal n = some (none, some (bound n true))
bounds_of_comparison equals n = some (some (bound n true), some (bound n true))
bounds_of_comparison differs n = none

module _ (parse : Kind → Value → Option ℕ) where
  -- `_parse_literal`; `parse` reads the text of a literal that has no value of the kind
  unfoldable pub parse_literal : Literal → Kind → Option ℕ
  parse_literal literal date = elim literal.value [ day d ↦ some d | v ↦ parse date v ]
  parse_literal literal datetime = elim literal.value [ instant t ↦ some t | v ↦ parse datetime v ]

  unfoldable pub parse_literals : List Literal → Kind → Option (List ℕ)
  unfolding parse_literal
  parse_literals [] kind = some []
  parse_literals (item ∷ items) kind = all_of (parse_literal item kind) (parse_literals items kind)

module _ ⦃rt : Runtime⦄ where
  -- the entry of one field
  abbrev pub entry : Field → Kind → Option TemporalBound → Option TemporalBound → Inferred
  entry field kind lower upper =
      (
        rt.casefold field.name,
        record { field = field.name; kind = kind; lower = lower; upper = upper },
      )
      ∷ []

  unfoldable pub infer_comparison : Operator → Field → Kind → Option ℕ → Inferred
  unfolding bounds_of_comparison
  infer_comparison op field kind none = []
  infer_comparison op field kind (some n) = elim (bounds_of_comparison op n) [
    | none ↦ []
    | some (lower, upper) ↦ entry field kind lower upper
  ]

  unfoldable pub infer_between : Field → Kind → Option ℕ → Option ℕ → Inferred
  infer_between field kind (some low) (some high) =
      entry field kind (some (bound low true)) (some (bound high true))
  infer_between field kind _ _ = []

  unfoldable pub infer_in_list : Field → Kind → Option (List ℕ) → Inferred
  infer_in_list field kind (some (n ∷ ns)) =
      entry field kind (some (bound (minimum n ns) true)) (some (bound (maximum n ns) true))
  infer_in_list field kind _ = []

  -- what is inferred of a temporal field, and nothing of any other field
  abbrev pub of_field : Field → (Kind → Inferred) → Inferred
  of_field field inferred = elim (temporal_kind (rt.casefold field.name)) [
    | none ↦ []
    | some kind ↦ inferred kind
  ]

module _ ⦃rt : Runtime⦄ (parse : Kind → Value → Option ℕ) where
  unfoldable pub infer : Predicate → Inferred
  unfolding merge_and merge_or temporal_kind infer_comparison infer_between infer_in_list
      parse_literals
  infer (binary and left right) = merge_and (infer left) (infer right)
  infer (binary or left right) = merge_or (infer left) (infer right)
  infer (comparison op field literal) =
      of_field field (λ kind. infer_comparison op field kind (parse_literal parse literal kind))
  infer (between field lower upper false) = of_field field (λ kind.
      infer_between field kind (parse_literal parse lower kind) (parse_literal parse upper kind))
  infer (in_list field values false) =
      of_field field (λ kind. infer_in_list field kind (parse_literals parse values kind))
  infer _ = []

-- a lower bound on a date, as the first day that it admits
abbrev pub frontier_of : Option TemporalBound → Kind → Option ℕ
frontier_of none kind = none
frontier_of (some b) datetime = none
frontier_of (some b) date = some (if b.inclusive then b.value else suc b.value)

abbrev pub frontier_at : Option FieldBounds → Option ℕ → Option ℕ
frontier_at none other = other
frontier_at (some b) other = frontier_of b.lower b.kind

-- `upload_date_frontier`
unfoldable pub upload_date_frontier : Inferred → Option ℕ
unfolding bounds_at
upload_date_frontier inferred =
    frontier_at (bounds_at (codes "upload_date") inferred)
      (frontier_at (bounds_at (codes "date") inferred) none)
