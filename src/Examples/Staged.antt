-- ===== src/Examples/Staged.antt =====
-- A WHERE on an exact and on an approximate field, over the declared capabilities of the fields.
use yt_media_tools.Prelude.{
  ◌≡◌, refl, ap, true, false, Bool, none, some, [], ◌∷◌, ℕ, Text, codes, Bool-cases, inl, inr,
}
use yt_media_tools.Prelude.Order.{pos}
use yt_media_tools.Query.Like.{equal_text}
use yt_media_tools.Query.Like.Laws.{equal_text_iff}
use yt_media_tools.Query.Value.{integer, day, greater, compare_values}
use yt_media_tools.Query.Model.{Field, Literal, and, Predicate, binary, comparison}
use yt_media_tools.Query.Evaluator.{Record, record_value, accepts_record}
use yt_media_tools.Staging.{plan_predicate_stages, rejects_at_enumeration, matches_at_enumeration}
use yt_media_tools.Staging.Capabilities.{is_enumerated}
use yt_media_tools.Staging.Laws.{
  Extends, rejects_at_enumeration-accepts, matches_at_enumeration-accepts,
}
use yt_media_tools.Examples.{plain_runtime, number}

abbrev upload_date : Field
upload_date = record { name = codes "upload_date"; kind = some (codes "date") }

abbrev on_day : ℕ → Literal
on_day n = record { value = day n; quoted = true }

abbrev source_index : Field
source_index = record { name = codes "source_index"; kind = none }

abbrev indexed : Predicate
indexed = comparison greater source_index (number 3)

-- source_index > 3 AND upload_date > 10
abbrev indexed_after : Predicate
indexed_after = binary and indexed (comparison greater upload_date (on_day 10))

abbrev dated : ℕ → ℕ → Record
dated i n = (codes "source_index", integer (pos i)) ∷ ((codes "upload_date", day n) ∷ [])

abbrev is_declared : Text → Bool
is_declared = is_enumerated ⦃rt = plain_runtime⦄ []

-- the date is approximate
date_undeclared : is_declared (codes "upload_date") ≡ false
unfolding is_enumerated
date_undeclared = refl

-- The complete record has another date than the enumeration.
dated-Extends : (i n m : ℕ) → Extends ⦃rt = plain_runtime⦄ is_declared (dated i n) (dated i m)
unfolding record_value
dated-Extends i n m = λ name d h. elim (Bool-cases (equal_text (codes "source_index") name)) [
  | inl e ↦ rw e refl
  | inr e ↦ elim (Bool-cases (equal_text (codes "upload_date") name)) [
    | inl e' ↦
        cc (ap is_declared ((equal_text_iff (codes "upload_date") name).0 e'), date_undeclared, d)
    | inr e' ↦ rw (e, e') refl
  ]
]

early-rejected :
    rejects_at_enumeration ⦃rt = plain_runtime⦄
      (plan_predicate_stages is_declared indexed_after)
      (dated 2 50)
    ≡ true
unfolding rejects_at_enumeration plan_predicate_stages is_enumerated compare_values
early-rejected = refl

rejects_at_enumeration-accepts_example :
    accepts_record ⦃rt = plain_runtime⦄ (some indexed_after) (dated 2 60) ≡ false
rejects_at_enumeration-accepts_example =
    rejects_at_enumeration-accepts ⦃rt = plain_runtime⦄ is_declared (dated 2 50) (dated 2 60)
      indexed_after (dated-Extends 2 50 60) early-rejected

-- An approximate date rejects nothing, though the complete record is accepted.
deferred :
    rejects_at_enumeration ⦃rt = plain_runtime⦄
      (plan_predicate_stages is_declared indexed_after)
      (dated 5 7)
    ≡ false
unfolding rejects_at_enumeration plan_predicate_stages is_enumerated compare_values
deferred = refl

early-matched :
    matches_at_enumeration ⦃rt = plain_runtime⦄
      (plan_predicate_stages is_declared indexed)
      (dated 5 7)
    ≡ true
unfolding matches_at_enumeration plan_predicate_stages is_enumerated compare_values
early-matched = refl

matches_at_enumeration-accepts_example :
    accepts_record ⦃rt = plain_runtime⦄ (some indexed) (dated 5 12) ≡ true
matches_at_enumeration-accepts_example =
    matches_at_enumeration-accepts ⦃rt = plain_runtime⦄ is_declared (dated 5 7) (dated 5 12) indexed
      (dated-Extends 5 7 12) early-matched
