-- ===== src/Examples/Proved.antt =====
-- A WHERE that is proved contradictory.
use yt_media_tools.Prelude.{true, false, none, some, Text, ◌≡◌, ◌≢◌, refl}
use yt_media_tools.Query.Value.{greater, less}
use yt_media_tools.Query.Model.{Predicate, and, binary, comparison, null_test}
use yt_media_tools.Query.Evaluator.{evaluate, ignores_case}
use yt_media_tools.Provability.{Numerals, flatten_and, prove_and_contradiction}
use yt_media_tools.Provability.Laws.{prove_and_contradiction-never_true}
use yt_media_tools.Examples.{plain_runtime, views, number, views_record}

-- no unquoted text is a number
abbrev no_numerals : Numerals
no_numerals = record { number_of = λ (s : Text). none }

-- views > 5 AND views IS NOT NULL AND views < 6 AND views < 5
abbrev narrow : Predicate
narrow =
    binary and (binary and (comparison greater views (number 5)) (null_test views true))
      (binary and (comparison less views (number 6)) (comparison less views (number 5)))

narrow_proved : prove_and_contradiction ⦃ns = no_numerals⦄ narrow ≡ true
unfolding prove_and_contradiction
narrow_proved = refl

-- without the last term nothing is proved
loose_not_proved :
    prove_and_contradiction ⦃ns = no_numerals⦄
      (binary and (comparison greater views (number 5)) (comparison less views (number 6)))
    ≡ false
unfolding prove_and_contradiction
loose_not_proved = refl

views_plain : ignores_case ⦃rt = plain_runtime⦄ views ≡ false
unfolding ignores_case
views_plain = refl

prove_and_contradiction-never_true_example :
    evaluate ⦃rt = plain_runtime⦄ narrow views_record ≢ some true
unfolding flatten_and
prove_and_contradiction-never_true_example =
    prove_and_contradiction-never_true ⦃rt = plain_runtime⦄ ⦃ns = no_numerals⦄ narrow views_record
      ((views_plain, tt), (tt, ((views_plain, tt), ((views_plain, tt), tt)))) narrow_proved
