-- ===== src/Collections/Laws.antt =====
-- ANY is the OR of its elements and ALL the AND, and each is the dual of the other.
use yt_media_tools.Prelude.{
  ◌≡◌, refl, Bool, true, false, none, some, List, [], ◌∷◌, map, arith, if◌then◌else◌,
}
use yt_media_tools.Query.Model.{Truth, Connective, and, or}
use yt_media_tools.Query.Evaluator.{evaluate_boolean_binary, evaluate_not}
use yt_media_tools.Collections.{
  existential_loop, existential_truth, universal_loop, universal_truth,
}

-- a chain of OR or AND as WHERE evaluates it
abbrev pub joined : Connective → Truth → List Truth → Truth
joined op start [] = start
joined op start (t ∷ ts) = evaluate_boolean_binary op t (joined op start ts)

abbrev flagged : Truth → Bool → Truth
flagged start saw_unknown = if saw_unknown then none else start

existential_loop-joined :
    (saw : Bool) (ts : List Truth)
    → existential_loop saw ts
      ≡ evaluate_boolean_binary or (flagged (some false) saw) (joined or (some false) ts)
unfolding existential_loop evaluate_boolean_binary
existential_loop-joined saw [] = ground arith
existential_loop-joined saw (some true ∷ ts) = ground arith
existential_loop-joined saw (none ∷ ts) = ground (arith, existential_loop-joined true ts)
existential_loop-joined saw (some false ∷ ts) = ground (arith, existential_loop-joined saw ts)

universal_loop-joined :
    (saw : Bool) (ts : List Truth)
    → universal_loop saw ts
      ≡ evaluate_boolean_binary and (flagged (some true) saw) (joined and (some true) ts)
unfolding universal_loop evaluate_boolean_binary
universal_loop-joined saw [] = ground arith
universal_loop-joined saw (some false ∷ ts) = ground arith
universal_loop-joined saw (none ∷ ts) = ground (arith, universal_loop-joined true ts)
universal_loop-joined saw (some true ∷ ts) = ground (arith, universal_loop-joined saw ts)

-- Over a collection that is not NULL, ANY is the OR of the elements' truth values as WHERE
-- evaluates it, from FALSE, and ALL is their AND, from TRUE.
pub truth-joined :
    (ts : List Truth)
    → (existential_truth ts false ≡ joined or (some false) ts)
      × (universal_truth ts false ≡ joined and (some true) ts)
unfolding existential_truth universal_truth evaluate_boolean_binary
truth-joined ts = (
  ground (arith, existential_loop-joined false ts),
  ground (arith, universal_loop-joined false ts),
)

loops-dual :
    (saw : Bool) (ts : List Truth)
    → evaluate_not (existential_loop saw ts) ≡ universal_loop saw (map evaluate_not ts)
unfolding existential_loop universal_loop
loops-dual saw [] = ground arith
loops-dual saw (some true ∷ ts) = refl
loops-dual saw (none ∷ ts) = loops-dual true ts
loops-dual saw (some false ∷ ts) = loops-dual saw ts

-- NOT ANY is ALL of the negated elements, for a NULL collection too.
truth-dual :
    (ts : List Truth) (is_null : Bool)
    → evaluate_not (existential_truth ts is_null) ≡ universal_truth (map evaluate_not ts) is_null
unfolding existential_truth universal_truth
truth-dual ts true = refl
truth-dual ts false = loops-dual false ts
