-- ===== src/Collections.antt =====
-- yt_media_tools/collection_semantics.py: the truth value of ANY and ALL over a collection, from the
-- truth values of its elements' predicates.
pub mod Laws
use yt_media_tools.Prelude.{Bool, true, false, Option, none, some, List, [], ◌∷◌, if◌then◌else◌}
use yt_media_tools.Query.Model.{Truth}

-- the loop of `existential_truth`, by its flag `saw_unknown`
unfoldable pub existential_loop : Bool → List Truth → Truth
existential_loop saw_unknown [] = if saw_unknown then none else some false
existential_loop saw_unknown (some true ∷ results) = some true
existential_loop saw_unknown (none ∷ results) = existential_loop true results
existential_loop saw_unknown (some false ∷ results) = existential_loop saw_unknown results

unfoldable pub existential_truth : List Truth → Bool → Truth
unfolding existential_loop
existential_truth results collection_is_null =
    if collection_is_null then none else existential_loop false results

-- the loop of `universal_truth`
unfoldable pub universal_loop : Bool → List Truth → Truth
universal_loop saw_unknown [] = if saw_unknown then none else some true
universal_loop saw_unknown (some false ∷ results) = some false
universal_loop saw_unknown (none ∷ results) = universal_loop true results
universal_loop saw_unknown (some true ∷ results) = universal_loop saw_unknown results

unfoldable pub universal_truth : List Truth → Bool → Truth
unfolding universal_loop
universal_truth results collection_is_null =
    if collection_is_null then none else universal_loop false results
