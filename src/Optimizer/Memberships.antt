-- ===== src/Optimizer/Memberships.antt =====
-- The pair rule of `_simplify_memberships` of optimizer.py.
use yt_media_tools.Prelude.{Bool, not, ◌||◌, Option, none, some, List, all, if◌then◌else◌}
use yt_media_tools.Query.Value.{equals}
use yt_media_tools.Query.Model.{Literal, Connective, and, or, Predicate, comparison, in_list}
use yt_media_tools.Query.Semantics.{same_field, same_operator, has_literal}
use yt_media_tools.Optimizer.Bounds.{Side, left, right, opposite}

-- `left_values <= right_values`, on the sets of semantic keys
unfoldable pub is_subset : List Literal → List Literal → Bool
unfolding has_literal
is_subset items others = all (λ (a : Literal). has_literal a others) items

-- the narrower membership is kept under AND, the wider one under OR
abbrev pub keep_narrow : Connective → Side → Side
keep_narrow and side = side
keep_narrow or side = opposite side

unfoldable pub subsumed_membership : Connective → Predicate → Predicate → Option Side
unfolding is_subset same_field
subsumed_membership op (in_list f items n) (in_list g others m) =
    if n || m || not (same_field f g)
    then none
    else if is_subset items others
    then some (keep_narrow op left)
    else if is_subset others items
    then some (keep_narrow op right)
    else none
subsumed_membership op (in_list f items n) (comparison o g b) =
    if n || not (same_operator o equals) || not (same_field f g)
    then none
    else if has_literal b items
    then some (keep_narrow op right)
    else none
subsumed_membership op (comparison o g b) (in_list f items n) =
    if n || not (same_operator o equals) || not (same_field f g)
    then none
    else if has_literal b items
    then some (keep_narrow op left)
    else none
subsumed_membership op _ _ = none
