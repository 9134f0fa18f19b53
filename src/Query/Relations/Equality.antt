-- ===== src/Query/Relations/Equality.antt =====
-- Python's `==` on lists of values is an equivalence.
use yt_media_tools.Prelude.{◌≡◌, refl, true, List, [], ◌∷◌, arith}
use yt_media_tools.Query.Value.{Value}
use yt_media_tools.Query.Value.Equality.{equal_values_comm, equal_values_of_equal}
use yt_media_tools.Query.Relations.{equal_lists}

pub equal_lists_comm : (xs ys : List Value) → equal_lists xs ys ≡ equal_lists ys xs
unfolding equal_lists
equal_lists_comm [] [] = refl
equal_lists_comm [] (y ∷ ys) = refl
equal_lists_comm (x ∷ xs) [] = refl
equal_lists_comm (x ∷ xs) (y ∷ ys) = ground (arith, equal_lists_comm xs ys, equal_values_comm x y)

pub equal_lists_of_equal :
    (xs ys zs : List Value) → equal_lists xs ys ≡ true → equal_lists xs zs ≡ equal_lists ys zs
unfolding equal_lists
equal_lists_of_equal [] [] zs h = refl
equal_lists_of_equal [] (y ∷ ys) zs h = cc
equal_lists_of_equal (x ∷ xs) [] zs h = cc
equal_lists_of_equal (x ∷ xs) (y ∷ ys) [] h = refl
equal_lists_of_equal (x ∷ xs) (y ∷ ys) (z ∷ zs) h =
    ground (arith, equal_lists_of_equal xs ys zs, equal_values_of_equal x y z)
