-- ===== src/Query/Like.antt =====
-- LIKE and ILIKE of yt_media_tools/query_evaluator.py: the pattern as the regular expression that
-- it is compiled to, and the shortcut for a pattern without wildcards.
pub mod Laws
use yt_media_tools.Prelude.{
  ℕ, Bool, true, false, ◌&&◌, ◌||◌, Option, none, some, [], ◌∷◌, List, Text, ◌==◌, if◌then◌else◌,
}

-- A piece of the compiled pattern: an escaped character, `[\s\S]`, or `[\s\S]*`.
pub data Piece : Type 0 where
  character : ℕ → Piece
  any_one any_run : Piece

-- The loop of `_compile_like_pattern`, by its flag `escaped`.
unfoldable pub compile : Bool → Text → List Piece
compile escaped [] = []
compile true (c ∷ cs) = character c ∷ compile false cs
compile false (c ∷ cs) =
    let quoted = compile true cs in
    let rest = compile false cs in
    if c == b'\\'
    then quoted
    else if c == b'%'
    then any_run ∷ rest
    else if c == b'_'
    then any_one ∷ rest
    else character c ∷ rest

-- `re.fullmatch`, where `same` is how the engine compares two characters
module _ (same : ℕ → ℕ → Bool) where
  unfoldable pub full_match : List Piece → Text → Bool
  full_match [] [] = true
  full_match [] (x ∷ xs) = false
  full_match (character c ∷ ps) [] = false
  full_match (character c ∷ ps) (x ∷ xs) = same c x && full_match ps xs
  full_match (any_one ∷ ps) [] = false
  full_match (any_one ∷ ps) (x ∷ xs) = full_match ps xs
  full_match (any_run ∷ ps) [] = full_match ps []
  full_match (any_run ∷ ps) (x ∷ xs) = full_match ps (x ∷ xs) || full_match (any_run ∷ ps) xs

-- The loop of `_exact_like_literal`: `none` stands for its `False, ""`.
unfoldable pub exact_literal : Bool → Text → Option Text
exact_literal true [] = none
exact_literal false [] = some []
exact_literal true (c ∷ cs) = elim (exact_literal false cs) [
  | none ↦ none
  | some literal ↦ some (c ∷ literal)
]
exact_literal false (c ∷ cs) =
    let quoted = exact_literal true cs in
    let rest = exact_literal false cs in
    if c == b'\\'
    then quoted
    else if (c == b'%') || (c == b'_')
    then none
    else elim rest [ none ↦ none | some literal ↦ some (c ∷ literal) ]

-- `s == t` on strings
unfoldable pub equal_text : Text → Text → Bool
equal_text [] [] = true
equal_text [] (y ∷ ys) = false
equal_text (x ∷ xs) [] = false
equal_text (x ∷ xs) (y ∷ ys) = (x == y) && equal_text xs ys

-- `like_matches` with its keyword `case_insensitive`
module _ (same_ignoring_case : ℕ → ℕ → Bool) where
  unfoldable pub like_matches : Text → Text → Bool → Bool
  unfolding compile full_match exact_literal equal_text
  like_matches value pattern true = full_match same_ignoring_case (compile false pattern) value
  like_matches value pattern false = elim (exact_literal false pattern) [
    | some literal ↦ equal_text value literal
    | none ↦ full_match ◌==◌ (compile false pattern) value
  ]
