-- ===== src/Download/Queue.antt =====
-- yt-download.py: the queue file of targets, whose completed lines are removed by an atomic rewrite.
-- Contents are lists of bytes.
mod Lines
pub mod Laws
pub mod Writes
use yt_media_tools.Prelude.{
  ℕ, suc, Bool, true, false, not, ◌&&◌, ◌||◌, Option, none, some, List, [], ◌∷◌, ◌++◌, Text, length,
  keep, ◌==◌, if◌then◌else◌,
}
use yt_media_tools.Query.Like.{equal_text}

-- a byte in front of the first of some lines
abbrev pub glue : ℕ → List Text → List Text
glue c [] = (c ∷ []) ∷ []
glue c (line ∷ rest) = (c ∷ line) ∷ rest

abbrev pub starts_with : ℕ → Text → Bool
starts_with c [] = false
starts_with c (x ∷ xs) = x == c

-- `bytes.splitlines(keepends=True)`: a line ends at \n, \r or \r\n
unfoldable pub splitlines : Text → List Text
splitlines [] = []
splitlines (c ∷ cs) =
    let rest = splitlines cs in
    if c == 10
    then (c ∷ []) ∷ rest
    else if (c == 13) && not (starts_with 10 cs)
    then (c ∷ []) ∷ rest
    else glue c rest

-- `b"".join(lines)`
unfoldable pub join : List Text → Text
join [] = []
join (line ∷ lines) = line ++ join lines

-- space, \t, \n, \v, \f and \r
unfoldable pub is_space : ℕ → Bool
is_space c = (c == 32) || ((c == 9) || ((c == 10) || ((c == 11) || ((c == 12) || (c == 13)))))

unfoldable pub strip_start : Text → Text
unfolding is_space
strip_start [] = []
strip_start (c ∷ cs) = if is_space c then strip_start cs else c ∷ cs

abbrev pub put_back : ℕ → Bool → Text → Text
put_back c space [] = if space then [] else c ∷ []
put_back c space (d ∷ ds) = c ∷ (d ∷ ds)

unfoldable pub strip_end : Text → Text
unfolding is_space
strip_end [] = []
strip_end (c ∷ cs) = put_back c (is_space c) (strip_end cs)

-- `line.strip()`
unfoldable pub strip : Text → Text
unfolding strip_start strip_end
strip line = strip_start (strip_end line)

-- `line.strip() != target`
unfoldable pub is_other : Text → Text → Bool
unfolding strip equal_text
is_other target line = not (equal_text (strip line) target)

-- `remove_completed_id` on the file's contents: whether it rewrites them, and what it leaves
unfoldable pub remove_completed_id : Text → Text → Bool × Text
unfolding splitlines is_other join
remove_completed_id original target =
    let lines = splitlines original in
    let retained = keep (is_other target) lines in
    if length retained == length lines then (false, original) else (true, join retained)

-- `remove_archived_ids`: the number of removed IDs, and the contents
unfoldable pub remove_archived_ids : Text → List Text → ℕ × Text
unfolding remove_completed_id
remove_archived_ids contents [] = (0, contents)
remove_archived_ids contents (video_id ∷ ids) =
    let (removed, left) = remove_completed_id contents video_id in
    let (count, final) = remove_archived_ids left ids in
    (if removed then suc count else count, final)
