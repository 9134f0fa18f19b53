-- ===== src/Download/Queue/Laws.antt =====
-- What a removal of completed IDs leaves of the queue file.
use yt_media_tools.Prelude.{
  ◌≤◌, Bool, true, false, not, List, [], ◌∷◌, ◌++◌, Text, All, all, keep, length, ◌≡◌, refl, sym,
  ap, ◌∙◌, arith, ◌==◌, if◌then◌else◌, Bool-cases, inl, inr,
}
use yt_media_tools.Download.Queue.{
  splitlines, join, strip, strip_end, is_other, remove_completed_id, remove_archived_ids,
}
use yt_media_tools.Download.Queue.Lines.{
  join-splitlines, splitlines-lines, keep-lines, Keeps, splitlines-join-Keeps,
}

strip_end-newline : (line : Text) → strip_end (line ++ (10 ∷ [])) ≡ strip_end line
unfolding strip_end
strip_end-newline [] = refl
strip_end-newline (c ∷ cs) = rw (strip_end-newline cs) refl

is_other-newline : (id line : Text) → is_other id (line ++ (10 ∷ [])) ≡ is_other id line
unfolding is_other strip
is_other-newline id line = rw (strip_end-newline line) refl

keep-Keeps : (p : Text → Bool) (lines : List Text) → Keeps p (keep p lines)
keep-Keeps p [] = refl
keep-Keeps p (line ∷ lines) = ground (arith, keep-Keeps p lines)

length-keep : (p : Text → Bool) (lines : List Text) → length (keep p lines) ≤ length lines
length-keep p [] = omega arith
length-keep p (line ∷ lines) = ground (arith, length-keep p lines)

kept_all :
    (p : Text → Bool) (lines : List Text)
    → length (keep p lines) ≡ length lines
    → (keep p lines ≡ lines) × Keeps p lines
kept_all p [] h = (refl, refl)
kept_all p (line ∷ lines) h = ground (arith, h, kept_all p lines, length-keep p lines)

dropped :
    (p : Text → Bool) (lines : List Text)
    → (length (keep p lines) == length lines) ≡ false
    → all p lines ≡ false
dropped p [] h = cc h
dropped p (line ∷ lines) h = ground (arith, h, dropped p lines, length-keep p lines)

-- Removing an ID answers whether some line is that ID between blanks, leaves every other line byte
-- for byte and in its place, and no line that is that ID.
pub remove_completed_id-lines :
    (original id : Text)
    → ((remove_completed_id original id).0 ≡ not (all (is_other id) (splitlines original)))
      × ((remove_completed_id original id).1 ≡ join (keep (is_other id) (splitlines original)))
      × (all (is_other id) (splitlines (remove_completed_id original id).1) ≡ true)
unfolding remove_completed_id
remove_completed_id-lines original id =
    let lines = splitlines original in
    elim (Bool-cases (length (keep (is_other id) lines) == length lines)) [
      | inl e ↦
          let k = kept_all (is_other id) lines (ground (arith, e)) in
          rw (e, if◌then◌else◌) (cc k.1, sym (ap join k.0 ∙ join-splitlines original), k.1)
      | inr e ↦
          rw (e, if◌then◌else◌)
            (
              cc (dropped (is_other id) lines e),
              refl,
              splitlines-join-Keeps (is_other id) (keep (is_other id) lines) (is_other-newline id)
                  (keep-lines (is_other id) lines (splitlines-lines original))
                  (keep-Keeps (is_other id) lines),
            )
    ]

keep-Keeps_of : (p q : Text → Bool) (lines : List Text) → Keeps p lines → Keeps p (keep q lines)
keep-Keeps_of p q [] h = refl
keep-Keeps_of p q (line ∷ lines) h = ground (arith, h, keep-Keeps_of p q lines)

remove_completed_id-Keeps :
    (original id other : Text)
    → Keeps (is_other other) (splitlines original)
    → Keeps (is_other other) (splitlines (remove_completed_id original id).1)
remove_completed_id-Keeps original id other h =
    let lines = splitlines original in
    rw (remove_completed_id-lines original id).1 (
      splitlines-join-Keeps (is_other other) (keep (is_other id) lines) (is_other-newline other)
        (keep-lines (is_other id) lines (splitlines-lines original))
        (keep-Keeps_of (is_other other) (is_other id) lines h))

remove_archived_ids-Keeps :
    (contents : Text) (ids : List Text) (other : Text)
    → Keeps (is_other other) (splitlines contents)
    → Keeps (is_other other) (splitlines (remove_archived_ids contents ids).1)
unfolding remove_archived_ids
remove_archived_ids-Keeps contents [] other h = h
remove_archived_ids-Keeps contents (id ∷ ids) other h =
    remove_archived_ids-Keeps (remove_completed_id contents id).1 ids other
      (remove_completed_id-Keeps contents id other h)

-- Once all archived IDs are removed, in any order, no line of the queue is one of them, although
-- each removal rewrites the file and splits it into lines again.
pub remove_archived_ids-removed :
    (contents : Text) (ids : List Text)
    → All (λ id. all (is_other id) (splitlines (remove_archived_ids contents ids).1) ≡ true) ids
unfolding remove_archived_ids
remove_archived_ids-removed contents [] = tt
remove_archived_ids-removed contents (id ∷ ids) = (
  remove_archived_ids-Keeps (remove_completed_id contents id).1 ids id
      (remove_completed_id-lines contents id).2,
  remove_archived_ids-removed (remove_completed_id contents id).1 ids,
)
