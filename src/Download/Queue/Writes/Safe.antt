-- ===== src/Download/Queue/Writes/Safe.antt =====
-- At every moment the file holds its old contents or the new ones.
use yt_media_tools.Prelude.{
  Option, none, some, [], ◌∷◌, Text, length, take, ◌≡◌, refl, ap, ◌∙◌, ◌⊎◌, inl, inr,
}
use mathlib.Core.Path.{subst}
use yt_media_tools.Download.Queue.Writes.{
  Files, Stage, opening, syncing, changing_mode, replacing, syncing_directory, finished, failing,
  failed, writing, Writer, at, Step, opens, open_fails, writes, write_fails, flushes, syncs,
  sync_fails, changes_mode, mode_fails, replaces, replace_fails, directory_syncs,
  directory_not_opened, directory_fails, unlinks, unlink_fails, Run, begin, then_step,
}

-- what holds before each call
abbrev Holds : Text → Option Text → Stage → Files → Type 0
Holds content old opening files = files.target ≡ old
Holds content old (writing n) files =
    (files.target ≡ old) × (files.temporary ≡ some (take n content))
Holds content old syncing files = (files.target ≡ old) × (files.temporary ≡ some content)
Holds content old changing_mode files = (files.target ≡ old) × (files.temporary ≡ some content)
Holds content old replacing files = (files.target ≡ old) × (files.temporary ≡ some content)
Holds content old syncing_directory files = (files.target ≡ some content) × (files.temporary ≡ none)
Holds content old finished files = (files.target ≡ some content) × (files.temporary ≡ none)
Holds content old failing files = (files.target ≡ old) ⊎ (files.target ≡ some content)
Holds content old failed files = (files.target ≡ old) ⊎ (files.target ≡ some content)

take_all : (content : Text) → take (length content) content ≡ content
take_all [] = refl
take_all (c ∷ cs) = ap (◌∷◌ c) (take_all cs)

Step-Holds :
    (content : Text) (old : Option Text) (w w' : Writer)
    → Step content w w'
    → Holds content old w.stage w.files
    → Holds content old w'.stage w'.files
Step-Holds content old _ _ (opens files e) h = (h, refl)
Step-Holds content old _ _ (open_fails files) h = inl h
Step-Holds content old _ _ (writes files n e) h = (h.0, refl)
Step-Holds content old _ _ (write_fails files n) h = inl h.0
Step-Holds content old _ _ (flushes files n e) h =
    (h.0, h.1 ∙ ap some (ap (λ k. take k content) e ∙ take_all content))
Step-Holds content old _ _ (syncs files) h = h
Step-Holds content old _ _ (sync_fails files) h = inl h.0
Step-Holds content old _ _ (changes_mode files) h = h
Step-Holds content old _ _ (mode_fails files) h = inl h.0
Step-Holds content old _ _ (replaces files) h = (h.1, refl)
Step-Holds content old _ _ (replace_fails files) h = inl h.0
Step-Holds content old _ _ (directory_syncs files) h = h
Step-Holds content old _ _ (directory_not_opened files) h = h
Step-Holds content old _ _ (directory_fails files) h = inr h.0
Step-Holds content old _ _ (unlinks files) h = h
Step-Holds content old _ _ (unlink_fails files) h = h

Run-Holds :
    (content : Text) (files : Files) (w : Writer)
    → Run content (at opening files) w
    → Holds content files.target w.stage w.files
Run-Holds content files _ begin = refl
Run-Holds content files w (then_step {w = u} r s) =
    Step-Holds content files.target u w s (Run-Holds content files u r)

Holds-target :
    (content : Text) (old : Option Text) (stage : Stage) (files : Files)
    → Holds content old stage files
    → (files.target ≡ old) ⊎ (files.target ≡ some content)
Holds-target content old opening files h = inl h
Holds-target content old (writing n) files h = inl h.0
Holds-target content old syncing files h = inl h.0
Holds-target content old changing_mode files h = inl h.0
Holds-target content old replacing files h = inl h.0
Holds-target content old syncing_directory files h = inr h.0
Holds-target content old finished files h = inr h.0
Holds-target content old failing files h = h
Holds-target content old failed files h = h

-- Wherever a rewrite is interrupted and whichever of its calls fail, the file holds its old
-- contents or the whole new ones, and a rewrite that ends without an error leaves the new contents
-- and no temporary file.
pub Run-atomic :
    (content : Text) (files : Files) (w : Writer)
    → Run content (at opening files) w
    → ((w.files.target ≡ files.target) ⊎ (w.files.target ≡ some content))
      × (w.stage ≡ finished → (w.files.target ≡ some content) × (w.files.temporary ≡ none))
Run-atomic content files w r = (
  Holds-target content files.target w.stage w.files (Run-Holds content files w r),
  λ e. subst (λ s. Holds content files.target s w.files) e (Run-Holds content files w r),
)
