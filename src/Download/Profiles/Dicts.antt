-- ===== src/Download/Profiles/Dicts.antt =====
-- Lookups in a dict after an assignment and an update.
use yt_media_tools.Prelude.{Option, none, some, [], ◌∷◌, Text, ◌≡◌, refl, ◌∙◌, arith, if◌then◌else◌}
use yt_media_tools.Query.Like.{equal_text}
use yt_media_tools.Query.Like.Laws.{equal_text_iff}
use yt_media_tools.Download.Profiles.{Dict, find, assign, update}

-- the first value, or else the second
abbrev pub prefer {ℓ} : {A : Type ℓ} → Option A → Option A → Option A
prefer (some a) b = some a
prefer none b = b

pub find-assign :
    {V : Type 0} (k key : Text) (value : V) (d : Dict V)
    → find k (assign key value d) ≡ (if equal_text key k then some value else find k d)
unfolding find assign
find-assign k key value [] = refl
find-assign k key value ((j, w) ∷ rest) = ground (
  arith,
  find-assign k key value rest,
  equal_text_iff j key,
  equal_text_iff j k,
  equal_text_iff key k,
)

pub find-update :
    {V : Type 0} (k : Text) (d other : Dict V)
    → find k (update d other) ≡ prefer (find k other) (find k d)
unfolding find update
find-update k d [] = refl
find-update k d ((j, w) ∷ other) =
    ground (arith, find-assign k j w (update d other), find-update k d other)

pub find-assign-same :
    {V : Type 0} (key : Text) (value : V) (d : Dict V) → find key (assign key value d) ≡ some value
find-assign-same key value d =
    find-assign key key value d ∙ rw ((equal_text_iff key key).1 refl, if◌then◌else◌) refl
