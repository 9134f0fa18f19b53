-- ===== src/Download/Profiles/Spec.antt =====
-- What a resolved profile, a cycle of parents and a refused profile are.
use yt_media_tools.Prelude.{Option, none, some, List, [], ◌∷◌, ◌++◌, Text, ◌≡◌}
use yt_media_tools.Download.Profiles.{
  Dict, find, Validation, inheritance_cycle, invalid_profile, missing_profile, out_of_fuel, Result,
  ok, raised, Settings, Profile, RawProfile,
}
use yt_media_tools.Download.Profiles.Dicts.{prefer}

module _ ⦃v : Validation⦄ where
  abbrev pub settings_of : Option Profile → Settings
  settings_of none = []
  settings_of (some q) = q.settings

  abbrev pub name_of : Option Profile → Option Text
  name_of none = none
  name_of (some q) = some q.name

  abbrev pub ancestry_below : Option Profile → List Text
  ancestry_below none = []
  ancestry_below (some q) = q.ancestry ++ (q.name ∷ [])

  -- The merged settings of a profile: its own before its parent's before the defaults.
  pub record Merges (raw : Dict RawProfile) (defaults : Settings) (name : Text)
      (inherited : Option Profile) (merged : Settings) : Type 0 where
    pub own : Settings
    pub declared : find name raw ≡ some (name_of inherited, own)
    pub precedence :
        (key : Text)
        → find key merged
          ≡ prefer (find key own) (prefer (find key (settings_of inherited)) (find key defaults))

  -- A profile as documented: validated merged settings, its parent, and its ancestors in order.
  pub data Inherits (raw : Dict RawProfile) (defaults : Settings) : Profile → Type 0 where
    root :
        {p : Profile} (merged : Settings)
        → Merges raw defaults p.name none merged
        → v.validate p.name merged ≡ some p.settings
        → p.parent ≡ none
        → p.ancestry ≡ []
        → Inherits raw defaults p
    child :
        {p : Profile} (q : Profile) (merged : Settings)
        → Inherits raw defaults q
        → Merges raw defaults p.name (some q) merged
        → v.validate p.name merged ≡ some p.settings
        → p.parent ≡ some q.name
        → p.ancestry ≡ q.ancestry ++ (q.name ∷ [])
        → Inherits raw defaults p

  abbrev pub Inherited : Dict RawProfile → Settings → Option Profile → Type 0
  Inherited raw defaults none = Unit
  Inherited raw defaults (some q) = Inherits raw defaults q

  -- validation refuses the merged settings of a profile
  abbrev pub Refused : Dict RawProfile → Settings → Text → Type 0
  Refused raw defaults name =
      (inherited : Option Profile) × (merged : Settings) × Inherited raw defaults inherited
      × Merges raw defaults name inherited merged
      × (v.validate name merged ≡ none)

  -- `parent` is the parent of the profile `name`
  abbrev pub IsParent : Dict RawProfile → Text → Text → Type 0
  IsParent raw name parent = (own : Settings) × (find name raw ≡ some (some parent, own))

  -- each name's parent is the next one
  abbrev pub Chain : Dict RawProfile → List Text → Type 0
  Chain raw [] = Unit
  Chain raw (a ∷ []) = Unit
  Chain raw (a ∷ (b ∷ rest)) = IsParent raw a b × Chain raw (b ∷ rest)

  -- a chain of at least two names that ends where it starts
  abbrev pub IsCycle : Dict RawProfile → List Text → Type 0
  IsCycle raw path =
      (name : Text) × (between : List Text) × (path ≡ name ∷ (between ++ (name ∷ [])))
      × Chain raw path

  -- what the dict `profiles` holds under a name
  abbrev pub Known : Dict RawProfile → Settings → Dict Profile → Type 0
  Known raw defaults profiles =
      (name : Text) (p : Profile)
      → find name profiles ≡ some p
      → (p.name ≡ name) × Inherits raw defaults p

  abbrev pub IsKnown : Text → Dict Profile → Type 0
  IsKnown name profiles = (p : Profile) × (find name profiles ≡ some p)

  -- What resolving one name gives.
  abbrev pub Resolves :
      Dict RawProfile → Settings → Dict Profile → Text → Result (Dict Profile × Profile) → Type 0
  Resolves raw defaults before name (ok (profiles, p)) =
      Known raw defaults profiles
      × (p.name ≡ name)
      × Inherits raw defaults p
      × IsKnown name profiles
      × ((other : Text) → IsKnown other before → IsKnown other profiles)
  Resolves raw defaults before name (raised (inheritance_cycle path)) = IsCycle raw path
  Resolves raw defaults before name (raised (invalid_profile other)) = Refused raw defaults other
  Resolves raw defaults before name (raised (missing_profile other)) = find other raw ≡ none
  Resolves raw defaults before name (raised out_of_fuel) = ⊥
