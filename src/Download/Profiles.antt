-- ===== src/Download/Profiles.antt =====
-- yt-download.py, `load_profiles`: the inheritance of profiles, from the raw profiles whose value
-- references are resolved. The recursion of `resolve` runs on fuel, with the stack `visiting` and
-- the dict `profiles` passed along. Where a setting comes from is left out.
mod Dicts
pub mod Spec
mod Finish
mod Visits
pub mod Laws
use yt_media_tools.Prelude.{
  ℕ, zero, suc, Bool, true, false, Option, none, some, List, [], ◌∷◌, ◌++◌, Text, any, length,
  if◌then◌else◌,
}
use yt_media_tools.Query.Like.{equal_text}

-- A dict, of which nothing here reads the order of the keys; an entry's first value counts.
abbrev pub Dict : Type 0 → Type 0
Dict V = List (Text × V)

unfoldable pub find : {V : Type 0} → Text → Dict V → Option V
unfolding equal_text
find key [] = none
find key ((k, v) ∷ rest) = if equal_text k key then some v else find key rest

-- `d[key] = value`
unfoldable pub assign : {V : Type 0} → Text → V → Dict V → Dict V
unfolding equal_text
assign key value [] = (key, value) ∷ []
assign key value ((k, v) ∷ rest) =
    if equal_text k key then (k, value) ∷ rest else (k, v) ∷ assign key value rest

-- `d.update(other)`
unfoldable pub update : {V : Type 0} → Dict V → Dict V → Dict V
unfolding assign
update d [] = d
update d ((k, v) ∷ other) = assign k v (update d other)

-- The JSON values of settings are of any type. `validate_profile_settings` gives the validated
-- settings of a profile or raises.
pub record Validation : Type 1 where
  pub Setting : Type 0
  pub validate : Text → Dict Setting → Option (Dict Setting)

pub data Error : Type 0 where
  inheritance_cycle : List Text → Error
  invalid_profile missing_profile : Text → Error
  out_of_fuel : Error

pub data Result {ℓ} (A : Type ℓ) : Type ℓ where
  ok : A → Result A
  raised : Error → Result A

infixl 5 ◌>>=◌
abbrev pub ◌>>=◌ {ℓ κ} : {A : Type ℓ} {B : Type κ} → Result A → (A → Result B) → Result B
ok a >>= f = f a
raised e >>= f = raised e

-- `visiting[visiting.index(name):]`
unfoldable pub from_first : Text → List Text → List Text
unfolding equal_text
from_first name [] = []
from_first name (v ∷ visiting) =
    if equal_text v name then v ∷ visiting else from_first name visiting

module _ ⦃v : Validation⦄ where
  abbrev pub Settings : Type 0
  Settings = Dict v.Setting

  pub record Profile : Type 0 where
    pub name : Text
    pub settings : Settings
    pub parent : Option Text
    pub ancestry : List Text

  -- a raw profile: its parent and its own settings
  abbrev pub RawProfile : Type 0
  RawProfile = Option Text × Settings

  -- the rest of `resolve` once the parent is resolved
  unfoldable pub finish :
      Settings
      → Text
      → Option Text
      → Settings
      → Option Profile
      → Dict Profile
      → Result (Dict Profile × Profile)
  unfolding assign update
  finish defaults name parent own inherited profiles =
      let base : Settings = elim inherited [
        | some p ↦ update defaults p.settings
        | none ↦ defaults
      ] in
      let ancestry : List Text = elim inherited [
        | some p ↦ p.ancestry ++ (elim parent [ some q ↦ q ∷ [] | none ↦ [] ])
        | none ↦ []
      ] in
      elim (v.validate name (update base own)) [
        | none ↦ raised (invalid_profile name)
        | some validated ↦
            let profile : Profile = record {
              name = name;
              settings = validated;
              parent = parent;
              ancestry = ancestry;
            } in
            ok (assign name profile profiles, profile)
      ]

  -- `resolve`
  unfoldable pub resolve :
      ℕ
      → Dict RawProfile
      → Settings
      → List Text
      → Dict Profile
      → Text
      → Result (Dict Profile × Profile)
  unfolding finish find from_first
  resolve zero raw defaults visiting profiles name = raised out_of_fuel
  resolve (suc fuel) raw defaults visiting profiles name = elim (find name profiles) [
    | some profile ↦ ok (profiles, profile)
    | none ↦
        if any (equal_text name) visiting
        then raised (inheritance_cycle (from_first name visiting ++ (name ∷ [])))
        else elim (find name raw) [
          | none ↦ raised (missing_profile name)
          | some (parent, own) ↦ elim parent [
            | none ↦ finish defaults name none own none profiles
            | some q ↦
                resolve fuel raw defaults (visiting ++ (name ∷ [])) profiles q
                >>= λ (r : Dict Profile × Profile). finish defaults name (some q) own (some r.1) r.0
          ]
        ]
  ]

  -- the loop over the profiles' names
  unfoldable pub resolve_all :
      ℕ → Dict RawProfile → Settings → List Text → Dict Profile → Result (Dict Profile)
  unfolding resolve
  resolve_all fuel raw defaults [] profiles = ok profiles
  resolve_all fuel raw defaults (name ∷ names) profiles =
      resolve fuel raw defaults [] profiles name >>= λ (r : Dict Profile × Profile).
      resolve_all fuel raw defaults names r.0

  -- a profile that names itself as its parent
  unfoldable pub own_parent : Dict RawProfile → Option Error
  unfolding equal_text
  own_parent [] = none
  own_parent ((name, (none, own)) ∷ rest) = own_parent rest
  own_parent ((name, (some parent, own)) ∷ rest) =
      if equal_text parent name
      then some (inheritance_cycle (name ∷ (name ∷ [])))
      else own_parent rest

  -- a parent that is no profile
  unfoldable pub absent_parent : Dict RawProfile → Dict RawProfile → Option Error
  unfolding find
  absent_parent raw [] = none
  absent_parent raw ((name, (none, own)) ∷ rest) = absent_parent raw rest
  absent_parent raw ((name, (some parent, own)) ∷ rest) = elim (find parent raw) [
    | none ↦ some (missing_profile parent)
    | some r ↦ absent_parent raw rest
  ]

  unfoldable pub resolve_checked :
      Option Error → Option Error → Dict RawProfile → Settings → List Text → Result (Dict Profile)
  unfolding resolve_all
  resolve_checked (some error) absent raw defaults names = raised error
  resolve_checked none (some error) raw defaults names = raised error
  resolve_checked none none raw defaults names =
      resolve_all (suc (length raw)) raw defaults names []

  -- `load_profiles` from the raw profiles, resolved in the order of `names`
  unfoldable pub load_profiles : Dict RawProfile → Settings → List Text → Result (Dict Profile)
  unfolding own_parent absent_parent resolve_checked
  load_profiles raw defaults names =
      resolve_checked (own_parent raw) (absent_parent raw raw) raw defaults names
