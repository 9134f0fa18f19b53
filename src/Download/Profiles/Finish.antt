-- ===== src/Download/Profiles/Finish.antt =====
-- The last step of `resolve`: merging, validating and storing one profile.
use yt_media_tools.Prelude.{
  Option, none, some, Text, ◌≡◌, refl, sym, ap, ◌∙◌, if◌then◌else◌, Bool-cases, Option-cases, inl,
  inr,
}
use mathlib.Core.Path.{subst}
use yt_media_tools.Query.Like.{equal_text}
use yt_media_tools.Query.Like.Laws.{equal_text_iff}
use yt_media_tools.Download.Profiles.{
  Dict, find, assign, update, Validation, invalid_profile, ok, raised, Settings, Profile,
  RawProfile, finish,
}
use yt_media_tools.Download.Profiles.Dicts.{prefer, find-assign, find-assign-same, find-update}
use yt_media_tools.Download.Profiles.Spec.{
  settings_of, name_of, ancestry_below, Merges, Inherits, root, child, Inherited, Known, IsKnown,
  Resolves,
}

module _ ⦃v : Validation⦄ where
  assign-IsKnown :
      (name other : Text) (p : Profile) (profiles : Dict Profile)
      → IsKnown other profiles
      → IsKnown other (assign name p profiles)
  assign-IsKnown name other p profiles (q, e) = elim (Bool-cases (equal_text name other)) [
    | inl h ↦ (p, find-assign other name p profiles ∙ rw (h, if◌then◌else◌) refl)
    | inr h ↦ (q, find-assign other name p profiles ∙ rw (h, if◌then◌else◌) e)
  ]

  assign-Known :
      (raw : Dict RawProfile) (defaults : Settings) (p : Profile) (profiles : Dict Profile)
      → Known raw defaults profiles
      → Inherits raw defaults p
      → Known raw defaults (assign p.name p profiles)
  assign-Known raw defaults p profiles k i other q e = elim (Bool-cases (equal_text p.name other)) [
    | inl h ↦
        let f : some p ≡ some q =
          sym (find-assign other p.name p profiles ∙ rw (h, if◌then◌else◌) refl) ∙ e in
        let g : p ≡ q = cc f in
        (cc (g, (equal_text_iff p.name other).0 h), subst (Inherits raw defaults) g i)
    | inr h ↦ k other q (sym (find-assign other p.name p profiles ∙ rw (h, if◌then◌else◌) refl) ∙ e)
  ]

  abbrev base_of : Settings → Option Profile → Settings
  base_of defaults none = defaults
  base_of defaults (some p) = update defaults p.settings

  base_of-find :
      (defaults : Settings) (inherited : Option Profile) (key : Text)
      → find key (base_of defaults inherited)
        ≡ prefer (find key (settings_of inherited)) (find key defaults)
  unfolding find
  base_of-find defaults none key = refl
  base_of-find defaults (some p) key = find-update key defaults p.settings

  base_of-Merges :
      (raw : Dict RawProfile) (defaults own : Settings) (name : Text) (inherited : Option Profile)
      → find name raw ≡ some (name_of inherited, own)
      → Merges raw defaults name inherited (update (base_of defaults inherited) own)
  base_of-Merges raw defaults own name inherited h = record {
    own = own;
    declared = h;
    precedence = λ key.
        find-update key (base_of defaults inherited) own
        ∙ ap (prefer (find key own)) (base_of-find defaults inherited key);
  }

  abbrev profile_of : Text → Option Profile → Settings → Profile
  profile_of name inherited validated = record {
    name = name;
    settings = validated;
    parent = name_of inherited;
    ancestry = ancestry_below inherited;
  }

  profile_of-Inherits :
      (raw : Dict RawProfile) (defaults merged validated : Settings) (name : Text)
      (inherited : Option Profile)
      → Inherited raw defaults inherited
      → Merges raw defaults name inherited merged
      → v.validate name merged ≡ some validated
      → Inherits raw defaults (profile_of name inherited validated)
  profile_of-Inherits raw defaults merged validated name none i m h = root merged m h refl refl
  profile_of-Inherits raw defaults merged validated name (some q) i m h =
      child q merged i m h refl refl

  finish-validated :
      (defaults own validated : Settings) (name : Text) (inherited : Option Profile)
      (profiles : Dict Profile)
      → v.validate name (update (base_of defaults inherited) own) ≡ some validated
      → finish defaults name (name_of inherited) own inherited profiles
        ≡ ok (
          assign name (profile_of name inherited validated) profiles,
          profile_of name inherited validated,
        )
  unfolding finish assign
  finish-validated defaults own validated name none profiles h = rw (h, finish) refl
  finish-validated defaults own validated name (some q) profiles h = rw (h, finish) refl

  finish-refused :
      (defaults own : Settings) (name : Text) (inherited : Option Profile) (profiles : Dict Profile)
      → v.validate name (update (base_of defaults inherited) own) ≡ none
      → finish defaults name (name_of inherited) own inherited profiles
        ≡ raised (invalid_profile name)
  unfolding finish
  finish-refused defaults own name none profiles h = rw (h, finish) refl
  finish-refused defaults own name (some q) profiles h = rw (h, finish) refl

  pub finish-Resolves :
      (raw : Dict RawProfile) (defaults own : Settings) (name : Text) (inherited : Option Profile)
      (before profiles : Dict Profile)
      → Known raw defaults profiles
      → Inherited raw defaults inherited
      → find name raw ≡ some (name_of inherited, own)
      → ((other : Text) → IsKnown other before → IsKnown other profiles)
      → Resolves raw defaults before name
          (finish defaults name (name_of inherited) own inherited profiles)
  finish-Resolves raw defaults own name inherited before profiles k i h g =
      let m = base_of-Merges raw defaults own name inherited h in
      elim (Option-cases (v.validate name (update (base_of defaults inherited) own))) [
        | inl e ↦
            rw (finish-refused defaults own name inherited profiles e)
              (inherited, update (base_of defaults inherited) own, i, m, e)
        | inr (validated, e) ↦
            let p : Profile = profile_of name inherited validated in
            let w : Inherits raw defaults p =
              profile_of-Inherits raw defaults _ validated name inherited i m e in
            rw (finish-validated defaults own validated name inherited profiles e) (
              assign-Known raw defaults p profiles k w,
              refl,
              w,
              (p, find-assign-same name p profiles),
              λ other o. assign-IsKnown name other p profiles (g other o),
            )
      ]
