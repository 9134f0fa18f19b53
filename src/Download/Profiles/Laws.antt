-- ===== src/Download/Profiles/Laws.antt =====
-- Resolution of profiles ends, with profiles that inherit as documented or with a documented error.
use yt_media_tools.Prelude.{
  ℕ, zero, suc, ◌<◌, Option, none, some, List, [], ◌∷◌, ◌++◌, Text, any, length, ◌≡◌, refl, sym, ap,
  ◌∙◌, arith, All, if◌then◌else◌, Bool-cases, Option-cases, inl, inr,
}
use yt_media_tools.Query.Like.{equal_text}
use yt_media_tools.Query.Like.Laws.{equal_text_iff}
use yt_media_tools.Download.Profiles.{
  Dict, find, Validation, Error, inheritance_cycle, invalid_profile, missing_profile, out_of_fuel,
  Result, ok, raised, Settings, Profile, RawProfile, finish, ◌>>=◌, resolve, resolve_all,
  own_parent, absent_parent, resolve_checked, load_profiles,
}
use yt_media_tools.Download.Profiles.Spec.{Chain, Known, IsKnown, Refused, IsCycle, Resolves}
use yt_media_tools.Download.Profiles.Finish.{finish-Resolves}
use yt_media_tools.Download.Profiles.Visits.{
  unvisited, unvisited-within, unvisited-lt, Chain-snoc, from_first-IsCycle,
}

module _ ⦃v : Validation⦄ where
  -- The child of a resolved parent.
  child-Resolves :
      (raw : Dict RawProfile) (defaults own : Settings) (name q : Text) (before : Dict Profile)
      (r : Result (Dict Profile × Profile))
      → find name raw ≡ some (some q, own)
      → Resolves raw defaults before q r
      → Resolves raw defaults before name
          (r >>= λ (x : Dict Profile × Profile). finish defaults name (some q) own (some x.1) x.0)
  child-Resolves raw defaults own name q before (ok (profiles, p)) h s =
      let f : find name raw ≡ some (some p.name, own) = rw s.1 h in
      rw (sym s.1) (finish-Resolves raw defaults own name (some p) before profiles s.0 s.2 f s.4)
  child-Resolves raw defaults own name q before (raised (inheritance_cycle path)) h s = s
  child-Resolves raw defaults own name q before (raised (invalid_profile other)) h s = s
  child-Resolves raw defaults own name q before (raised (missing_profile other)) h s = s
  child-Resolves raw defaults own name q before (raised out_of_fuel) h s = s

  resolve-Resolves :
      (fuel : ℕ) (raw : Dict RawProfile) (defaults : Settings) (visiting : List Text)
      (profiles : Dict Profile) (name : Text)
      → unvisited raw visiting < fuel
      → Chain raw (visiting ++ (name ∷ []))
      → Known raw defaults profiles
      → Resolves raw defaults profiles name (resolve fuel raw defaults visiting profiles name)
  unfolding resolve
  resolve-Resolves zero raw defaults visiting profiles name f c k = omega (arith, f)
  resolve-Resolves (suc fuel) raw defaults visiting profiles name f c k =
      elim (Option-cases (find name profiles)) [
        | inr (p, e) ↦ rw (e, resolve) (k, (k name p e).0, (k name p e).1, (p, e), λ other o. o)
        | inl e ↦ elim (Bool-cases (any (equal_text name) visiting)) [
          | inl s ↦ rw (e, resolve, s, if◌then◌else◌) (from_first-IsCycle raw visiting name s c)
          | inr s ↦ elim (Option-cases (find name raw)) [
            | inl r ↦ rw (e, resolve, s, if◌then◌else◌, r) r
            | inr ((none, own), r) ↦
                rw (e, resolve, s, if◌then◌else◌, r)
                  (finish-Resolves raw defaults own name none profiles profiles k tt r
                    (λ other o. o))
            | inr ((some q, own), r) ↦
                rw (e, resolve, s, if◌then◌else◌, r)
                  (child-Resolves raw defaults own name q profiles _ r (
                    resolve-Resolves fuel raw defaults (visiting ++ (name ∷ [])) profiles q
                      (omega (arith, unvisited-lt raw visiting name (some q, own) r s))
                      (Chain-snoc raw visiting name q c (own, r)) k))
          ]
        ]
      ]

  -- What a whole run gives: profiles that inherit as documented, one for each name, or an error.
  abbrev pub Loads : Dict RawProfile → Settings → List Text → Result (Dict Profile) → Type 0
  Loads raw defaults names (ok profiles) =
      Known raw defaults profiles × All (λ name. IsKnown name profiles) names
  Loads raw defaults names (raised (inheritance_cycle path)) = IsCycle raw path
  Loads raw defaults names (raised (invalid_profile name)) = Refused raw defaults name
  Loads raw defaults names (raised (missing_profile name)) = find name raw ≡ none
  Loads raw defaults names (raised out_of_fuel) = ⊥

  -- Names that are resolved stay so.
  abbrev Continues :
      Dict RawProfile → Settings → Dict Profile → List Text → Result (Dict Profile) → Type 0
  Continues raw defaults before names (ok profiles) =
      Loads raw defaults names (ok profiles)
      × ((other : Text) → IsKnown other before → IsKnown other profiles)
  Continues raw defaults before names (raised e) = Loads raw defaults names (raised e)

  Continues-cons :
      (raw : Dict RawProfile) (defaults : Settings) (before middle : Dict Profile) (name : Text)
      (names : List Text) (r : Result (Dict Profile))
      → IsKnown name middle
      → ((other : Text) → IsKnown other before → IsKnown other middle)
      → Continues raw defaults middle names r
      → Continues raw defaults before (name ∷ names) r
  Continues-cons raw defaults before middle name names (ok profiles) n g c =
      ((c.0.0, (c.1 name n, c.0.1)), λ other o. c.1 other (g other o))
  Continues-cons raw defaults before middle name names (raised (inheritance_cycle path)) n g c = c
  Continues-cons raw defaults before middle name names (raised (invalid_profile other)) n g c = c
  Continues-cons raw defaults before middle name names (raised (missing_profile other)) n g c = c
  Continues-cons raw defaults before middle name names (raised out_of_fuel) n g c = c

  -- The rest of the loop after one name.
  next-Continues :
      (fuel : ℕ) (raw : Dict RawProfile) (defaults : Settings) (name : Text) (names : List Text)
      (before : Dict Profile) (r : Result (Dict Profile × Profile))
      → ((profiles : Dict Profile)
          → Known raw defaults profiles
          → Continues raw defaults profiles names (resolve_all fuel raw defaults names profiles))
      → Resolves raw defaults before name r
      → Continues raw defaults before
          (name ∷ names)
          (r >>= λ (x : Dict Profile × Profile). resolve_all fuel raw defaults names x.0)
  next-Continues fuel raw defaults name names before (ok (profiles, p)) ih s =
      Continues-cons raw defaults before profiles name names _ s.3 s.4 (ih profiles s.0)
  next-Continues fuel raw defaults name names before (raised (inheritance_cycle path)) ih s = s
  next-Continues fuel raw defaults name names before (raised (invalid_profile other)) ih s = s
  next-Continues fuel raw defaults name names before (raised (missing_profile other)) ih s = s
  next-Continues fuel raw defaults name names before (raised out_of_fuel) ih s = s

  resolve_all-Continues :
      (fuel : ℕ) (raw : Dict RawProfile) (defaults : Settings) (names : List Text)
      (profiles : Dict Profile)
      → unvisited raw [] < fuel
      → Known raw defaults profiles
      → Continues raw defaults profiles names (resolve_all fuel raw defaults names profiles)
  unfolding resolve_all
  resolve_all-Continues fuel raw defaults [] profiles f k = ((k, tt), λ other o. o)
  resolve_all-Continues fuel raw defaults (name ∷ names) profiles f k =
      next-Continues fuel raw defaults name names profiles _
        (λ ps q. resolve_all-Continues fuel raw defaults names ps f q)
        (resolve-Resolves fuel raw defaults [] profiles name f tt k)

  Continues-Loads :
      (raw : Dict RawProfile) (defaults : Settings) (names : List Text) (before : Dict Profile)
      (r : Result (Dict Profile))
      → Continues raw defaults before names r
      → Loads raw defaults names r
  Continues-Loads raw defaults names before (ok profiles) c = c.0
  Continues-Loads raw defaults names before (raised e) c = c

  -- A dict has one entry for a key.
  abbrev pub IsDict : Dict RawProfile → Type 0
  IsDict raw = All (λ (e : Text × RawProfile). find e.0 raw ≡ some e.1) raw

  abbrev Explains : Dict RawProfile → Option Error → Type 0
  Explains raw none = Unit
  Explains raw (some (inheritance_cycle path)) = IsCycle raw path
  Explains raw (some (missing_profile name)) = find name raw ≡ none
  Explains raw (some e) = ⊥

  own_parent-Explains :
      (raw rest : Dict RawProfile)
      → All (λ (e : Text × RawProfile). find e.0 raw ≡ some e.1) rest
      → Explains raw (own_parent rest)
  unfolding own_parent
  own_parent-Explains raw [] d = tt
  own_parent-Explains raw ((name, (none, own)) ∷ rest) d = own_parent-Explains raw rest d.1
  own_parent-Explains raw ((name, (some parent, own)) ∷ rest) d =
      elim (Bool-cases (equal_text parent name)) [
        | inl e ↦
            rw (e, own_parent, if◌then◌else◌)
              (
                name,
                [],
                refl,
                ((own, d.0 ∙ ap (λ t. some (some t, own)) ((equal_text_iff parent name).0 e)), tt),
              )
        | inr e ↦ rw (e, own_parent, if◌then◌else◌) (own_parent-Explains raw rest d.1)
      ]

  absent_parent-Explains : (raw rest : Dict RawProfile) → Explains raw (absent_parent raw rest)
  unfolding absent_parent
  absent_parent-Explains raw [] = tt
  absent_parent-Explains raw ((name, (none, own)) ∷ rest) = absent_parent-Explains raw rest
  absent_parent-Explains raw ((name, (some parent, own)) ∷ rest) =
      elim (Option-cases (find parent raw)) [
        | inl e ↦ rw (e, absent_parent) e
        | inr (r, e) ↦ rw (e, absent_parent) (absent_parent-Explains raw rest)
      ]

  no_profile : (name : Text) → find {V = Profile} name [] ≡ none
  unfolding find
  no_profile name = refl

  checked-Loads :
      (own absent : Option Error) (raw : Dict RawProfile) (defaults : Settings) (names : List Text)
      → Explains raw own
      → Explains raw absent
      → Loads raw defaults names (resolve_checked own absent raw defaults names)
  unfolding resolve_checked
  checked-Loads (some (inheritance_cycle path)) absent raw defaults names o a = o
  checked-Loads (some (missing_profile name)) absent raw defaults names o a = o
  checked-Loads none (some (inheritance_cycle path)) raw defaults names o a = a
  checked-Loads none (some (missing_profile name)) raw defaults names o a = a
  checked-Loads (some (invalid_profile name)) absent raw defaults names o a = absurd o
  checked-Loads (some out_of_fuel) absent raw defaults names o a = absurd o
  checked-Loads none (some (invalid_profile name)) raw defaults names o a = absurd a
  checked-Loads none (some out_of_fuel) raw defaults names o a = absurd a
  checked-Loads none none raw defaults names o a = Continues-Loads raw defaults names [] _ (
      resolve_all-Continues (suc (length raw)) raw defaults names [] (unvisited-within raw)
        (λ name p e. cc (no_profile name, e)))

  -- Loading profiles ends: with a profile under each name that inherits as documented, its own
  -- settings before its parent's before the defaults, or with an error that names a cycle of
  -- parents, a name that is no profile, or a profile whose merged settings validation refuses.
  -- The raw profiles have one entry for each name.
  pub load_profiles-Loads :
      (raw : Dict RawProfile) (defaults : Settings) (names : List Text)
      → IsDict raw
      → Loads raw defaults names (load_profiles raw defaults names)
  unfolding load_profiles
  load_profiles-Loads raw defaults names d =
      checked-Loads (own_parent raw) (absent_parent raw raw) raw defaults names
        (own_parent-Explains raw raw d) (absent_parent-Explains raw raw)
