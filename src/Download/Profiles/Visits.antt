-- ===== src/Download/Profiles/Visits.antt =====
-- The stack `visiting`: what it leaves unvisited, and the cycles that it shows.
use yt_media_tools.Prelude.{
  ℕ, suc, ◌<◌, ◌≤◌, true, false, not, ◌||◌, some, List, [], ◌∷◌, ◌++◌, Text, any, length, keep, ◌≡◌,
  ap, arith, if◌then◌else◌, Bool-cases, inl, inr,
}
use yt_media_tools.Query.Like.{equal_text}
use yt_media_tools.Query.Like.Laws.{equal_text_iff}
use yt_media_tools.Download.Profiles.{Dict, find, Validation, from_first, RawProfile}
use yt_media_tools.Download.Profiles.Spec.{Chain, IsParent, IsCycle}

module _ ⦃v : Validation⦄ where
  -- the profiles whose resolution has not begun
  unfoldable pub unvisited : Dict RawProfile → List Text → ℕ
  unvisited raw visiting =
      length (keep (λ (e : Text × RawProfile). not (any (equal_text e.0) visiting)) raw)

  any-visit :
      (k name : Text) (visiting : List Text)
      → any (equal_text k) (visiting ++ (name ∷ []))
        ≡ (any (equal_text k) visiting || equal_text k name)
  any-visit k name [] = ground arith
  any-visit k name (x ∷ visiting) = ground (arith, any-visit k name visiting)

  -- One more visited name leaves fewer names that are not.
  unvisited-visit :
      (raw : Dict RawProfile) (visiting : List Text) (name : Text)
      → unvisited raw (visiting ++ (name ∷ [])) ≤ unvisited raw visiting
  unfolding unvisited
  unvisited-visit [] visiting name = omega arith
  unvisited-visit (e ∷ raw) visiting name =
      ground (arith, unvisited-visit raw visiting name, any-visit e.0 name visiting)

  pub unvisited-lt :
      (raw : Dict RawProfile) (visiting : List Text) (name : Text) (r : RawProfile)
      → find name raw ≡ some r
      → any (equal_text name) visiting ≡ false
      → unvisited raw (visiting ++ (name ∷ [])) < unvisited raw visiting
  unfolding unvisited find
  unvisited-lt [] visiting name r h n = cc h
  unvisited-lt (e ∷ raw) visiting name r h n = elim (Bool-cases (equal_text e.0 name)) [
    | inl m ↦ ground (
      arith,
      unvisited-visit raw visiting name,
      any-visit e.0 name visiting,
      m,
      n,
      (equal_text_iff e.0 name).0 m,
    )
    | inr m ↦ ground (
      arith,
      unvisited-lt raw visiting name r (rw (m, find, if◌then◌else◌) at h) n,
      any-visit e.0 name visiting,
      m,
    )
  ]

  pub Chain-snoc :
      (raw : Dict RawProfile) (names : List Text) (a b : Text)
      → Chain raw (names ++ (a ∷ []))
      → IsParent raw a b
      → Chain raw ((names ++ (a ∷ [])) ++ (b ∷ []))
  Chain-snoc raw [] a b c h = (h, tt)
  Chain-snoc raw (x ∷ []) a b c h = (c.0, (h, tt))
  Chain-snoc raw (x ∷ (y ∷ names)) a b c h = (c.0, Chain-snoc raw (y ∷ names) a b c.1 h)

  Chain-tail :
      (raw : Dict RawProfile) (x : Text) (names : List Text) (a : Text)
      → Chain raw (x ∷ (names ++ (a ∷ [])))
      → Chain raw (names ++ (a ∷ []))
  Chain-tail raw x [] a c = tt
  Chain-tail raw x (y ∷ names) a c = c.1

  pub from_first-IsCycle :
      (raw : Dict RawProfile) (visiting : List Text) (name : Text)
      → any (equal_text name) visiting ≡ true
      → Chain raw (visiting ++ (name ∷ []))
      → IsCycle raw (from_first name visiting ++ (name ∷ []))
  unfolding from_first
  from_first-IsCycle raw [] name h c = cc h
  from_first-IsCycle raw (x ∷ visiting) name h c = elim (Bool-cases (equal_text x name)) [
    | inl e ↦
        rw (e, from_first, if◌then◌else◌)
          (
            name,
            visiting,
            ap (λ (t : Text). t ∷ (visiting ++ (name ∷ []))) ((equal_text_iff x name).0 e),
            c,
          )
    | inr e ↦
        rw (e, from_first, if◌then◌else◌)
          (from_first-IsCycle raw visiting name
            (ground (arith, h, e, equal_text_iff x name, equal_text_iff name x))
            (Chain-tail raw x visiting name c))
  ]

  pub unvisited-within : (raw : Dict RawProfile) → unvisited raw [] < suc (length raw)
  unfolding unvisited
  unvisited-within [] = omega arith
  unvisited-within (e ∷ raw) = ground (arith, unvisited-within raw)
