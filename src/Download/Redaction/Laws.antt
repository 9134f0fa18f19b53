-- ===== src/Download/Redaction/Laws.antt =====
-- Redaction keeps the shape of an extractor argument and hides every sensitive value.
use yt_media_tools.Prelude.{
  Bool, true, false, not, ◌||◌, Option, none, some, List, [], ◌∷◌, ◌++◌, Text, All, map, ◌≡◌, refl,
  sym, ap, ◌∙◌, arith, if◌then◌else◌, Bool-cases, inl, inr,
}
use mathlib.Core.Path.{subst}
use yt_media_tools.Query.Like.{equal_text}
use yt_media_tools.Download.Redaction.{
  Letters, split, join_with, partition, redacted_mark, is_sensitive, redact_parts, redact_clause,
  redact_arguments, redact_extractor_argument,
}
use yt_media_tools.Download.Redaction.Pieces.{
  lacks, split-lacks, split-join_with, partition-again, lacks-append, partition-lacks,
  split_nonempty,
}

module _ ⦃ls : Letters⦄ where
  -- a clause shows a value only under a name that is not sensitive
  unfoldable pub hides : Text × Option Text → Bool
  unfolding equal_text
  hides (name, none) = true
  hides (name, some value) = not (is_sensitive name) || equal_text value redacted_mark

  mark-equal : equal_text redacted_mark redacted_mark ≡ true
  unfolding equal_text
  mark-equal = refl

  redact_parts-none : (clause name : Text) → redact_parts clause (name, none) ≡ clause
  unfolding redact_parts
  redact_parts-none clause name = refl

  redact_parts-sensitive :
      (clause name value : Text)
      → is_sensitive name ≡ true
      → redact_parts clause (name, some value) ≡ name ++ (b'=' ∷ redacted_mark)
  unfolding redact_parts
  redact_parts-sensitive clause name value s = rw (s, if◌then◌else◌) refl

  redact_parts-plain :
      (clause name value : Text)
      → is_sensitive name ≡ false
      → redact_parts clause (name, some value) ≡ clause
  unfolding redact_parts
  redact_parts-plain clause name value s = rw (s, if◌then◌else◌) refl

  hides-mark : (name : Text) → hides (name, some redacted_mark) ≡ true
  unfolding hides
  hides-mark name = ground (arith, mark-equal)

  hides-plain : (name value : Text) → is_sensitive name ≡ false → hides (name, some value) ≡ true
  unfolding hides
  hides-plain name value s = ap (λ b. not b || equal_text value redacted_mark) s

  hides-no_value : (name : Text) → hides (name, none) ≡ true
  unfolding hides
  hides-no_value name = refl

  parts-hide :
      (clause : Text) (parts : Text × Option Text)
      → partition b'=' clause ≡ parts
      → hides (partition b'=' (redact_parts clause parts)) ≡ true
  parts-hide clause (name, none) e =
      subst (λ p. hides p ≡ true) (sym (ap (partition b'=') (redact_parts-none clause name) ∙ e))
        (hides-no_value name)
  parts-hide clause (name, some value) e = elim (Bool-cases (is_sensitive name)) [
    | inl s ↦
        let again =
          partition-again b'=' clause redacted_mark value
            (ap (λ (x : Text × Option Text). x.1) e) in
        let marked : partition b'=' (name ++ (b'=' ∷ redacted_mark)) ≡ (name, some redacted_mark) =
          rw e at again in
        subst (λ p. hides p ≡ true)
          (sym (ap (partition b'=') (redact_parts-sensitive clause name value s) ∙ marked))
          (hides-mark name)
    | inr s ↦
        subst (λ p. hides p ≡ true)
          (sym (ap (partition b'=') (redact_parts-plain clause name value s) ∙ e))
          (hides-plain name value s)
  ]

  clause-hides : (clause : Text) → hides (partition b'=' (redact_clause clause)) ≡ true
  unfolding redact_clause
  clause-hides clause = parts-hide clause (partition b'=' clause) refl

  parts-lack :
      (clause : Text) (parts : Text × Option Text)
      → lacks b';' clause ≡ true
      → lacks b';' parts.0 ≡ true
      → lacks b';' (redact_parts clause parts) ≡ true
  unfolding redact_parts
  parts-lack clause (name, none) h k = h
  parts-lack clause (name, some value) h k = elim (Bool-cases (is_sensitive name)) [
    | inl s ↦ rw (s, if◌then◌else◌) (lacks-append b';' name (b'=' ∷ redacted_mark) k refl)
    | inr s ↦ rw (s, if◌then◌else◌) h
  ]

  redact_clause-lacks :
      (clause : Text) → lacks b';' clause ≡ true → lacks b';' (redact_clause clause) ≡ true
  unfolding redact_clause
  redact_clause-lacks clause h =
      parts-lack clause (partition b'=' clause) h (partition-lacks b'=' b';' clause h)

  clauses-lack :
      (clauses : List Text)
      → All (λ c. lacks b';' c ≡ true) clauses
      → All (λ c. lacks b';' c ≡ true) (map redact_clause clauses)
  clauses-lack [] h = tt
  clauses-lack (c ∷ cs) h = (redact_clause-lacks c h.0, clauses-lack cs h.1)

  clauses-hide :
      (clauses : List Text) → All (λ c. hides (partition b'=' c) ≡ true) (map redact_clause clauses)
  clauses-hide [] = tt
  clauses-hide (c ∷ cs) = (clause-hides c, clauses-hide cs)

  split-redacted :
      (t : Text)
      → split b';' (join_with b';' (map redact_clause (split b';' t)))
        ≡ map redact_clause (split b';' t)
  split-redacted t =
      let (p, ps, e) = split_nonempty t in
      rw e (
        split-join_with b';' (redact_clause p) (map redact_clause ps)
          (clauses-lack (p ∷ ps) (subst (All (λ c. lacks b';' c ≡ true)) e (split-lacks b';' t))))

-- the clauses behind the extractor's name
abbrev pub clauses_of : Text × Option Text → List Text
clauses_of (extractor, none) = []
clauses_of (extractor, some argument_text) = split b';' argument_text

module _ ⦃ls : Letters⦄ where
  redacted-parts :
      (value : Text) (parts : Text × Option Text)
      → partition b':' value ≡ parts
      → ((partition b':' (redact_arguments value parts)).0 ≡ parts.0)
        × (clauses_of (partition b':' (redact_arguments value parts))
            ≡ map redact_clause (clauses_of parts))
  unfolding redact_arguments
  redacted-parts value (extractor, none) e = rw e (refl, refl)
  redacted-parts value (extractor, some text) e =
      let u = join_with b';' (map redact_clause (split b';' text)) in
      let again = partition-again b':' value u text (ap (λ (x : Text × Option Text). x.1) e) in
      let f : partition b':' (extractor ++ (b':' ∷ u)) ≡ (extractor, some u) = rw e at again in
      rw f (refl, split-redacted text)

  -- A redacted extractor argument has the extractor and the clauses of the original, each clause
  -- redacted by itself, and no clause of it shows a value under a sensitive name.
  pub redact_extractor_argument-hides :
      (value : Text)
      → ((partition b':' (redact_extractor_argument value)).0 ≡ (partition b':' value).0)
        × (clauses_of (partition b':' (redact_extractor_argument value))
            ≡ map redact_clause (clauses_of (partition b':' value)))
        × All
            (λ c. hides (partition b'=' c) ≡ true)
            (clauses_of (partition b':' (redact_extractor_argument value)))
  unfolding redact_extractor_argument
  redact_extractor_argument-hides value =
      let parts = redacted-parts value (partition b':' value) refl in
      (
        parts.0,
        parts.1,
        subst (All (λ c. hides (partition b'=' c) ≡ true)) (sym parts.1)
            (clauses-hide (clauses_of (partition b':' value))),
      )
