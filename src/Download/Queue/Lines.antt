-- ===== src/Download/Queue/Lines.antt =====
-- Lines keep every byte, and joining some of a file's lines makes no other line.
use yt_media_tools.Prelude.{
  ℕ, Bool, true, false, not, ◌&&◌, ◌||◌, List, [], ◌∷◌, ◌++◌, Text, all, keep, ◌≡◌, ◌≢◌, refl, sym,
  arith, ◌==◌, if◌then◌else◌, Bool-cases, inl, inr, ◌⊎◌,
}
use mathlib.Core.Path.{subst}
use yt_media_tools.Download.Queue.{glue, starts_with, splitlines, join}

join-glue : (c : ℕ) (lines : List Text) → join (glue c lines) ≡ c ∷ join lines
unfolding join
join-glue c [] = refl
join-glue c (line ∷ lines) = refl

pub join-splitlines : (s : Text) → join (splitlines s) ≡ s
unfolding join splitlines
join-splitlines [] = refl
join-splitlines (c ∷ cs) = ground (arith, join-splitlines cs, join-glue c (splitlines cs))

abbrev is_nil : Text → Bool
is_nil [] = true
is_nil (x ∷ xs) = false

-- a line with its end, and a last line without one
closed : Text → Bool
closed [] = false
closed (c ∷ []) = (c == 10) || (c == 13)
closed (c ∷ (d ∷ cs)) =
    let rest = closed (d ∷ cs) in
    if c == 10 then false else if c == 13 then starts_with 10 (d ∷ []) && is_nil cs else rest

plain : Text → Bool
plain [] = true
plain (c ∷ cs) = not (c == 10) && (not (c == 13) && plain cs)

-- lines of which only the last may be without an end
unfoldable pub are_lines : List Text → Bool
unfolding closed plain
are_lines [] = true
are_lines (line ∷ []) = closed line || plain line
are_lines (line ∷ (next ∷ lines)) = closed line && are_lines (next ∷ lines)

cons-lines :
    (line : Text) (lines : List Text)
    → closed line ≡ true
    → are_lines lines ≡ true
    → are_lines (line ∷ lines) ≡ true
unfolding are_lines
cons-lines line [] c h = ground (arith, c)
cons-lines line (next ∷ lines) c h = ground (arith, c, h)

glue-lines :
    (c : ℕ) (lines : List Text)
    → (c == 10) ≡ false
    → (c == 13) ≡ false
    → are_lines lines ≡ true
    → are_lines (glue c lines) ≡ true
unfolding are_lines
glue-lines c [] n r h = ground (arith, n, r)
glue-lines c ([] ∷ []) n r h = ground (arith, n, r)
glue-lines c ([] ∷ (next ∷ lines)) n r h = cc h
glue-lines c ((d ∷ ds) ∷ []) n r h = ground (arith, n, r, h)
glue-lines c ((d ∷ ds) ∷ (next ∷ lines)) n r h = ground (arith, n, r, h)

one_byte : (c : ℕ) → splitlines (c ∷ []) ≡ (c ∷ []) ∷ []
unfolding splitlines
one_byte c = ground arith

byte-lines : (c : ℕ) → are_lines ((c ∷ []) ∷ []) ≡ true
unfolding are_lines
byte-lines c = ground arith

no_lines : are_lines [] ≡ true
unfolding are_lines
no_lines = refl

closed_byte : (c : ℕ) → ((c == 10) || (c == 13)) ≡ true → closed (c ∷ []) ≡ true
unfolding closed
closed_byte c h = h

closed_pair : (c d : ℕ) → (c == 13) ≡ true → (d == 10) ≡ true → closed (c ∷ (d ∷ [])) ≡ true
unfolding closed
closed_pair c d h k = ground (arith, h, k)

split-newline :
    (c : ℕ) (cs : Text) → (c == 10) ≡ true → splitlines (c ∷ cs) ≡ (c ∷ []) ∷ splitlines cs
unfolding splitlines
split-newline c cs h = ground (arith, h)

split-return :
    (c d : ℕ) (cs : Text)
    → (c == 13) ≡ true
    → (d == 10) ≡ false
    → splitlines (c ∷ (d ∷ cs)) ≡ (c ∷ []) ∷ splitlines (d ∷ cs)
unfolding splitlines
split-return c d cs h k = ground (arith, h, k)

split-return_newline :
    (c d : ℕ) (cs : Text)
    → (c == 13) ≡ true
    → (d == 10) ≡ true
    → splitlines (c ∷ (d ∷ cs)) ≡ (c ∷ (d ∷ [])) ∷ splitlines cs
unfolding splitlines
split-return_newline c d cs h k = ground (arith, h, k)

split-other :
    (c : ℕ) (cs : Text)
    → (c == 10) ≡ false
    → (c == 13) ≡ false
    → splitlines (c ∷ cs) ≡ glue c (splitlines cs)
unfolding splitlines
split-other c cs h k = ground (arith, h, k)

pub splitlines-lines : (s : Text) → are_lines (splitlines s) ≡ true
unfolding splitlines
splitlines-lines [] = no_lines
splitlines-lines (c ∷ []) = subst (λ ls. are_lines ls ≡ true) (sym (one_byte c)) (byte-lines c)
splitlines-lines (c ∷ (d ∷ cs)) =
    let ih = splitlines-lines (d ∷ cs) in
    elim (Bool-cases (c == 10)) [
      | inl e ↦
          subst (λ ls. are_lines ls ≡ true) (sym (split-newline c (d ∷ cs) e))
            (cons-lines (c ∷ []) (splitlines (d ∷ cs)) (closed_byte c (ground (arith, e))) ih)
      | inr e ↦ elim (Bool-cases (c == 13)) [
        | inl r ↦ elim (Bool-cases (d == 10)) [
          | inl g ↦
              subst (λ ls. are_lines ls ≡ true) (sym (split-return_newline c d cs r g))
                (cons-lines (c ∷ (d ∷ [])) (splitlines cs) (closed_pair c d r g)
                  (splitlines-lines cs))
          | inr g ↦
              subst (λ ls. are_lines ls ≡ true) (sym (split-return c d cs r g))
                (cons-lines (c ∷ []) (splitlines (d ∷ cs)) (closed_byte c (ground (arith, r))) ih)
        ]
        | inr r ↦
            subst (λ ls. are_lines ls ≡ true) (sym (split-other c (d ∷ cs) e r))
              (glue-lines c (splitlines (d ∷ cs)) e r ih)
      ]
    ]

pub keep-lines :
    (p : Text → Bool) (lines : List Text) → are_lines lines ≡ true → are_lines (keep p lines) ≡ true
unfolding are_lines
keep-lines p [] h = refl
keep-lines p (line ∷ []) h = ground (arith, h)
keep-lines p (line ∷ (next ∷ lines)) h =
    ground (arith, h, keep-lines p (next ∷ lines), cons-lines line (keep p (next ∷ lines)))

abbrev Splits : Text → Text → Type 0
Splits line t =
    (splitlines (line ++ t) ≡ line ∷ splitlines t)
    ⊎ ((rest : List Text) × (splitlines t ≡ (10 ∷ []) ∷ rest)
        × (splitlines (line ++ t) ≡ (line ++ (10 ∷ [])) ∷ rest))

returned :
    (c d : ℕ) (cs t : Text)
    → (c == 13) ≡ true
    → (d == 10) ≡ true
    → is_nil cs ≡ true
    → splitlines (c ∷ (d ∷ (cs ++ t))) ≡ (c ∷ (d ∷ cs)) ∷ splitlines t
unfolding splitlines
returned c d [] t e g n = ground (arith, e, g)
returned c d (x ∷ xs) t e g n = cc n

-- A complete line is split off, or takes a following \n with it.
closed-Splits : (line t : Text) → closed line ≡ true → Splits line t
unfolding closed splitlines
closed-Splits [] t h = cc h
closed-Splits (c ∷ []) [] h = inl (ground (arith, h))
closed-Splits (c ∷ []) (d ∷ t) h = elim (Bool-cases (c == 10)) [
  | inl e ↦ inl (rw (e, if◌then◌else◌) refl)
  | inr e ↦ elim (Bool-cases (d == 10)) [
    | inl g ↦ inr (splitlines t, ground (arith, g), ground (arith, h, e, g))
    | inr g ↦ inl ground (arith, h, e, g)
  ]
]
closed-Splits (c ∷ (d ∷ cs)) t h = elim (Bool-cases (c == 13)) [
  | inl e ↦ inl (returned c d cs t e (ground (arith, h, e)) (ground (arith, h, e)))
  | inr e ↦ elim (closed-Splits (d ∷ cs) t (ground (arith, h, e))) [
    | inl g ↦ inl (ground (arith, h, e, g))
    | inr (rest, g, k) ↦ inr (rest, g, ground (arith, h, e, k))
  ]
]

plain-splitlines :
    (c : ℕ) (cs : Text) → plain (c ∷ cs) ≡ true → splitlines (c ∷ (cs ++ [])) ≡ (c ∷ cs) ∷ []
unfolding plain splitlines
plain-splitlines c [] h = ground (arith, h)
plain-splitlines c (d ∷ cs) h = ground (arith, h, plain-splitlines d cs)

no_rest : (rest : List Text) → splitlines [] ≢ (10 ∷ []) ∷ rest
unfolding splitlines
no_rest rest h = cc h

abbrev pub Keeps : (Text → Bool) → List Text → Type 0
Keeps p lines = all p lines ≡ true

no_text : (p : Text → Bool) → Keeps p (splitlines [])
unfolding splitlines
no_text p = refl

last_lines :
    (p : Text → Bool) (line : Text)
    → plain line ≡ true
    → p line ≡ true
    → Keeps p (splitlines (line ++ []))
last_lines p [] h k = no_text p
last_lines p (c ∷ cs) h k = rw (plain-splitlines c cs h) (ground (arith, k))

-- Where a test does not see a final \n, the lines of joined lines pass it if those lines do.
pub splitlines-join-Keeps :
    (p : Text → Bool) (lines : List Text)
    → ((line : Text) → p (line ++ (10 ∷ [])) ≡ p line)
    → are_lines lines ≡ true
    → Keeps p lines
    → Keeps p (splitlines (join lines))
unfolding join are_lines
splitlines-join-Keeps p [] s h k = no_text p
splitlines-join-Keeps p (line ∷ []) s h k = elim (Bool-cases (closed line)) [
  | inl c ↦ elim (closed-Splits line [] c) [
    | inl g ↦ rw g (ground (arith, k, no_text p))
    | inr (rest, g, e) ↦ absurd (no_rest rest g)
  ]
  | inr c ↦ last_lines p line (ground (arith, h, c)) (ground (arith, k))
]
splitlines-join-Keeps p (line ∷ (next ∷ lines)) s h k =
    let ih = splitlines-join-Keeps p (next ∷ lines) s (ground (arith, h)) (ground (arith, k)) in
    elim (closed-Splits line (join (next ∷ lines)) (ground (arith, h))) [
      | inl g ↦ rw g (ground (arith, k, ih))
      | inr (rest, g, e) ↦ rw e (ground (arith, k, s line, rw g at ih))
    ]
