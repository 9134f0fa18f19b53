-- ===== src/Query/Like/Laws.antt =====
-- The LIKE shortcut.
use yt_media_tools.Prelude.{
  ℕ, ◌≡◌, refl, ◌↔◌, Bool, true, false, none, some, [], ◌∷◌, Text, arith, ◌==◌, Option-cases,
  Bool-cases, inl, inr, sym, ◌∙◌, ◌||◌,
}
use yt_media_tools.Query.Like.{compile, full_match, exact_literal, equal_text, like_matches}

pub equal_text_iff : (s t : Text) → (equal_text s t ≡ true) ↔ (s ≡ t)
unfolding equal_text
equal_text_iff [] [] = ground arith
equal_text_iff [] (y ∷ ys) = ground arith
equal_text_iff (x ∷ xs) [] = ground arith
equal_text_iff (x ∷ xs) (y ∷ ys) = ground (arith, equal_text_iff xs ys)

pub equal_text_sym : (s t : Text) → equal_text s t ≡ equal_text t s
equal_text_sym s t = ground (arith, equal_text_iff s t, equal_text_iff t s)

escaped_none :
    (c : ℕ) (cs : Text) → exact_literal false cs ≡ none → exact_literal true (c ∷ cs) ≡ none
unfolding exact_literal
escaped_none c cs p = rw (p, exact_literal)

escaped_some :
    (c : ℕ) (cs ds : Text)
    → exact_literal false cs ≡ some ds
    → exact_literal true (c ∷ cs) ≡ some (c ∷ ds)
unfolding exact_literal
escaped_some c cs ds p = rw (p, exact_literal)

escaped_step :
    (c : ℕ) (cs ds l v : Text)
    → ((xs : Text) → full_match ◌==◌ (compile false cs) xs ≡ equal_text ds xs)
    → l ≡ c ∷ ds
    → full_match ◌==◌ (compile true (c ∷ cs)) v ≡ equal_text l v
unfolding full_match compile equal_text
escaped_step c cs ds l [] ih q = ground arith
escaped_step c cs ds l (x ∷ xs) ih q = ground (arith, ih xs)

exact_quote :
    (c : ℕ) (cs : Text) → (c == b'\\') ≡ true → exact_literal false (c ∷ cs) ≡ exact_literal true cs
unfolding exact_literal
exact_quote c cs e = rw e

compile_quote : (c : ℕ) (cs : Text) → (c == b'\\') ≡ true → compile false (c ∷ cs) ≡ compile true cs
unfolding compile
compile_quote c cs e = rw e

exact_wild :
    (c : ℕ) (cs : Text)
    → (c == b'\\') ≡ false
    → ((c == b'%') || (c == b'_')) ≡ true
    → exact_literal false (c ∷ cs) ≡ none
unfolding exact_literal
exact_wild c cs e w = rw (e, w)

exact_none :
    (c : ℕ) (cs : Text)
    → (c == b'\\') ≡ false
    → ((c == b'%') || (c == b'_')) ≡ false
    → exact_literal false cs ≡ none
    → exact_literal false (c ∷ cs) ≡ none
unfolding exact_literal
exact_none c cs e w p = rw (e, w, p)

exact_step :
    (c : ℕ) (cs ds : Text)
    → (c == b'\\') ≡ false
    → ((c == b'%') || (c == b'_')) ≡ false
    → exact_literal false cs ≡ some ds
    → exact_literal false (c ∷ cs) ≡ some (c ∷ ds)
unfolding exact_literal
exact_step c cs ds e w p = rw (e, w, p)

plain_step :
    (c : ℕ) (cs ds l v : Text)
    → ((xs : Text) → full_match ◌==◌ (compile false cs) xs ≡ equal_text ds xs)
    → (c == b'\\') ≡ false
    → ((c == b'%') || (c == b'_')) ≡ false
    → l ≡ c ∷ ds
    → full_match ◌==◌ (compile false (c ∷ cs)) v ≡ equal_text l v
unfolding full_match compile equal_text
plain_step c cs ds l [] ih e w q = ground arith
plain_step c cs ds l (x ∷ xs) ih e w q = ground (arith, ih xs)

-- A pattern that decodes to one literal matches that literal alone.
full_match-exact_literal :
    (escaped : Bool) (pattern literal value : Text)
    → exact_literal escaped pattern ≡ some literal
    → full_match ◌==◌ (compile escaped pattern) value ≡ equal_text literal value
unfolding full_match exact_literal compile equal_text
full_match-exact_literal true [] l v h = cc
full_match-exact_literal false [] [] [] h = refl
full_match-exact_literal false [] [] (x ∷ xs) h = refl
full_match-exact_literal false [] (y ∷ ys) v h = cc
full_match-exact_literal true (c ∷ cs) l v h = elim (Option-cases (exact_literal false cs)) [
  | inl n ↦ cc (escaped_none c cs n)
  | inr (ds, p) ↦
      escaped_step c cs ds l v (λ xs. full_match-exact_literal false cs ds xs p)
        (cc (escaped_some c cs ds p))
]
full_match-exact_literal false (c ∷ cs) l v h = elim (Bool-cases (c == b'\\')) [
  | inl e ↦
      rw (compile_quote c cs e)
        (full_match-exact_literal true cs l v (sym (exact_quote c cs e) ∙ h))
  | inr e ↦ elim (Bool-cases ((c == b'%') || (c == b'_'))) [
    | inl w ↦ cc (exact_wild c cs e w)
    | inr w ↦ elim (Option-cases (exact_literal false cs)) [
      | inl n ↦ cc (exact_none c cs e w n)
      | inr (ds, p) ↦
          plain_step c cs ds l v (λ xs. full_match-exact_literal false cs ds xs p) e w
            (cc (exact_step c cs ds e w p))
    ]
  ]
]

-- The shortcut of a case-sensitive LIKE changes no answer: it is the full match of the compiled
-- pattern, whatever the engine takes for equal characters when it ignores case.
pub like_matches-full_match :
    (same : ℕ → ℕ → Bool) (value pattern : Text)
    → like_matches same value pattern false ≡ full_match ◌==◌ (compile false pattern) value
unfolding like_matches
like_matches-full_match same v p = elim (Option-cases (exact_literal false p)) [
  | inl e ↦ rw (e, like_matches)
  | inr (l, e) ↦
      rw (e, like_matches) (equal_text_sym v l ∙ sym (full_match-exact_literal false p l v e))
]
