-- ===== src/Sorting/Defs.antt =====
-- Stable sorting by insertion, and comparisons that order rows up to ties.
use yt_media_tools.Prelude.{Ordering, ◌≡◌, ◌≢◌, List, [], ◌∷◌, All, Bool, true, false}
use yt_media_tools.Prelude.Order.{flip}

-- a comparison that is total, transitive, and does not tell tied rows apart
pub record IsRanking {ℓ} {A : Type ℓ} (cmp : A → A → Ordering) : Type ℓ where
  pub turn : (x y : A) → cmp y x ≡ flip (cmp x y)
  pub level : (x y z : A) → cmp x y ≡ Ordering.eq → cmp x z ≡ cmp y z
  pub trans : (x y z : A) → cmp x y ≡ Ordering.lt → cmp y z ≡ Ordering.lt → cmp x z ≡ Ordering.lt

module _ {ℓ} {A : Type ℓ} (cmp : A → A → Ordering) where
  -- before the first row that does not come strictly earlier
  unfoldable pub insert : A → List A → List A
  insert x [] = x ∷ []
  insert x (y ∷ ys) =
      let rest = insert x ys in
      elim (cmp y x) [
        | Ordering.lt ↦ y ∷ rest
        | Ordering.eq ↦ x ∷ (y ∷ ys)
        | Ordering.gt ↦ x ∷ (y ∷ ys)
      ]

  unfoldable pub sort : List A → List A
  unfolding insert
  sort [] = []
  sort (x ∷ xs) = insert x (sort xs)

  -- no row comes strictly before an earlier one
  abbrev pub NotBefore : A → A → Type 0
  NotBefore x y = cmp y x ≢ Ordering.lt

  abbrev pub IsSorted : List A → Type ℓ
  IsSorted [] = Unit
  IsSorted (x ∷ xs) = All (NotBefore x) xs × IsSorted xs

  unfoldable pub tied : A → A → Bool
  tied x y = elim (cmp x y) [ Ordering.eq ↦ true | Ordering.lt ↦ false | Ordering.gt ↦ false ]

-- the first comparison, and where it ties the second
abbrev pub then_by {ℓ} : {A : Type ℓ} → (A → A → Ordering) → (A → A → Ordering) → A → A → Ordering
then_by first second x y = elim (first x y) [
  | Ordering.lt ↦ Ordering.lt
  | Ordering.eq ↦ second x y
  | Ordering.gt ↦ Ordering.gt
]
