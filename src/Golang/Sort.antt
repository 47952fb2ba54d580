-- ===== src/Golang/Sort.antt =====
-- sort.Slice and sort.Ints, by insertion.
use httpkvdb.Base.{Bool, List, [], ◌∷◌, if◌then◌else◌}

module _ {ℓ} {A : Type ℓ} where
  unfoldable pub insert_sorted : (A → A → Bool) → A → List A → List A
  insert_sorted lt a [] = a ∷ []
  insert_sorted lt a (b ∷ bs) =
      let rest = insert_sorted lt a bs in if lt b a then b ∷ rest else a ∷ b ∷ bs

  unfoldable pub sort : (A → A → Bool) → List A → List A
  unfolding insert_sorted
  sort lt [] = []
  sort lt (a ∷ xs) = insert_sorted lt a (sort lt xs)
