-- ===== src/Zadara/Lists/Sorted.antt =====
-- What sorting gives: an order of neighbours, and the same entries.
use opencloud_backend.Base.{
  ◌≡◌, refl, ◌∙◌, Bool, true, false, List, [], ◌∷◌, filter_by, length, arith, Bool-cases, inl, inr,
}
use opencloud_backend.Platform.Snapshot.{insert_sorted, sort}

-- No entry stands behind one that it goes before.
abbrev pub IsSorted {ℓ} : {A : Type ℓ} → (A → A → Bool) → List A → Type 0
IsSorted before [] = Unit
IsSorted before (x ∷ []) = Unit
IsSorted before (x ∷ y ∷ ys) = (before y x ≡ false) × IsSorted before (y ∷ ys)

module _ {ℓ} {A : Type ℓ} (before : A → A → Bool)
    (asym : (a b : A) → before a b ≡ true → before b a ≡ false) where
  insert_sorted_behind :
      (y x : A) (ys : List A)
      → before x y ≡ false
      → IsSorted before (y ∷ ys)
      → IsSorted before (insert_sorted before x ys)
      → IsSorted before (y ∷ insert_sorted before x ys)
  unfolding insert_sorted
  insert_sorted_behind y x [] apart sorted done = (apart, tt)
  insert_sorted_behind y x (z ∷ zs) apart sorted done = elim (Bool-cases (before z x)) [
    | inl e ↦ rw e (sorted.0, rw e at done)
    | inr e ↦ rw e (apart, rw e at done)
  ]

  tail-IsSorted : (x : A) (xs : List A) → IsSorted before (x ∷ xs) → IsSorted before xs
  tail-IsSorted x [] sorted = tt
  tail-IsSorted x (y ∷ ys) sorted = sorted.1

  insert_sorted-IsSorted :
      (x : A) (ys : List A) → IsSorted before ys → IsSorted before (insert_sorted before x ys)
  unfolding insert_sorted
  insert_sorted-IsSorted x [] sorted = tt
  insert_sorted-IsSorted x (y ∷ ys) sorted =
      let rest = insert_sorted-IsSorted x ys (tail-IsSorted y ys sorted) in
      elim (Bool-cases (before y x)) [
        | inl e ↦ rw e (insert_sorted_behind y x ys (asym y x e) sorted rest)
        | inr e ↦ rw e (e, sorted)
      ]

  pub sort-IsSorted : (xs : List A) → IsSorted before (sort before xs)
  unfolding sort
  sort-IsSorted [] = tt
  sort-IsSorted (x ∷ xs) = insert_sorted-IsSorted x (sort before xs) (sort-IsSorted xs)

module _ {ℓ} {A : Type ℓ} (before : A → A → Bool) (keep : A → Bool) where
  insert_sorted-filter_by :
      (x : A) (ys : List A)
      → length (filter_by keep (insert_sorted before x ys)) ≡ length (filter_by keep (x ∷ ys))
  unfolding insert_sorted
  insert_sorted-filter_by x [] = refl
  insert_sorted-filter_by x (y ∷ ys) = ground (arith, insert_sorted-filter_by x ys)

  pub sort-filter_by :
      (xs : List A) → length (filter_by keep (sort before xs)) ≡ length (filter_by keep xs)
  unfolding sort
  sort-filter_by [] = refl
  sort-filter_by (x ∷ xs) =
      insert_sorted-filter_by x (sort before xs) ∙ ground (arith, sort-filter_by xs)
