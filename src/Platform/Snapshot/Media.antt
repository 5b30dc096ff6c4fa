-- ===== src/Platform/Snapshot/Media.antt =====
-- The tally of disks by medium.
use opencloud_backend.Base.{
  ℕ, ◌+◌, ◌≡◌, refl, ◌∙◌, Bool, List, [], ◌∷◌, map, length, sum_by, sum_by-length, arith, Text,
  text_eq, Bool-cases, inl, inr,
}
use opencloud_backend.Base.Dict.{Dict, adjust}
use opencloud_backend.Platform.Snapshot.{
  Row, MediaTotal, insert_sorted, sort, media_buckets, media_before, media_totals,
}

module _ {A : Type 0} (f : A → ℕ) (before : A → A → Bool) where
  sum_by-insert_sorted :
      (x : A) (xs : List A) → sum_by f (insert_sorted before x xs) ≡ f x + sum_by f xs
  unfolding insert_sorted
  sum_by-insert_sorted x [] = refl
  sum_by-insert_sorted x (y ∷ ys) = elim (Bool-cases (before y x)) [
    | inl e ↦ rw (e, insert_sorted) (omega (arith, sum_by-insert_sorted x ys))
    | inr e ↦ rw (e, insert_sorted) refl
  ]

  sum_by-sort : (xs : List A) → sum_by f (sort before xs) ≡ sum_by f xs
  unfolding sort
  sum_by-sort [] = refl
  sum_by-sort (x ∷ xs) = sum_by-insert_sorted x (sort before xs) ∙ omega (arith, sum_by-sort xs)

module _ (f : MediaTotal → ℕ) (w : Row → ℕ) where
  sum_by-adjust :
      (k : Text) (start : MediaTotal) (change : MediaTotal → MediaTotal) (n : ℕ)
      (d : Dict MediaTotal)
      → f start ≡ 0
      → ((b : MediaTotal) → f (change b) ≡ f b + n)
      → sum_by f (map (λ (e : Text × MediaTotal). e.1) (adjust k start change d))
        ≡ sum_by f (map (λ (e : Text × MediaTotal). e.1) d) + n
  unfolding adjust
  sum_by-adjust k start change n [] z step = omega (arith, z, step start)
  sum_by-adjust k start change n ((j, b) ∷ d) z step = elim (Bool-cases (text_eq j k)) [
    | inl e ↦ rw (e, adjust) (omega (arith, step b))
    | inr e ↦ rw (e, adjust) (omega (arith, sum_by-adjust k start change n d z step))
  ]

  sum_by-media_buckets :
      (rows : List Row) (d : Dict MediaTotal)
      → ((media : Text) → f (record { media = media; volumes = 0; total_gib = 0 }) ≡ 0)
      → ((v : Row) (b : MediaTotal)
          → f (record b { volumes = b.volumes + 1; total_gib = b.total_gib + v.size_gib })
            ≡ f b + w v)
      → sum_by f (map (λ (e : Text × MediaTotal). e.1) (media_buckets rows d))
        ≡ sum_by f (map (λ (e : Text × MediaTotal). e.1) d) + sum_by w rows
  unfolding media_buckets
  sum_by-media_buckets [] d z step = omega arith
  sum_by-media_buckets (v ∷ rows) d z step =
      sum_by-media_buckets rows _ z step
      ∙ omega (arith, sum_by-adjust v.media _ _ (w v) d (z v.media) (step v))

-- The media of a list of disks add up to it, in disks and in capacity, whatever their labels.
media_totals-sum :
    (rows : List Row)
    → (sum_by (λ (m : MediaTotal). m.volumes) (media_totals rows) ≡ length rows)
      × (sum_by (λ (m : MediaTotal). m.total_gib) (media_totals rows)
          ≡ sum_by (λ (r : Row). r.size_gib) rows)
unfolding media_totals
media_totals-sum rows = (
  sum_by-sort (λ (m : MediaTotal). m.volumes) media_before _
      ∙ sum_by-media_buckets (λ (m : MediaTotal). m.volumes) (λ r. 1) rows [] (λ m. refl)
          (λ v b. refl)
      ∙ omega (arith, sum_by-length rows),
  sum_by-sort (λ (m : MediaTotal). m.total_gib) media_before _
      ∙ sum_by-media_buckets (λ (m : MediaTotal). m.total_gib) (λ r. r.size_gib) rows [] (λ m. refl)
          (λ v b. refl)
      ∙ omega arith,
)
