-- ===== src/Base/Lists.antt =====
-- Lists measured by native numbers, the predicate that holds of every entry, and Boolean search.
use Prim.Native.Nat.{ℕ, suc, ◌+◌}
use mathlib.Core.Path.{◌≡◌, refl, sym, ◌∙◌}
use mathlib.Core.Logic.{inl, inr}
use mathlib.Core.Bool.{Bool, true, false, ◌||◌}
use mathlib.Core.Option.{Option, none, some}
use mathlib.Core.List.{List, [], ◌∷◌, ◌++◌}
use native.Mathlib.Omega.{arith}
use opencloud_backend.Base.Tests.{if◌then◌else◌, Bool-cases, none≢some, some_injective, false≢true}

module _ {ℓ} {A : Type ℓ} where
  abbrev pub length : List A → ℕ
  length [] = 0
  length (x ∷ xs) = suc (length xs)

  pub length-append : (xs ys : List A) → length (xs ++ ys) ≡ length xs + length ys
  length-append [] ys = omega arith
  length-append (x ∷ xs) ys = omega (arith, length-append xs ys)

  abbrev pub All {κ} : (A → Type κ) → List A → Type κ
  All P [] = Unit
  All P (x ∷ xs) = P x × All P xs

  pub All-append {κ} : (P : A → Type κ) (xs ys : List A) → All P xs → All P ys → All P (xs ++ ys)
  All-append P [] ys hx hy = hy
  All-append P (x ∷ xs) ys hx hy = (hx.0, All-append P xs ys hx.1 hy)

  -- `[x for x in xs if keep(x)]`
  abbrev pub filter_by : (A → Bool) → List A → List A
  filter_by keep [] = []
  filter_by keep (x ∷ xs) = if keep x then x ∷ filter_by keep xs else filter_by keep xs

  -- `queryset.filter(keep).first()`, `next((x for x in xs if keep(x)), None)`
  abbrev pub first_by : (A → Bool) → List A → Option A
  first_by keep [] = none
  first_by keep (x ∷ xs) = if keep x then some x else first_by keep xs

  -- `any(test(x) for x in xs)`
  abbrev pub any_by : (A → Bool) → List A → Bool
  any_by test [] = false
  any_by test (x ∷ xs) = test x || any_by test xs

  -- `sum(f(x) for x in xs)`
  abbrev pub sum_by : (A → ℕ) → List A → ℕ
  sum_by f [] = 0
  sum_by f (x ∷ xs) = f x + sum_by f xs

  pub sum_by-append : (f : A → ℕ) (xs ys : List A) → sum_by f (xs ++ ys) ≡ sum_by f xs + sum_by f ys
  sum_by-append f [] ys = omega arith
  sum_by-append f (x ∷ xs) ys = omega (arith, sum_by-append f xs ys)

module _ {ℓ} {A : Type ℓ} where
  -- What is found passes the test.
  pub first_by-holds :
      (keep : A → Bool) (xs : List A) {y : A} → first_by keep xs ≡ some y → keep y ≡ true
  first_by-holds keep [] h = absurd (none≢some h)
  first_by-holds keep (x ∷ xs) h = elim (Bool-cases (keep x)) [
    | inl e ↦ rw (← some_injective (rw e at h)) e
    | inr e ↦ first_by-holds keep xs (rw e at h)
  ]

  -- What holds of every entry holds of the one that is found.
  pub first_by-All {κ} :
      (P : A → Type κ) (keep : A → Bool) (xs : List A) {y : A}
      → All P xs
      → first_by keep xs ≡ some y
      → P y
  first_by-All P keep [] all h = absurd (none≢some h)
  first_by-All P keep (x ∷ xs) all h = elim (Bool-cases (keep x)) [
    | inl e ↦ rw (← some_injective (rw e at h)) all.0
    | inr e ↦ first_by-All P keep xs all.1 (rw e at h)
  ]

  pub filter_by-All {κ} :
      (P : A → Type κ) (keep : A → Bool) (xs : List A) → All P xs → All P (filter_by keep xs)
  filter_by-All P keep [] all = tt
  filter_by-All P keep (x ∷ xs) all = elim (Bool-cases (keep x)) [
    | inl e ↦ rw e (all.0, filter_by-All P keep xs all.1)
    | inr e ↦ rw e (filter_by-All P keep xs all.1)
  ]

  -- Nothing is left of what a filter takes out.
  pub first_by-filter_by :
      (find keep : A → Bool) (xs : List A)
      → ((x : A) → find x ≡ true → keep x ≡ false)
      → first_by find (filter_by keep xs) ≡ none
  first_by-filter_by find keep [] apart = refl
  first_by-filter_by find keep (x ∷ xs) apart = elim (Bool-cases (keep x)) [
    | inl e ↦ elim (Bool-cases (find x)) [
      | inl f ↦ absurd (false≢true (sym (apart x f) ∙ e))
      | inr f ↦ rw (e, f) (first_by-filter_by find keep xs apart)
    ]
    | inr e ↦ rw e (first_by-filter_by find keep xs apart)
  ]

  pub All-map {κ ι} :
      (P : A → Type κ) (Q : A → Type ι) (xs : List A) → ((x : A) → P x → Q x) → All P xs → All Q xs
  All-map P Q [] f all = tt
  All-map P Q (x ∷ xs) f all = (f x all.0, All-map P Q xs f all.1)

module _ {ℓ} {A : Type ℓ} where
  pub sum_by-length : (xs : List A) → sum_by (λ x. 1) xs ≡ length xs
  sum_by-length [] = refl
  sum_by-length (x ∷ xs) = omega (arith, sum_by-length xs)
