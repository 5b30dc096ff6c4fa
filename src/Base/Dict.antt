-- ===== src/Base/Dict.antt =====
-- A Python dict keyed by texts, in insertion order.
use opencloud_backend.Base.{
  ◌≡◌, refl, Option, none, some, List, [], ◌∷◌, ◌++◌, All, arith, Text, text_eq, text_eq_iff,
  Bool-cases, inl, inr, if◌then◌else◌, or_default,
}

abbrev pub Dict {ℓ} : Type ℓ → Type ℓ
Dict V = List (Text × V)

module _ {ℓ} {V : Type ℓ} where
  -- `d.get(k)`
  unfoldable pub lookup : Text → Dict V → Option V
  lookup k [] = none
  lookup k ((j, v) ∷ d) = if text_eq j k then some v else lookup k d

  -- `d[k] = v`
  unfoldable pub insert : Text → V → Dict V → Dict V
  insert k v [] = (k, v) ∷ []
  insert k v ((j, w) ∷ d) = if text_eq j k then (j, v) ∷ d else (j, w) ∷ insert k v d

  -- `entry = d.setdefault(k, default)`, and `change` of the entry in place
  unfoldable pub adjust : Text → V → (V → V) → Dict V → Dict V
  adjust k default change [] = (k, change default) ∷ []
  adjust k default change ((j, w) ∷ d) =
      if text_eq j k then (j, change w) ∷ d else (j, w) ∷ adjust k default change d

  -- Each key stands once.
  abbrev pub HasKeysOnce : Dict V → Type ℓ
  HasKeysOnce [] = Unit
  HasKeysOnce ((k, _) ∷ d) = (lookup k d ≡ none) × HasKeysOnce d

  pub lookup-insert :
      (k j : Text) (v : V) (d : Dict V)
      → lookup j (insert k v d) ≡ (if text_eq k j then some v else lookup j d)
  unfolding lookup insert
  lookup-insert k j v [] = refl
  lookup-insert k j v ((i, w) ∷ d) =
      ground (arith, text_eq_iff k j, text_eq_iff i k, text_eq_iff i j, lookup-insert k j v d)

  pub lookup-adjust :
      (k j : Text) (default : V) (change : V → V) (d : Dict V)
      → lookup j (adjust k default change d)
        ≡ (if text_eq k j then some (change (or_default (lookup k d) default)) else lookup j d)
  unfolding lookup adjust
  lookup-adjust k j default change [] = refl
  lookup-adjust k j default change ((i, w) ∷ d) = ground (
    arith,
    text_eq_iff k j,
    text_eq_iff i k,
    text_eq_iff i j,
    text_eq_iff j i,
    lookup-adjust k j default change d,
  )

module _ {ℓ} {V : Type ℓ} where
  -- `d.setdefault(k, []).append(v)`
  pub lookup-append :
      (k j : Text) (v : V) (d : Dict (List V))
      → or_default (lookup j (adjust k [] (λ vs. vs ++ v ∷ []) d)) []
        ≡ (if text_eq k j then or_default (lookup j d) [] ++ v ∷ [] else or_default (lookup j d) [])
  lookup-append k j v d = elim (Bool-cases (text_eq k j)) [
    | inl e ↦ rw (lookup-adjust k j [] (λ vs. vs ++ v ∷ []) d, e, (text_eq_iff k j).0 e) refl
    | inr e ↦ rw (lookup-adjust k j [] (λ vs. vs ++ v ∷ []) d, e) refl
  ]

  pub adjust-HasKeysOnce :
      (k : Text) (default : V) (change : V → V) (d : Dict V)
      → HasKeysOnce d
      → HasKeysOnce (adjust k default change d)
  unfolding adjust lookup
  adjust-HasKeysOnce k default change [] h = (refl, tt)
  adjust-HasKeysOnce k default change ((i, w) ∷ d) h = ground (
    arith,
    adjust-HasKeysOnce k default change d h.1,
    text_eq_iff k i,
    text_eq_iff i k,
    lookup-adjust k i default change d,
  )

  -- What holds of the default and is kept by the change holds of every entry.
  pub adjust-All {κ} :
      (P : V → Type κ) (k : Text) (default : V) (change : V → V) (d : Dict V)
      → P default
      → ((v : V) → P v → P (change v))
      → All (λ (e : Text × V). P e.1) d
      → All (λ (e : Text × V). P e.1) (adjust k default change d)
  unfolding adjust
  adjust-All P k default change [] start keep h = (keep default start, tt)
  adjust-All P k default change ((i, w) ∷ d) start keep h = elim (Bool-cases (text_eq i k)) [
    | inl e ↦ rw e (keep w h.0, h.1)
    | inr e ↦ rw e (h.0, adjust-All P k default change d start keep h.1)
  ]
