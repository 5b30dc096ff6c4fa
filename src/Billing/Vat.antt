-- ===== src/Billing/Vat.antt =====
-- apps/billing/invoices.py, `vat_rate` and `split_vat`: the tax, in one place.
-- Amounts are in cents, the rate in hundredths of a percent.
use opencloud_backend.Base.{
  ℕ, ◌+◌, ◌*◌, ◌≤◌, ◌<◌, ◌≡◌, ap, Bool, true, false, Option, arith, or_default, ◌==◌, if◌then◌else◌,
  Bool-cases, inl, inr, ==_iff,
}
use opencloud_backend.Base.Int.{
  ℤ, pos, ◌+ℤ◌, ◌-ℤ◌, ◌*ℤ◌, round_half_up, round_half_up-one, round_half_up-pos, pos-*ℤ, half_up,
  half_up_bounds, int_laws,
}

-- The settings that the module reads; a rate that does not parse as a Decimal is `none`.
pub record VatSettings : Type 0 where
  pub billing_vat_rate : Option ℕ
  pub prices_include_vat : Bool

unfoldable pub vat_rate : VatSettings → ℕ
vat_rate settings = or_default settings.billing_vat_rate 0

-- `_money` of a whole number of cents over a denominator.
abbrev pub money : ℤ → ℕ → ℤ
money = round_half_up

-- (subtotal, vat, total)
unfoldable pub split_vat : VatSettings → ℤ → ℤ × ℤ × ℤ
split_vat settings gross_or_net =
    let rate = vat_rate settings in
    if rate == 0
    then (money gross_or_net 1, pos 0, money gross_or_net 1)
    else (if settings.prices_include_vat
        then (let total = money gross_or_net 1 in
            let subtotal = money (total *ℤ 10000) (10000 + rate) in
            (subtotal, money (total -ℤ subtotal) 1, total))
        else (let subtotal = money gross_or_net 1 in
            let vat = money (subtotal *ℤ rate) 10000 in (subtotal, vat, money (subtotal +ℤ vat) 1)))

-- On every side of the tax the subtotal and the tax add up to the total, to the cent.
pub split_vat_closes :
    (settings : VatSettings) (amount : ℤ)
    → let (subtotal, vat, total) = split_vat settings amount in subtotal +ℤ vat ≡ total
unfolding split_vat
split_vat_closes settings amount = elim (Bool-cases (vat_rate settings == 0)) [
  | inl e ↦ rw e (omega int_laws)
  | inr e ↦ elim (Bool-cases settings.prices_include_vat) [
    | inl f ↦ simp (e, f, round_half_up-one) (omega int_laws)
    | inr f ↦ simp (e, f, round_half_up-one)
  ]
]

-- `s` is the whole number nearest to n / d, and the larger one of two.
abbrev pub IsNearest : ℕ → ℕ → ℕ → Type 0
IsNearest n d s = (2 * d * s ≤ 2 * n + d) × (2 * n + d < 2 * d * s + 2 * d)

-- For an amount that is not negative and prices that include the tax, the total is the amount
-- itself, and the subtotal is the amount divided by one and the rate, to the nearest cent.
pub split_vat_inclusive :
    (settings : VatSettings) (amount : ℕ)
    → settings.prices_include_vat ≡ true
    → let (subtotal, vat, total) = split_vat settings (pos amount) in
      (s : ℕ) × (total ≡ pos amount)
      × (subtotal ≡ pos s)
      × IsNearest (amount * 10000) (10000 + vat_rate settings) s
unfolding split_vat
split_vat_inclusive settings amount h = elim (Bool-cases (vat_rate settings == 0)) [
  | inl e ↦ (
    amount,
    simp (e, round_half_up-one),
    simp (e, round_half_up-one),
    rw ((==_iff _ _).0 e) (omega arith),
  )
  | inr e ↦ (
    half_up (amount * 10000) (10000 + vat_rate settings),
    simp (e, h, round_half_up-one),
    simp (e, h, round_half_up-one, pos-*ℤ) (round_half_up-pos _ _),
    half_up_bounds (amount * 10000) (10000 + vat_rate settings) (omega arith),
  )
]

-- For an amount that is not negative and prices that leave the tax out, the subtotal is the amount
-- itself, and the tax is its share at the rate, to the nearest cent, on top.
pub split_vat_exclusive :
    (settings : VatSettings) (amount : ℕ)
    → settings.prices_include_vat ≡ false
    → let (subtotal, vat, total) = split_vat settings (pos amount) in
      (v : ℕ) × (subtotal ≡ pos amount)
      × (vat ≡ pos v)
      × (total ≡ pos (amount + v))
      × IsNearest (amount * vat_rate settings) 10000 v
unfolding split_vat
split_vat_exclusive settings amount h = elim (Bool-cases (vat_rate settings == 0)) [
  | inl e ↦ (
    0,
    simp (e, round_half_up-one),
    simp e,
    simp (e, round_half_up-one) (ap pos (omega arith)),
    rw ((==_iff _ _).0 e) (omega arith),
  )
  | inr e ↦
      let v = half_up (amount * vat_rate settings) 10000 in
      (
        v,
        simp (e, h, round_half_up-one),
        simp (e, h, round_half_up-one, pos-*ℤ) (round_half_up-pos _ _),
        simp (e, h, round_half_up-one, pos-*ℤ, round_half_up-pos) (omega int_laws),
        half_up_bounds (amount * vat_rate settings) 10000 (omega arith),
      )
]
