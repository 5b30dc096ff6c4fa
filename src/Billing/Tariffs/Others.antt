-- ===== src/Billing/Tariffs/Others.antt =====
-- apps/billing/views.py (AdminTariffView.put): whose price lists a change reaches.
use opencloud_backend.Base.{
  ◌≡◌, refl, true, false, not, Option, none, some, List, [], ◌∷◌, length, Text, text_eq,
  text_eq_refl, filter_by, leb, Bool-cases, inl, inr, ℕ,
}
use opencloud_backend.Billing.Model.{Resource, Tariff}
use opencloud_backend.Billing.Tariffs.{
  TariffRequest, is_of, set_tariff, new_tariff, write_tariff, settle_tariff, put_tariff,
  submitted_prices, currency_of,
}

-- The lists of all other accounts.
unfoldable pub others : Text → List Tariff → List Tariff
others account tariffs = filter_by (λ (t : Tariff). not (text_eq t.account account)) tariffs

others_drop :
    (account : Text) (t : Tariff) (tariffs : List Tariff)
    → is_of account t ≡ true
    → others account (t ∷ tariffs) ≡ others account tariffs
unfolding others
others_drop account t tariffs e = rw e refl

others_keep :
    (account : Text) (t : Tariff) (tariffs : List Tariff)
    → is_of account t ≡ false
    → others account (t ∷ tariffs) ≡ t ∷ others account tariffs
unfolding others
others_keep account t tariffs e = rw e refl

set_tariff-is_of :
    (account currency : Text) (prices : List (Resource × ℕ)) (t : Tariff)
    → is_of account t ≡ true
    → is_of account (set_tariff account currency prices t) ≡ true
unfolding set_tariff
set_tariff-is_of account currency prices t e = e

write_tariff-others :
    (account currency : Text) (prices : List (Resource × ℕ)) (tariffs : List Tariff)
    → others account (write_tariff account currency prices tariffs) ≡ others account tariffs
unfolding write_tariff
write_tariff-others account currency prices [] =
    others_drop account (set_tariff account currency prices (new_tariff account)) []
      (set_tariff-is_of account currency prices (new_tariff account) (text_eq_refl account))
write_tariff-others account currency prices (t ∷ tariffs) = elim (Bool-cases (is_of account t)) [
  | inl e ↦
      rw (e, others_drop account t tariffs e)
        (others_drop account (set_tariff account currency prices t) tariffs
          (set_tariff-is_of account currency prices t e))
  | inr e ↦
      rw
        (
          e,
          others_keep account t (write_tariff account currency prices tariffs) e,
          others_keep account t tariffs e,
          write_tariff-others account currency prices tariffs,
        )
        refl
]

settle_tariff-others :
    (ordered : List Tariff → List Tariff) (prices : Option (List (Resource × ℕ)))
    (account currency : Text) (tariffs : List Tariff)
    → others account (settle_tariff ordered prices account currency tariffs).1
      ≡ others account tariffs
unfolding settle_tariff
settle_tariff-others ordered none account currency tariffs = refl
settle_tariff-others ordered (some prices) account currency tariffs =
    elim (Bool-cases (leb (length (filter_by (is_of account) tariffs)) 1)) [
      | inl e ↦ rw e (write_tariff-others account currency prices tariffs)
      | inr e ↦ rw e refl
    ]

-- When an administrator sets the price list of an account, the lists of all other accounts, and the
-- default one where the account's name is not empty, are the same rows as before in the same order,
-- whatever is submitted.
pub put_tariff-others :
    (ordered : List Tariff → List Tariff) (account : Text) (q : TariffRequest)
    (tariffs : List Tariff)
    → others account (put_tariff ordered account q tariffs).1 ≡ others account tariffs
unfolding put_tariff
put_tariff-others ordered account q tariffs =
    settle_tariff-others ordered (submitted_prices q.rates) account (currency_of q) tariffs
