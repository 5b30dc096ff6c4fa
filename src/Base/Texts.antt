-- ===== src/Base/Texts.antt =====
-- Texts as lists of code points, with the string methods that the source uses. `lower` is Python's
-- on ASCII; `strip` removes all of Python's white space.
use Prim.Native.Char.{code}
use Prim.Native.String.{String}
use Prim.Native.Nat.{ℕ, ◌+◌, ◌-◌}
use mathlib.Core.Path.{◌≡◌, refl}
use mathlib.Core.Logic.{◌↔◌}
use mathlib.Core.Bool.{Bool, true, false, ◌&&◌, ◌||◌}
use mathlib.Core.List.{List, [], ◌∷◌, map, reverse}
use native.Mathlib.Omega.{arith}
use opencloud_backend.Base.Tests.{leb, ◌==◌, if◌then◌else◌}

abbrev pub Text : Type 0
Text = List ℕ

-- A literal of the source.
abbrev pub txt : String → Text
txt String.[] = []
txt (String.◌∷◌ c s) = code c ∷ txt s

-- `bool(s)`
abbrev pub nonempty {ℓ} : {A : Type ℓ} → List A → Bool
nonempty [] = false
nonempty (x ∷ xs) = true

-- `s == t`
unfoldable pub text_eq : Text → Text → Bool
text_eq [] [] = true
text_eq [] (d ∷ t) = false
text_eq (c ∷ s) [] = false
text_eq (c ∷ s) (d ∷ t) = c == d && text_eq s t

pub text_eq_iff : (s t : Text) → (text_eq s t ≡ true) ↔ (s ≡ t)
unfolding text_eq
text_eq_iff [] [] = ((λ _. refl), (λ _. refl))
text_eq_iff [] (d ∷ t) = ((λ e. cc), (λ e. cc))
text_eq_iff (c ∷ s) [] = ((λ e. cc), (λ e. cc))
text_eq_iff (c ∷ s) (d ∷ t) =
    ((λ e. ground (arith, text_eq_iff s t)), (λ e. ground (arith, text_eq_iff s t)))

pub text_eq_refl : (s : Text) → text_eq s s ≡ true
text_eq_refl s = (text_eq_iff s s).1 refl

-- `s.startswith(t)`
unfoldable pub starts_with : Text → Text → Bool
starts_with s [] = true
starts_with [] (d ∷ t) = false
starts_with (c ∷ s) (d ∷ t) = c == d && starts_with s t

-- `t in s`
unfoldable pub contains_text : Text → Text → Bool
unfolding starts_with
contains_text t [] = starts_with [] t
contains_text t (c ∷ s) = starts_with (c ∷ s) t || contains_text t s

unfoldable pub lower_char : ℕ → ℕ
lower_char c = if leb b'A' c && leb c b'Z' then c + 32 else c

unfoldable pub lower : Text → Text
unfolding lower_char
lower s = map lower_char s

unfoldable pub upper_char : ℕ → ℕ
upper_char c = if leb b'a' c && leb c b'z' then c - 32 else c

-- `s.upper()`, on ASCII
unfoldable pub upper : Text → Text
unfolding upper_char
upper s = map upper_char s

unfoldable pub is_space : ℕ → Bool
is_space c =
    (leb 9 c && leb c 13)
    || (leb 28 c && leb c 32)
    || c == 133
    || c == 160
    || c == 5760
    || (leb 8192 c && leb c 8202)
    || c == 8232
    || c == 8233
    || c == 8239
    || c == 8287
    || c == 12288

unfoldable pub strip_left : Text → Text
unfolding is_space
strip_left [] = []
strip_left (c ∷ s) = if is_space c then strip_left s else c ∷ s

unfoldable pub strip : Text → Text
unfolding strip_left
strip s = reverse (strip_left (reverse (strip_left s)))

-- `account__iexact=t`
unfoldable pub iexact : Text → Text → Bool
unfolding lower text_eq
iexact s t = text_eq (lower s) (lower t)

-- `t in ts`
unfoldable pub member_text : Text → List Text → Bool
unfolding text_eq
member_text t [] = false
member_text t (s ∷ ts) = text_eq t s || member_text t ts
