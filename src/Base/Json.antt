-- ===== src/Base/Json.antt =====
-- The JSON bodies of requests and responses, and what Python's operators make of their values.
-- Numbers are whole and not negative. A body that is read by `get` is an object, an identifier is a
-- text or a number: any other value counts as missing.
use opencloud_backend.Base.{
  ℕ, zero, suc, ◌+◌, ◌/◌, ◌%◌, Bool, true, false, not, Option, none, some, List, [], ◌∷◌, Text, txt,
  text_eq, text_eq_iff, nonempty, ltb, ◌==◌, if◌then◌else◌, ◌≡◌, refl, arith,
}

mutual
  pub data Json : Type 0 where
    null : Json
    bool : Bool → Json
    num : ℕ → Json
    str : Text → Json
    arr : Items → Json
    obj : Fields → Json

  pub data Items : Type 0 where
    nil : Items
    cons : Json → Items → Items

  pub data Fields : Type 0 where
    end : Fields
    field : Text → Json → Fields → Fields

abbrev pub to_list : Items → List Json
to_list nil = []
to_list (cons x xs) = x ∷ to_list xs

-- `d.get(key)` of a dict, a missing key being None
unfoldable pub get_field : Text → Fields → Json
get_field key end = null
get_field key (field k v fields) = if text_eq k key then v else get_field key fields

unfoldable pub get : Text → Json → Json
unfolding get_field
get key (obj fields) = get_field key fields
get key _ = null

-- `isinstance(value, dict)`
abbrev pub is_dict : Json → Bool
is_dict (obj fields) = true
is_dict _ = false

-- `value if isinstance(value, list) else []`
abbrev pub list_of : Json → List Json
list_of (arr items) = to_list items
list_of _ = []

-- `bool(value)`
unfoldable pub truthy : Json → Bool
truthy null = false
truthy (bool b) = b
truthy (num n) = not (n == 0)
truthy (str s) = nonempty s
truthy (arr nil) = false
truthy (arr (cons x xs)) = true
truthy (obj end) = false
truthy (obj (field k v fields)) = true

-- The decimal digits of a number; the fuel is one more than the number.
digits : ℕ → ℕ → Text → Text
digits zero n after = after
digits (suc fuel) n after =
    let rest = digits fuel (n / 10) ((b'0' + n % 10) ∷ after) in
    if ltb n 10 then (b'0' + n) ∷ after else rest

unfoldable pub show_number : ℕ → Text
unfolding digits
show_number n = digits (suc n) n []

-- `str(value or '')`
unfoldable pub text_of : Json → Text
unfolding show_number
text_of (str s) = s
text_of (num n) = if n == 0 then [] else show_number n
text_of _ = []

-- `str(value) if value else None`
unfoldable pub text_or_none : Json → Option Text
unfolding truthy text_of
text_or_none v = if truthy v then some (text_of v) else none

-- `int(value or 0)`
unfoldable pub int_of : Json → ℕ
int_of (num n) = n
int_of _ = 0

-- `value`, where a text or None is expected
unfoldable pub text_value : Json → Option Text
text_value (str s) = some s
text_value _ = none

-- `value or default` of texts
abbrev pub or_word : Text → Text → Text
or_word s word = if nonempty s then s else word

-- `[x for x in value if isinstance(x, dict)]`
abbrev pub dicts : List Json → List Json
dicts [] = []
dicts (x ∷ xs) = let rest = dicts xs in if is_dict x then x ∷ rest else rest

-- A dict with these keys, in this order.
abbrev pub fields_of : List (Text × Json) → Fields
fields_of [] = end
fields_of ((key, v) ∷ rest) = field key v (fields_of rest)

abbrev pub dict : List (Text × Json) → Json
dict entries = obj (fields_of entries)

-- `fields[key] = v`
unfoldable pub put : Text → Json → Fields → Fields
put key v end = field key v end
put key v (field k w fields) =
    let rest = put key v fields in if text_eq k key then field k v fields else field k w rest

-- `str(value)` of a text, a number, a Boolean or None
unfoldable pub show_json : Json → Text
unfolding show_number
show_json (str s) = s
show_json (num n) = show_number n
show_json (bool true) = txt "True"
show_json (bool false) = txt "False"
show_json null = txt "None"
show_json _ = []

-- `value or default`
abbrev pub or_json : Json → Json → Json
or_json v default = if truthy v then v else default

-- What the normalisers write: `str(raw.get(key) or '')`, `str(raw[key]) if raw.get(key) else None`,
-- `raw.get(key) or word`, `int(raw.get(key) or 0)` and `bool(raw.get(key))`.
abbrev pub id_at : Text → Json → Json
id_at key raw = str (text_of (get key raw))

abbrev pub optional_id_at : Text → Json → Json
optional_id_at key raw = if truthy (get key raw) then str (text_of (get key raw)) else null

abbrev pub word_at : Text → Text → Json → Json
word_at key word raw = or_json (get key raw) (str word)

abbrev pub count_at : Text → Json → Json
count_at key raw = num (int_of (get key raw))

abbrev pub flag_at : Text → Json → Json
flag_at key raw = bool (truthy (get key raw))

-- `raw.get(key) or None`
abbrev pub optional_at : Text → Json → Json
optional_at key raw = or_json (get key raw) null

pub get_field-put :
    (key k : Text) (v : Json) (fields : Fields)
    → get_field k (put key v fields) ≡ (if text_eq key k then v else get_field k fields)
unfolding get_field put
get_field-put key k v end = refl
get_field-put key k v (field j w fields) =
    ground
      (arith, text_eq_iff key k, text_eq_iff j key, text_eq_iff j k, get_field-put key k v fields)
