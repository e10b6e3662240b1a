-- ===== src/Contacts/Phone.antt =====
-- backend/app/customers/schemas.py, `normalize_phone`, for texts of code points below 256. A
-- `ValueError` is kept without its message.
use realesatecrm.Base.{
  ℕ, Bool, true, false, not, ◌&&◌, ◌||◌, leb, ◌==◌, [], ◌∷◌, ◌++◌, if◌then◌else◌, length, select,
  all, Text, codes, starts_with,
}
use realesatecrm.Core.Errors.{Result, ok, raised, value_error}

-- What `str.strip` and `\s` take for white space.
abbrev pub is_space : ℕ → Bool
is_space c = (leb 9 c && leb c 13) || (leb 28 c && leb c 32) || c == 133 || c == 160

-- `[\s\-\(\)]`
abbrev pub is_separator : ℕ → Bool
is_separator c = is_space c || c == b'-' || c == b'(' || c == b')'

-- `str.isdigit` of one character: the raised digits 2, 3 and 1 are digits as well.
abbrev pub is_digit : ℕ → Bool
is_digit c = (leb b'0' c && leb c b'9') || c == 178 || c == 179 || c == 185

-- `str.isdigit`
unfoldable pub is_digits : Text → Bool
is_digits [] = false
is_digits (c ∷ s) = is_digit c && all is_digit s

unfoldable pub strip_left : Text → Text
strip_left [] = []
strip_left (c ∷ s) = let rest = strip_left s in if is_space c then rest else c ∷ s

abbrev pub is_empty : Text → Bool
is_empty [] = true
is_empty (c ∷ s) = false

unfoldable pub strip_right : Text → Text
strip_right [] = []
strip_right (c ∷ s) =
    let rest = strip_right s in if is_space c && is_empty rest then [] else c ∷ rest

-- `re.sub(r"[\s\-\(\)]", "", text)`
abbrev pub without_separators : Text → Text
without_separators = select (λ c. not (is_separator c))

unfoldable pub normalize_cleaned : Text → Result Text
normalize_cleaned [] = raised value_error
normalize_cleaned (c ∷ s) =
    if c == b'+'
    then (if not (is_digits s) then raised value_error else ok (c ∷ s))
    else if not (is_digits (c ∷ s))
    then raised value_error
    else if length (c ∷ s) == 10
    then ok (codes "+91" ++ (c ∷ s))
    else if length (c ∷ s) == 12 && starts_with (codes "91") (c ∷ s)
    then ok (b'+' ∷ c ∷ s)
    else ok (b'+' ∷ c ∷ s)

unfoldable pub normalize_phone : Text → Result Text
unfolding strip_left strip_right normalize_cleaned
normalize_phone phone = normalize_cleaned (without_separators (strip_right (strip_left phone)))
