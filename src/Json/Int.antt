-- ===== src/Json/Int.antt =====
-- Signed integers, and `strconv.Atoi`.
use underpass_runtime.Base.{
  ℕ, suc, ◌+◌, ◌*◌, ◌-◌, ◌^◌, ◌≤◌, Bool, ◌&&◌, Option, none, some, [], ◌∷◌, ltb, leb, ◌==◌,
  if◌then◌else◌,
}
use underpass_runtime.Text.{Text}

-- `negsuc n` is -(n + 1)
pub data ℤ : Type 0 where
  pos : ℕ → ℤ
  negsuc : ℕ → ℤ

unfoldable pub is_digit : ℕ → Bool
is_digit c = leb b'0' c && leb c b'9'

unfoldable pub parse_digits : ℕ → Text → Option ℕ
parse_digits acc [] = some acc
parse_digits acc (c ∷ s) =
    let rest = parse_digits (acc * 10 + (c - b'0')) s in if is_digit c then rest else none

-- at least one digit
unfoldable pub parse_number : Text → Option ℕ
parse_number [] = none
parse_number (c ∷ s) = parse_digits 0 (c ∷ s)

unfoldable pub negate : ℕ → ℤ
negate n = if n == 0 then pos 0 else negsuc (n - 1)

-- numbers that do not fit into 64 bits are refused
unfoldable pub positive_in_range : Option ℕ → Option ℤ
positive_in_range none = none
positive_in_range (some n) = if ltb n (2 ^ 63) then some (pos n) else none

unfoldable pub negative_in_range : Option ℕ → Option ℤ
negative_in_range none = none
negative_in_range (some n) = if leb n (2 ^ 63) then some (negate n) else none

-- strconv.Atoi: an optional sign and digits
unfoldable pub atoi : Text → Option ℤ
atoi [] = none
atoi (c ∷ s) =
    if c == b'-'
    then negative_in_range (parse_number s)
    else if c == b'+'
    then positive_in_range (parse_number s)
    else positive_in_range (parse_number (c ∷ s))

-- The integer lies between -lo and hi.
abbrev pub IsBetween : ℕ → ℕ → ℤ → Type 0
IsBetween lo hi (pos n) = n ≤ hi
IsBetween lo hi (negsuc n) = suc n ≤ lo

-- The test for it: x < -lo || x > hi fails
unfoldable pub outside : ℕ → ℕ → ℤ → Bool
outside lo hi (pos n) = ltb hi n
outside lo hi (negsuc n) = ltb lo (n + 1)
