-- ===== src/Text.antt =====
-- Texts as lists of bytes, and the parts of `strconv`, `fmt` and `sort` that the program uses on
-- them: `==` and `<` on strings, `%d` and `strconv.Itoa` of an int32, and `strconv.Atoi`.
-- An int32 or an int is its bit pattern: -m is 2 ^ 32 - m, or 2 ^ 64 - m.
pub mod Order
pub mod Decimal
pub mod Sorted
pub mod Sets
use Prim.Native.Char.{code}
use Prim.Native.String.{String}
use argocd_autoscaler.Base.{
  ℕ, zero, suc, ◌+◌, ◌-◌, ◌*◌, ◌/◌, ◌%◌, ◌^◌, ◌≤◌, ◌<◌, ◌≡◌, refl, ap, ◌∙◌, ◌↔◌, Bool, true, false,
  ◌&&◌, ◌||◌, Option, none, some, List, [], ◌∷◌, ◌++◌, arith, ltb, leb, ◌==◌, if◌then◌else◌, ==_iff,
  Bool-cases, inl, inr, ◌⊎◌, All,
}

abbrev pub Text : Type 0
Text = List ℕ

-- The bytes of a literal in ASCII.
abbrev pub bytes : String → Text
bytes String.[] = []
bytes (String.◌∷◌ c s) = code c ∷ bytes s

unfoldable pub text_eq : Text → Text → Bool
text_eq [] [] = true
text_eq [] (y ∷ ys) = false
text_eq (x ∷ xs) [] = false
text_eq (x ∷ xs) (y ∷ ys) = x == y && text_eq xs ys

-- `<` on strings is bytewise.
unfoldable pub text_lt : Text → Text → Bool
text_lt xs [] = false
text_lt [] (y ∷ ys) = true
text_lt (x ∷ xs) (y ∷ ys) = ltb x y || (x == y && text_lt xs ys)

abbrev pub int32_mod : ℕ
int32_mod = 4294967296

abbrev pub int64_mod : ℕ
int64_mod = 18446744073709551616

-- The conversion `int32(x)` of an int.
abbrev pub to_int32 : ℕ → ℕ
to_int32 x = x % int32_mod

-- The bit pattern stands for a negative number.
abbrev pub is_negative : ℕ → Bool
is_negative x = leb 2147483648 x

-- `a < b` on int32.
abbrev pub int32_lt : ℕ → ℕ → Bool
int32_lt a b = ltb ((a + 2147483648) % int32_mod) ((b + 2147483648) % int32_mod)

abbrev pub digit : ℕ → ℕ
digit n = b'0' + n

-- The fuel is the number plus one, and the number falls at each round.
unfoldable pub digits : ℕ → ℕ → Text → Text
digits zero n rest = rest
digits (suc fuel) n rest =
    let more = digits fuel (n / 10) (digit (n % 10) ∷ rest) in
    if ltb n 10 then digit n ∷ rest else more

unfoldable pub decimal : ℕ → Text
unfolding digits
decimal n = digits (suc n) n []

-- `fmt.Sprintf("%d", x)` and `strconv.Itoa(int(x))` of an int32.
unfoldable pub itoa : ℕ → Text
unfolding decimal
itoa x = if is_negative x then b'-' ∷ decimal (int32_mod - x) else decimal x

abbrev pub is_digit : ℕ → Bool
is_digit c = leb b'0' c && leb c b'9'

unfoldable pub parse_digits : ℕ → Text → Option ℕ
parse_digits v [] = some v
parse_digits v (c ∷ cs) =
    let rest = parse_digits (v * 10 + (c - b'0')) cs in if is_digit c then rest else none

-- One digit at least.
unfoldable pub parse_number : Text → Option ℕ
unfolding parse_digits
parse_number [] = none
parse_number (c ∷ cs) = parse_digits 0 (c ∷ cs)

abbrev in_range : ℕ → ℕ → Option ℕ
in_range limit v = if ltb limit v then none else some v

abbrev pub positive_int : Option ℕ → Option ℕ
positive_int none = none
positive_int (some v) = in_range 9223372036854775807 v

abbrev pub negative_int : Option ℕ → Option ℕ
negative_int none = none
negative_int (some v) =
    if ltb 9223372036854775808 v then none else some ((int64_mod - v) % int64_mod)

-- `strconv.Atoi`: a sign, then decimal digits within the range of int; `none` is its error.
unfoldable pub atoi : Text → Option ℕ
unfolding parse_number
atoi [] = none
atoi (c ∷ cs) =
    if c == b'-'
    then negative_int (parse_number cs)
    else if c == b'+'
    then positive_int (parse_number cs)
    else positive_int (parse_number (c ∷ cs))
