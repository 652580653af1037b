-- ===== src/Text/Decimal.antt =====
-- Decimal numbers, written and read.
use argocd_autoscaler.Base.{
  ℕ, zero, suc, ◌+◌, ◌-◌, ◌*◌, ◌/◌, ◌%◌, ◌<◌, ◌≤◌, ◌≡◌, refl, ◌∙◌, sym, ap, some, [], ◌∷◌, arith,
  ltb, Bool-cases, inl, inr,
}
use mathlib.Core.Option
use argocd_autoscaler.Text.{
  Text, digit, digits, decimal, itoa, parse_digits, parse_number, atoi, positive_int, negative_int,
  int32_mod, to_int32, is_negative,
}

parse_digits-digit :
    (v d : ℕ) (rest : Text)
    → d < 10
    → parse_digits v (digit d ∷ rest) ≡ parse_digits (v * 10 + d) rest
unfolding parse_digits
parse_digits-digit v d rest h = let e : b'0' + d - b'0' ≡ d = omega arith in rw e (ground arith)

parse_digits-digits :
    (fuel n : ℕ) (rest : Text)
    → n < fuel
    → parse_digits 0 (digits fuel n rest) ≡ parse_digits n rest
unfolding digits
parse_digits-digits zero n rest h = absurd (omega arith)
parse_digits-digits (suc fuel) n rest h = elim (Bool-cases (ltb n 10)) [
  | inl small ↦
      rw small
        (parse_digits-digit 0 n rest (ground arith) ∙ ap (λ k. parse_digits k rest) (omega arith))
  | inr large ↦ rw large (
      parse_digits-digits fuel (n / 10) (digit (n % 10) ∷ rest) (ground arith)
      ∙ parse_digits-digit (n / 10) (n % 10) rest (omega arith)
      ∙ ap (λ k. parse_digits k rest) (omega arith))
]

-- What `digits` writes begins with a digit.
digits-head :
    (fuel n : ℕ) (rest : Text)
    → n < fuel
    → (d : ℕ) × (more : Text) × (digits fuel n rest ≡ digit d ∷ more)
unfolding digits
digits-head zero n rest h = absurd (omega arith)
digits-head (suc fuel) n rest h = elim (Bool-cases (ltb n 10)) [
  | inl small ↦ (n, rest, rw small)
  | inr large ↦ rw large (digits-head fuel (n / 10) (digit (n % 10) ∷ rest) (ground arith))
]

parse_number-cons : (c : ℕ) (cs : Text) → parse_number (c ∷ cs) ≡ parse_digits 0 (c ∷ cs)
unfolding parse_number
parse_number-cons c cs = refl

pub parse_number-decimal : (n : ℕ) → parse_number (decimal n) ≡ some n
unfolding decimal
parse_number-decimal n =
    let (d, more, e) = digits-head (suc n) n [] (omega arith) in
    rw e (
      parse_number-cons (digit d) more
      ∙ ap (parse_digits 0) (sym e)
      ∙ parse_digits-digits (suc n) n [] (omega arith)
      ∙ unfold parse_digits in refl)

-- `atoi` takes a decimal number for what it stands for.
decimal-head : (n : ℕ) → (d : ℕ) × (more : Text) × (decimal n ≡ digit d ∷ more)
unfolding decimal
decimal-head n = digits-head (suc n) n [] (omega arith)

atoi-digit :
    (d : ℕ) (more : Text) → atoi (digit d ∷ more) ≡ positive_int (parse_number (digit d ∷ more))
unfolding atoi
atoi-digit d more = ground arith

pub atoi-decimal : (n : ℕ) → n ≤ 9223372036854775807 → atoi (decimal n) ≡ some n
atoi-decimal n h =
    let (d, more, e) = decimal-head n in
    rw e (atoi-digit d more ∙ rw (← e) (rw (parse_number-decimal n) (ground arith)))

atoi-minus : (n : ℕ) → atoi (b'-' ∷ decimal n) ≡ negative_int (some n)
unfolding atoi
atoi-minus n = rw (parse_number-decimal n)

-- `strconv.Atoi` reads back each int32 that `%d` writes, negative ones too.
pub to_int32-atoi-itoa : (x : ℕ) → x < int32_mod → Option.map to_int32 (atoi (itoa x)) ≡ some x
unfolding itoa
to_int32-atoi-itoa x h = elim (Bool-cases (is_negative x)) [
  | inl minus ↦ rw minus (rw (atoi-minus (int32_mod - x)) (ground arith))
  | inr plus ↦ rw plus (rw (atoi-decimal x (ground arith)) (ground arith))
]
