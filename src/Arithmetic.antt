-- ===== src/Arithmetic.antt =====
-- What the program takes from `k8s.io/apimachinery/pkg/api/resource`, `strconv` and `math`:
-- quantities, float64 and its operations. They are not part of the repository, and enter as a
-- record that the definitions take as a parameter.
use argocd_autoscaler.Base.{
  ℕ, ◌+◌, ◌-◌, ◌*◌, ◌/◌, ◌^◌, ◌≡◌, Bool, true, false, Option, some, arith, ltb, ◌==◌,
}
use native.Mathlib.Nat.{le_trans, div-mul-le_self, le-div_iff_mul-le}
use argocd_autoscaler.Text.{Text, decimal, parse_number}
use argocd_autoscaler.Text.Decimal.{parse_number-decimal}

pub record Arithmetic : Type 1 where
  pub Quantity : Type 0
  pub Float : Type 0
  pub as_float : Quantity → Float  -- Quantity.AsApproximateFloat64
  pub parse : Text → Option Quantity  -- resource.ParseQuantity; `none` is its error
  pub format : Float → Text  -- strconv.FormatFloat(x, 'f', -1, 64)
  pub lt : Float → Float → Bool
  pub eq : Float → Float → Bool
  pub add : Float → Float → Float
  pub sub : Float → Float → Float
  pub mul : Float → Float → Float
  pub div : Float → Float → Float
  pub pow : Float → Float → Float  -- math.Pow
  pub neg : Float → Float
  pub max_float : Float  -- math.MaxFloat64
  pub of_nat : ℕ → Float  -- the conversion of a whole number, and the numerals

-- `<` on float64 is a strict order, with NaN too.
pub record IsOrdered (n : Arithmetic) : Type 0 where
  pub lt_irrefl : (x : n.Float) → n.lt x x ≡ false
  pub lt_trans : (x y z : n.Float) → n.lt x y ≡ true → n.lt y z ≡ true → n.lt x z ≡ true

-- What holds of whole numbers of at most 2 ^ 53 and of their sums up to there, on which float64 and
-- a quantity are exact: printing and parsing keeps the value, sums respect the order, and adding what
-- is not negative does not shrink.
-- `lt x y ≡ false` says that y is at most x.
pub record IsExact (n : Arithmetic) : Type 0 where
  pub ordered : IsOrdered n
  pub lt_cotrans : (x y z : n.Float) → n.lt x y ≡ false → n.lt y z ≡ false → n.lt x z ≡ false
  pub parse-format :
      (x : n.Float) (q : n.Quantity) → n.parse (n.format x) ≡ some q → n.as_float q ≡ x
  pub add_mono :
      (x y u v : n.Float)
      → n.lt x y ≡ false
      → n.lt u v ≡ false
      → n.lt (n.add x u) (n.add y v) ≡ false
  pub add_grows : (x y : n.Float) → n.lt y (n.of_nat 0) ≡ false → n.lt (n.add x y) x ≡ false

-- What holds of float64 without NaN and overflow, where rounding keeps the order, and of quantities
-- that are printed, parsed and read back, which rounds once more: `lt x y ≡ false` says that y is at
-- most x.
pub record IsRounded (n : Arithmetic) : Type 0 where
  pub ordered : IsOrdered n
  pub lt_cotrans : (x y z : n.Float) → n.lt x y ≡ false → n.lt y z ≡ false → n.lt x z ≡ false
  pub parse_mono :
      (x y : n.Float) (p q : n.Quantity)
      → n.parse (n.format x) ≡ some p
      → n.parse (n.format y) ≡ some q
      → n.lt x y ≡ false
      → n.lt (n.as_float p) (n.as_float q) ≡ false
  pub parse_nonnegative :
      (x : n.Float) (q : n.Quantity)
      → n.parse (n.format x) ≡ some q
      → n.lt x (n.of_nat 0) ≡ false
      → n.lt (n.as_float q) (n.of_nat 0) ≡ false
  pub add_mono :
      (x y u v : n.Float)
      → n.lt x y ≡ false
      → n.lt u v ≡ false
      → n.lt (n.add x u) (n.add y v) ≡ false
  pub add_nonnegative : (x y : n.Float) → n.lt y (n.of_nat 0) ≡ false → n.lt (n.add x y) x ≡ false
  pub add_neg : (x : n.Float) → n.lt (n.add x (n.neg x)) (n.of_nat 0) ≡ false
  pub mul_nonnegative :
      (x y : n.Float)
      → n.lt x (n.of_nat 0) ≡ false
      → n.lt y (n.of_nat 0) ≡ false
      → n.lt (n.mul x y) (n.of_nat 0) ≡ false
  pub sub_mono : (x y z : n.Float) → n.lt x y ≡ false → n.lt (n.sub x z) (n.sub y z) ≡ false
  pub sub_nonnegative : (x y : n.Float) → n.lt x y ≡ false → n.lt (n.sub x y) (n.of_nat 0) ≡ false
  pub div_mono :
      (x y z : n.Float)
      → n.lt x y ≡ false
      → n.lt z (n.of_nat 0) ≡ false
      → n.eq z (n.of_nat 0) ≡ false
      → n.lt (n.div x z) (n.div y z) ≡ false
  pub mean_most :
      (x y z : n.Float)
      → n.lt z x ≡ false
      → n.lt z y ≡ false
      → n.lt z (n.div (n.add x y) (n.of_nat 2)) ≡ false
  pub mean_least :
      (x y z : n.Float)
      → n.lt x z ≡ false
      → n.lt y z ≡ false
      → n.lt (n.div (n.add x y) (n.of_nat 2)) z ≡ false

-- Whole numbers: an instance on which the definitions run, and which meets both records.
abbrev pub whole : Arithmetic
whole = record {
  Quantity = ℕ;
  Float = ℕ;
  as_float = λ q. q;
  parse = parse_number;
  format = decimal;
  lt = ltb;
  eq = ◌==◌;
  add = ◌+◌;
  sub = ◌-◌;
  mul = ◌*◌;
  div = ◌/◌;
  pow = ◌^◌;
  neg = λ x. 0;
  max_float = 18446744073709551616;
  of_nat = λ k. k;
}

pub whole-IsOrdered : IsOrdered whole
whole-IsOrdered = record { lt_irrefl = λ x. ground arith; lt_trans = λ x y z h k. ground arith }

pub whole-IsExact : IsExact whole
whole-IsExact = record {
  ordered = whole-IsOrdered;
  lt_cotrans = λ x y z h k. ground arith;
  parse-format = λ x q h. ground (arith, parse_number-decimal x);
  add_mono = λ x y u v h k. ground arith;
  add_grows = λ x y h. ground arith;
}

div_mono : (x y z : ℕ) → ltb x y ≡ false → (z == 0) ≡ false → ltb (x / z) (y / z) ≡ false
div_mono x y z h e =
    let p =
      (le-div_iff_mul-le {k = z} {x = y / z} {y = x} (ground (arith, e))).1
        (le_trans (div-mul-le_self y z) (ground (arith, h))) in
    ground (arith, p)

pub whole-IsRounded : IsRounded whole
whole-IsRounded = record {
  ordered = whole-IsOrdered;
  lt_cotrans = λ x y z h k. ground arith;
  parse_mono = λ x y p q h k l. ground (arith, parse_number-decimal x, parse_number-decimal y);
  parse_nonnegative = λ x q h k. ground arith;
  add_mono = λ x y u v h k. ground arith;
  add_nonnegative = λ x y h. ground arith;
  add_neg = λ x. ground arith;
  mul_nonnegative = λ x y h k. ground arith;
  sub_mono = λ x y z h. ground arith;
  sub_nonnegative = λ x y h. ground arith;
  div_mono = λ x y z h k l. div_mono x y z h l;
  mean_most = λ x y z h k. ground arith;
  mean_least = λ x y z h k. ground arith;
}
