-- ===== src/Pricing/Doubles.antt =====
-- The operations on JavaScript numbers that prices are computed with. They belong to the runtime, so
-- they are an interface, and its laws are those of IEEE arithmetic that the prices rely on.
use native.Mathlib.Nat.{mul-le-mul_right, le-div_iff_mul-le, div-mul-le_self, le_trans}
use lalaba_backend_showcase.Base.{
  ℕ, ◌+◌, ◌-◌, ◌*◌, ◌/◌, ◌≤◌, ◌<◌, ◌≡◌, Bool, true, false, leb, if◌then◌else◌, arith,
}

pub record Doubles : Type 1 where
  pub Double : Type 0
  pub of_nat : ℕ → Double
  pub add : Double → Double → Double
  pub sub : Double → Double → Double
  pub mul : Double → Double → Double
  pub div : Double → Double → Double
  -- `<=`
  pub le : Double → Double → Bool
  -- `Math.round` and `Math.ceil` of a number that is not negative
  pub round : Double → ℕ
  pub ceil : Double → ℕ

-- Without NaN the numbers are ordered, and arithmetic is rounded to the nearest number, so it is
-- monotone in an operand where the other one is not negative.
pub record IsMonotone (d : Doubles) : Type 0 where
  pub le_refl : (x : d.Double) → d.le x x ≡ true
  pub le_trans : (x y z : d.Double) → d.le x y ≡ true → d.le y z ≡ true → d.le x z ≡ true
  pub le_total : (x y : d.Double) → d.le x y ≡ false → d.le y x ≡ true
  pub add_mono : (a x y : d.Double) → d.le x y ≡ true → d.le (d.add a x) (d.add a y) ≡ true
  pub sub_mono : (x y a : d.Double) → d.le x y ≡ true → d.le (d.sub x a) (d.sub y a) ≡ true
  pub mul_mono :
      (x y a : d.Double)
      → d.le (d.of_nat 0) a ≡ true
      → d.le x y ≡ true
      → d.le (d.mul x a) (d.mul y a) ≡ true
  pub div_mono :
      (x y a : d.Double)
      → d.le a (d.of_nat 0) ≡ false
      → d.le x y ≡ true
      → d.le (d.div x a) (d.div y a) ≡ true
  pub of_nat_mono : (m n : ℕ) → m ≤ n → d.le (d.of_nat m) (d.of_nat n) ≡ true
  pub round_mono : (x y : d.Double) → d.le x y ≡ true → d.round x ≤ d.round y
  pub ceil_mono : (x y : d.Double) → d.le x y ≡ true → d.ceil x ≤ d.ceil y

module _ (d : Doubles) where
  open d use {Double, le}

  -- `Math.max(a, b)`
  abbrev pub larger : Double → Double → Double
  larger a b = if le a b then b else a

-- The laws can be met: whole numbers.
abbrev pub whole_numbers : Doubles
whole_numbers = record {
  Double = ℕ;
  of_nat = λ n. n;
  add = λ a b. a + b;
  sub = λ a b. a - b;
  mul = λ a b. a * b;
  div = λ a b. a / b;
  le = leb;
  round = λ a. a;
  ceil = λ a. a;
}

mul_mono_whole : (x y a : ℕ) → leb x y ≡ true → leb (x * a) (y * a) ≡ true
mul_mono_whole x y a h =
    let le : x ≤ y = ground arith in
    let product : x * a ≤ y * a = mul-le-mul_right a le in ground arith

div_mono_whole : (x y a : ℕ) → leb a 0 ≡ false → leb x y ≡ true → leb (x / a) (y / a) ≡ true
div_mono_whole x y a h k =
    let le : x ≤ y = ground arith in
    let positive : 0 < a = ground arith in
    let quotient : x / a ≤ y / a =
      (le-div_iff_mul-le positive).1 (le_trans (div-mul-le_self x a) le) in
    ground arith

pub whole_numbers-IsMonotone : IsMonotone whole_numbers
whole_numbers-IsMonotone = record {
  le_refl = λ x. ground arith;
  le_trans = λ x y z h k. ground arith;
  le_total = λ x y h. ground arith;
  add_mono = λ a x y h. ground arith;
  sub_mono = λ x y a h. ground arith;
  mul_mono = λ x y a h k. mul_mono_whole x y a k;
  div_mono = λ x y a h k. div_mono_whole x y a h k;
  of_nat_mono = λ m n h. ground arith;
  round_mono = λ x y h. ground arith;
  ceil_mono = λ x y h. ground arith;
}
