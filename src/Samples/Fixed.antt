-- ===== src/Samples/Fixed.antt =====
-- Decimal numbers with two places, as a concrete type of numbers with the laws that the theorems
-- ask for. It has no NaN.
use td_sandboxed.Base.{ℕ, ◌+◌, ◌*◌, ◌/◌, ◌≤◌, ◌<◌, Bool, true, false, not, ◌&&◌, arith, tests}
use td_sandboxed.Base.Int.{ℤ, pos, negsuc, pos_part, neg_part, sub_ℕ, ◌+ℤ◌, ◌-ℤ◌, ltb_ℤ, leb_ℤ}
use td_sandboxed.Base.Number.{Number, IsOrdered, IsMonotone, AtMost, Below}
use td_sandboxed.Regime.Classifier.Symmetry.{IsNegating}
use native.Mathlib.Nat.{le-div_iff_mul-le, div-mul-le_self}

abbrev pub size : ℤ → ℕ
size (pos n) = n
size (negsuc n) = n + 1

abbrev is_below_zero : ℤ → Bool
is_below_zero (pos n) = false
is_below_zero (negsuc n) = true

abbrev opposite : ℤ → ℤ
opposite x = sub_ℕ (neg_part x) (pos_part x)

-- A number of the given size and sign.
abbrev pub signed : Bool → ℕ → ℤ
signed true n = sub_ℕ 0 n
signed false n = pos n

abbrev pub differ : Bool → Bool → Bool
differ true b = not b
differ false b = b

-- Quotient in hundredths, cut.
abbrev pub quotient : ℕ → ℕ → ℕ
quotient a b = a * 100 / b

instance abbrev pub fixed : Number ℤ
fixed = record {
  literal = λ n. pos (n * 100);
  add = λ x y. x +ℤ y;
  sub = λ x y. x -ℤ y;
  mul = λ x y. signed (differ (is_below_zero x) (is_below_zero y)) (size x * size y / 100);
  div = λ x y. signed (differ (is_below_zero x) (is_below_zero y)) (quotient (size x) (size y));
  neg = opposite;
  abs = λ x. pos (size x);
  lt = ltb_ℤ;
  le = leb_ℤ;
  eq = λ x y. leb_ℤ x y && leb_ℤ y x;
}

abbrev pub hundredths : ℕ → ℤ
hundredths n = pos n

pub fixed-IsOrdered : IsOrdered ℤ
fixed-IsOrdered = record {
  le_trans = λ x y z p q. ground (arith, p, q);
  le_numbers = λ x y p. (ground arith, ground arith);
  le_total = λ x y p q. ground arith;
  lt_of_numbers = λ x y p q. ground arith;
  lt_numbers = λ x y p. (ground arith, ground arith);
  eq_le = λ x y p. (ground (arith, p), ground (arith, p));
  literal_le = λ a b p. ground (arith, p);
  literal_lt = λ a b p. ground (arith, p);
}

pub fixed-IsNegating : IsNegating ℤ
fixed-IsNegating = record { le_neg = λ x y. ground arith; neg_neg = λ x. ground arith }

quotient_mono : (a b d : ℕ) → a ≤ b → 0 < d → quotient a d ≤ quotient b d
quotient_mono a b d h positive =
    (le-div_iff_mul-le positive).1 (omega (arith, div-mul-le_self (a * 100) d))

fixed_div_mono :
    (x y d : ℤ)
    → AtMost (fixed.literal 0) x
    → AtMost x y
    → Below y d
    → AtMost (fixed.div x d) (fixed.div y d)
fixed_div_mono (pos a) (pos b) (pos d) p q r =
    let mono = quotient_mono a b d (omega (tests, q)) (omega (tests, r)) in ground (arith, mono)
fixed_div_mono (pos a) (pos b) (negsuc d) p q r = ground (arith, r)
fixed_div_mono (pos a) (negsuc b) d p q r = ground (arith, q)
fixed_div_mono (negsuc a) y d p q r = ground (arith, p)

pub fixed-IsMonotone : IsMonotone ℤ
fixed-IsMonotone = record {
  abs_pos = λ x p. ground (arith, p);
  abs_antitone = λ x y p q. ground (arith, p, q);
  div_mono = fixed_div_mono;
  percent_mono = λ x y p. ground (arith, p);
}
