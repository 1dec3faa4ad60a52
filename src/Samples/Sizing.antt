-- ===== src/Samples/Sizing.antt =====
-- Lots for a gold trade on an account of 10000 dollars.
use td_sandboxed.Base.{◌≤◌, true, ◌+◌, ◌*◌, ◌/◌, ◌≡◌, refl, returned, none, arith, tests}
use td_sandboxed.Base.Int.{ℤ, pos, negsuc, ◌-ℤ◌}
use td_sandboxed.Base.Number.{AtMost, Below}
use td_sandboxed.Samples.Fixed.{fixed, fixed-IsOrdered, signed}
use td_sandboxed.Strategies.PositionSizer.{Config, Request, calculate_lot_size}
use td_sandboxed.Strategies.PositionSizer.Limits.{
  IsTruncating, IsLimited, IsWithin, calculate_lot_size-IsWithin,
}
use td_sandboxed.Strategies.RiskBasedSizer
use td_sandboxed.Strategies.RiskBasedSizer.Budget
use td_sandboxed.Strategies.RiskBasedSizer.Budget.{
  IsRounded, IsAffordable, calculate_lot_size-IsAffordable,
}
use native.Mathlib.Nat.{mul-le-mul_right}

abbrev to_cents : ℤ → ℤ
to_cents x = x

to_cents-IsTruncating : IsTruncating ℤ to_cents
to_cents-IsTruncating = record {
  cut_below = λ x p. ground arith;
  cut_positive = λ x p. p;
  cut_mono = λ x y p. p;
}

abbrev whole : ℤ → ℤ
whole (pos n) = pos (n / 100 * 100)
whole (negsuc n) = signed true ((n + 1) / 100 * 100)

whole_below : (x : ℤ) → AtMost (fixed.literal 0) x → AtMost (whole x) x
whole_below (pos n) p = ground arith
whole_below (negsuc n) p = ground (arith, p)

whole_positive : (x : ℤ) → AtMost (fixed.literal 0) x → AtMost (fixed.literal 0) (whole x)
whole_positive (pos n) p = ground arith
whole_positive (negsuc n) p = ground (arith, p)

whole_mono : (x y : ℤ) → AtMost x y → AtMost (whole x) (whole y)
whole_mono (pos a) (pos b) p = ground (arith, p)
whole_mono (pos a) (negsuc b) p = ground (arith, p)
whole_mono (negsuc a) (pos b) p = ground (arith, p)
whole_mono (negsuc a) (negsuc b) p = ground (arith, p)

whole-IsTruncating : IsTruncating ℤ whole
whole-IsTruncating = record {
  cut_below = whole_below;
  cut_positive = whole_positive;
  cut_mono = whole_mono;
}

product_mono :
    (x y d : ℤ) → Below (fixed.literal 0) d → AtMost x y → AtMost (fixed.mul x d) (fixed.mul y d)
product_mono (pos a) (pos b) (pos d) p q =
    let below : a ≤ b = omega (tests, q) in
    let product : a * d ≤ b * d = mul-le-mul_right d below in
    let hundredth : a * d / 100 ≤ b * d / 100 = omega (arith, product) in ground (arith, hundredth)
product_mono (pos a) (negsuc b) (pos d) p q = ground (arith, q)
product_mono (negsuc a) (pos b) (pos d) p q = ground arith
product_mono (negsuc a) (negsuc b) (pos d) p q =
    let below : b + 1 ≤ a + 1 = ground (arith, q) in
    let product : (b + 1) * d ≤ (a + 1) * d = mul-le-mul_right d below in
    let hundredth : (b + 1) * d / 100 ≤ (a + 1) * d / 100 = omega (arith, product) in
    ground (arith, hundredth)
product_mono x y (negsuc d) p q = ground (arith, p)

quotient_above :
    (x d : ℤ)
    → AtMost (fixed.literal 0) x
    → Below (fixed.literal 0) d
    → AtMost (fixed.literal 0) (fixed.div x d)
quotient_above (pos a) (pos d) p q = ground arith
quotient_above (pos a) (negsuc d) p q = ground (arith, q)
quotient_above (negsuc a) d p q = ground (arith, p)

fixed-IsRounded : IsRounded ℤ
fixed-IsRounded = record { mul_mono = product_mono; div_above = quotient_above }

abbrev gold_trade : Request ℤ
gold_trade = record {
  account_balance = pos 1000000;
  entry_price = pos 264000;
  stop_price = pos 263000;
  contract_size = pos 10000;
  quote_to_account_rate = pos 100;
}

abbrev sizer : Config ℤ
sizer = record {
  risk_percent = pos 100;
  max_lot_size = pos 1000;
  min_lot_size = pos 1;
  fixed_lot_size = none;
}

sizer-IsLimited : IsLimited to_cents sizer
sizer-IsLimited = record { positive = refl; ordered = refl; cents = refl }

calculate_lot_size-IsWithin_example :
    (lot : ℤ) × (calculate_lot_size to_cents sizer gold_trade ≡ returned lot) × IsWithin sizer lot
unfolding ◌-ℤ◌
calculate_lot_size-IsWithin_example =
    calculate_lot_size-IsWithin fixed-IsOrdered to_cents to_cents-IsTruncating sizer sizer-IsLimited
      gold_trade tt refl refl

abbrev risk_sizer : RiskBasedSizer.Config ℤ
risk_sizer = record {
  risk_percent = pos 100;
  max_lot_size = pos 1000;
  min_lot_size = pos 1;
  lot_step = pos 1;
}

risk_sizer-IsLimited : Budget.IsLimited risk_sizer
risk_sizer-IsLimited = record { step = refl; positive = refl; ordered = refl }

calculate_lot_size-IsAffordable_example :
    (lot : ℤ) × (RiskBasedSizer.calculate_lot_size whole risk_sizer gold_trade ≡ returned lot)
    × IsAffordable risk_sizer gold_trade lot
unfolding ◌-ℤ◌
calculate_lot_size-IsAffordable_example =
    calculate_lot_size-IsAffordable fixed-IsOrdered fixed-IsRounded whole whole-IsTruncating
      risk_sizer risk_sizer-IsLimited gold_trade refl refl refl refl

-- The risk budget of 100 dollars buys a tenth of a lot.
gold_lot : RiskBasedSizer.calculate_lot_size whole risk_sizer gold_trade ≡ returned (pos 10)
unfolding RiskBasedSizer.calculate_lot_size ◌-ℤ◌
gold_lot = refl
