-- ===== src/Strategies/ScaleOut/Entry.antt =====
-- A trade is sound when it is set up.
use td_sandboxed.Base.{
  ◌≡◌, refl, inl, inr, true, Option, none, some, ◌||◌, arith, Bool-cases, Option-cases,
}
use td_sandboxed.Base.Number.{Number, IsOrdered, IsNumber, AtMost, Below}
use td_sandboxed.Base.Comparison.{lt_of_not_le}
use td_sandboxed.Strategies.ScaleOut.{
  Side, buy, sell, Config, Trade, offset_from, priced_offset, wanted_offset, compute_be_price,
  init_scale_state,
}
use td_sandboxed.Strategies.ScaleOut.Soundness.{IsNoLooser, IsSound}

-- Adding what is not negative does not lower a number, nor does subtracting it raise one, and a
-- product of positive numbers is not negative.
pub record IsGrowing (F : Type 0) ⦃n : Number F⦄ : Type 0 where
  pub add_above : (x y : F) → IsNumber x → AtMost (n.literal 0) y → AtMost x (n.add x y)
  pub sub_below : (x y : F) → IsNumber x → AtMost (n.literal 0) y → AtMost (n.sub x y) x
  pub mul_positive :
      (x y : F) → Below (n.literal 0) x → Below (n.literal 0) y → AtMost (n.literal 0) (n.mul x y)

module _ {F : Type 0} ⦃n : Number F⦄ where
  -- A value that is there is a positive number, or at least a number.
  abbrev pub IsPositive : Option F → Type 0
  IsPositive none = Unit
  IsPositive (some x) = Below (n.literal 0) x

  abbrev pub IsNumeric : Option F → Type 0
  IsNumeric none = Unit
  IsNumeric (some x) = IsNumber x

  -- A breakeven target is at the entry or on the far side of it.
  abbrev IsAhead : Side → F → Option F → Type 0
  IsAhead side entry none = Unit
  IsAhead side entry (some price) = IsNoLooser side entry price

  module _ (laws : IsOrdered F) (growth : IsGrowing F) (cfg : Config F) where
    offset-IsNoLooser :
        (side : Side) (entry offset : F)
        → IsNumber entry
        → AtMost (n.literal 0) offset
        → IsNoLooser side entry (offset_from side entry offset)
    offset-IsNoLooser buy entry offset p q = growth.add_above entry offset p q
    offset-IsNoLooser sell entry offset p q = growth.sub_below entry offset p q

    priced-IsAhead :
        (side : Side) (entry risk pips at_r : F) (pip_size : Option F)
        → IsNumber entry
        → Below (n.literal 0) pips
        → IsPositive pip_size
        → IsAhead side entry (priced_offset cfg side entry risk pips at_r pip_size)
    priced-IsAhead side entry risk pips at_r none p q r = tt
    priced-IsAhead side entry risk pips at_r (some pip_size) p q r =
        elim (Bool-cases (n.le (n.mul at_r risk) (n.mul pips pip_size))) [
          | inl e ↦ rw e tt
          | inr e ↦ rw e (
              offset-IsNoLooser side entry (n.mul pips pip_size) p
                (growth.mul_positive pips pip_size q r))
        ]

    wanted-IsAhead :
        (side : Side) (entry risk : F) (pip_size offset_pips : Option F)
        → IsNumber entry
        → IsPositive pip_size
        → IsNumeric offset_pips
        → IsAhead side entry (wanted_offset cfg side entry risk pip_size offset_pips)
    wanted-IsAhead side entry risk pip_size none p q r = tt
    wanted-IsAhead side entry risk pip_size (some pips) p q r =
        let zero_ = laws.literal_le 0 0 (omega arith) in
        elim (Bool-cases (n.le pips (n.literal 0))) [
          | inl e ↦ rw e tt
          | inr e ↦ elim (Option-cases cfg.breakeven_at_r) [
            | inl absent ↦ rw (e, absent) tt
            | inr (at_r, there) ↦ elim (Bool-cases cfg.scale_out_enabled) [
              | inr off ↦ simp (e, there, off) tt
              | inl on ↦
                  simp (e, there, on)
                    (priced-IsAhead side entry risk pips at_r pip_size p
                      (lt_of_not_le laws (n.literal 0) pips zero_ r e) q)
            ]
          ]
        ]

    far-IsNoLooser :
        (side : Side) (sl entry : F) (price : Option F)
        → IsNoLooser side sl entry
        → IsAhead side entry price
        → IsNoLooser side sl (elim price as (λ _. F) [ none ↦ entry | some x ↦ x ])
    far-IsNoLooser side sl entry none p q = p
    far-IsNoLooser buy sl entry (some x) p q = laws.le_trans sl entry x p q
    far-IsNoLooser sell sl entry (some x) p q = laws.le_trans x entry sl q p

    IsNoLooser-numbers :
        (side : Side) (sl entry : F) → IsNoLooser side sl entry → IsNumber sl × IsNumber entry
    IsNoLooser-numbers buy sl entry p = laws.le_numbers sl entry p
    IsNoLooser-numbers sell sl entry p =
        ((laws.le_numbers entry sl p).1, (laws.le_numbers entry sl p).0)

    -- Under the laws of comparison, with scale-out or trailing on and a numeric offset, a trade
    -- whose first stop is not beyond its entry, on an instrument with a positive pip size if it is
    -- known, is set up as a sound trade at that stop; sums with amounts that are not negative keep
    -- the order.
    pub init_scale_state-IsSound :
        (state : Option (Trade F)) (side : Side) (entry sl qty : F) (pip_size : Option F)
        → (cfg.scale_out_enabled || cfg.trailing_enabled) ≡ true
        → IsNoLooser side sl entry
        → IsPositive pip_size
        → IsNumeric cfg.breakeven_offset_pips
        → (t : Trade F) × (init_scale_state cfg state side entry sl qty pip_size ≡ some t)
          × (t.current_sl ≡ sl)
          × IsSound cfg t
    unfolding init_scale_state compute_be_price
    init_scale_state-IsSound state side entry sl qty pip_size on beyond positive numeric =
        let (sl_number, entry_number) = IsNoLooser-numbers side sl entry beyond in
        rw on (
          _,
          refl,
          refl,
          record {
            synced = refl;
            numeric = sl_number;
            target = far-IsNoLooser side sl entry _ beyond (
                wanted-IsAhead side entry (n.abs (n.sub entry sl)) pip_size
                  cfg.breakeven_offset_pips entry_number positive numeric);
            waits = λ _ _ _. (refl, refl);
            mode = λ h. cc h;
            reduced = refl;
          },
        )
