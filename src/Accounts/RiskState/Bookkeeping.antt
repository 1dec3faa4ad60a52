-- ===== src/Accounts/RiskState/Bookkeeping.antt =====
-- What the risk metrics stand for, after any sequence of updates.
use td_sandboxed.Base.{◌≡◌, ◌∙◌, refl, inl, inr, false, List, [], ◌∷◌, returned, Bool-cases, All}
use td_sandboxed.Base.Number.{Number, IsOrdered, IsNumber, AtMost}
use td_sandboxed.Base.Comparison.{le_of_lt, le_of_not_lt}
use td_sandboxed.Accounts.RiskState.{
  RiskState, drawdown_from_peak, update_equity, record_trade, reset_daily, Codec, to_dict,
  from_dict,
}

-- A call that changes the state, with what the clock answers.
pub data Update (F T : Type 0) : Type 0 where
  equity : F → T → Update F T
  trade : F → T → Update F T
  reset : F → T → Update F T

module _ {F T : Type 0} ⦃n : Number F⦄ where
  abbrev pub apply : Update F T → RiskState F T → RiskState F T
  apply (equity x now) s = update_equity x now s
  apply (trade x now) s = record_trade x now s
  apply (reset x now) s = reset_daily x now s

  -- The updates in order.
  unfoldable pub updates : List (Update F T) → RiskState F T → RiskState F T
  updates [] s = s
  updates (u ∷ us) s = updates us (apply u s)

  abbrev pub IsNumeric : Update F T → Type 0
  IsNumeric (equity x now) = IsNumber x
  IsNumeric (trade x now) = Unit
  IsNumeric (reset x now) = Unit

  -- The equity is at most its peak, and the drawdown is the one from that peak.
  pub record IsHighWater (s : RiskState F T) : Type 0 where
    pub bounded : AtMost s.current_equity s.peak_equity
    pub measured : s.total_drawdown_percent ≡ drawdown_from_peak s.current_equity s.peak_equity

  module _ (laws : IsOrdered F) where
    apply-IsHighWater :
        (u : Update F T) (s : RiskState F T)
        → IsNumeric u
        → IsHighWater s
        → IsHighWater (apply u s) × AtMost s.peak_equity (apply u s).peak_equity
    unfolding update_equity record_trade reset_daily
    apply-IsHighWater (equity x now) s numeric h =
        let (_, known) = laws.le_numbers s.current_equity s.peak_equity h.bounded in
        elim (Bool-cases (n.lt s.peak_equity x)) [
          | inl higher ↦
              rw higher (
                record { bounded = numeric; measured = refl },
                le_of_lt laws s.peak_equity x higher,
              )
          | inr lower ↦ rw lower (
            record {
              bounded = le_of_not_lt laws x s.peak_equity numeric known lower;
              measured = refl;
            },
            known,
          )
        ]
    apply-IsHighWater (trade x now) s numeric h = (
      record { bounded = h.bounded; measured = h.measured },
      (laws.le_numbers s.current_equity s.peak_equity h.bounded).1,
    )
    apply-IsHighWater (reset x now) s numeric h = (
      record { bounded = h.bounded; measured = h.measured },
      (laws.le_numbers s.current_equity s.peak_equity h.bounded).1,
    )

    -- Under the laws of comparison, from a state whose equity is at most its peak and whose
    -- drawdown is the one from that peak, any updates with numeric equities lead to such a state,
    -- and the peak does not fall.
    pub updates-IsHighWater :
        (us : List (Update F T)) (s : RiskState F T)
        → All IsNumeric us
        → IsHighWater s
        → IsHighWater (updates us s) × AtMost s.peak_equity (updates us s).peak_equity
    unfolding updates
    updates-IsHighWater [] s numeric h =
        (h, (laws.le_numbers s.current_equity s.peak_equity h.bounded).1)
    updates-IsHighWater (u ∷ us) s numeric h =
        let (kept, grown) = apply-IsHighWater u s numeric.0 h in
        let (sound, further) = updates-IsHighWater us (apply u s) numeric.1 kept in
        (
          sound,
          laws.le_trans s.peak_equity (apply u s).peak_equity (updates us (apply u s)).peak_equity
              grown further,
        )

  -- The sum of the trades since the last reset, from a sum before.
  unfoldable pub realized : List (Update F T) → F → F
  realized [] total = total
  realized (equity x now ∷ us) total = realized us total
  realized (trade x now ∷ us) total = realized us (n.add total x)
  realized (reset x now ∷ us) total = realized us (n.literal 0)

  -- The daily result is the sum of the trades since the last reset.
  pub updates-realized :
      (us : List (Update F T)) (s : RiskState F T)
      → (updates us s).daily_pnl ≡ realized us s.daily_pnl
  unfolding updates realized update_equity record_trade reset_daily
  updates-realized [] s = refl
  updates-realized (equity x now ∷ us) s = updates-realized us (update_equity x now s)
  updates-realized (trade x now ∷ us) s = updates-realized us (record_trade x now s)
  updates-realized (reset x now ∷ us) s = updates-realized us (reset_daily x now s)

  -- An update that is no reset.
  abbrev pub IsIntraday : Update F T → Type 0
  IsIntraday (equity x now) = Unit
  IsIntraday (trade x now) = Unit
  IsIntraday (reset x now) = ⊥

  -- Without a positive starting balance the daily percentage stays what it was until a reset.
  pub unbased :
      (us : List (Update F T)) (s : RiskState F T)
      → All IsIntraday us
      → n.lt (n.literal 0) s.daily_starting_balance ≡ false
      → (updates us s).daily_pnl_percent ≡ s.daily_pnl_percent
  unfolding updates update_equity record_trade
  unbased [] s intraday zero_ = refl
  unbased (equity x now ∷ us) s intraday zero_ = unbased us (update_equity x now s) intraday.1 zero_
  unbased (trade x now ∷ us) s intraday zero_ =
      unbased us (record_trade x now s) intraday.1 zero_ ∙ rw zero_
  unbased (reset x now ∷ us) s intraday zero_ = absurd intraday.0

-- A state that is written to a hash is read back as it was, if the texts of its amounts and of its
-- time stamp are read back.
pub from_dict-to_dict :
    {F T : Type 0} (amount : Codec F) (time : Codec T)
    → ((x : F) → amount.parse (amount.print x) ≡ returned x)
    → ((x : T) → time.parse (time.print x) ≡ returned x)
    → (now : T) (s : RiskState F T) → from_dict amount time now (to_dict amount time s) ≡ returned s
unfolding to_dict from_dict
from_dict-to_dict amount time amounts times now s = simp (amounts, times)
