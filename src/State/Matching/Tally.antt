-- ===== src/State/Matching/Tally.antt =====
-- The matching of state/position_reconciler.py: how often each position is counted.
use td_sandboxed.Base.{
  ℕ, ◌+◌, not, String, str_eq, Option, none, some, List, [], ◌∷◌, ◌++◌, map, length, length-append,
  Outcome, returned, >>=-eq-returned, returned-injective, Bool-cases, Option-cases, ◌≡◌, refl, sym,
  ap, inl, inr, arith,
}
use td_sandboxed.Base.Number.{Number}
use td_sandboxed.State.Discrepancy.{
  DiscrepancyType, orphan_position, unknown_position, volume_mismatch, side_mismatch, LocalPosition,
  ValidPosition, Mt5Position, Discrepancy, is_type, count_type, validate_position, take_symbol,
  create_unknown_discrepancy, found_in, left_of,
}
use td_sandboxed.State.Matching.{
  read_field, invalid_discrepancy, create_orphan_discrepancy, create_mismatch_discrepancy, separate,
  compare_with, volume_tolerance, match_each, match_positions,
}

module _ {F : Type 0} where
  -- The pairs and discrepancies account for so many positions of the snapshot and of MT5.
  abbrev pub IsTally : List (ValidPosition × Mt5Position F) × List (Discrepancy F) → ℕ → ℕ → Type 0
  IsTally (pairs, ds) local mt5 =
      (length pairs
          + count_type volume_mismatch ds
          + count_type side_mismatch ds
          + count_type orphan_position ds
        ≡ local)
      × (length pairs
            + count_type volume_mismatch ds
            + count_type side_mismatch ds
            + count_type unknown_position ds
          ≡ mt5)

  count_type-append :
      (kind : DiscrepancyType) (xs ys : List (Discrepancy F))
      → count_type kind (xs ++ ys) ≡ count_type kind xs + count_type kind ys
  count_type-append kind [] ys = omega arith
  count_type-append kind (d ∷ xs) ys = elim (Bool-cases (is_type kind d.discrepancy_type)) [
    | inl same ↦ rw same (omega (arith, count_type-append kind xs ys))
    | inr other ↦ rw other (count_type-append kind xs ys)
  ]

  IsTally-append :
      (x y : List (ValidPosition × Mt5Position F) × List (Discrepancy F)) (a b c d : ℕ)
      → IsTally x a b
      → IsTally y c d
      → IsTally (x.0 ++ y.0, x.1 ++ y.1) (a + c) (b + d)
  IsTally-append (p, x) (q, y) a b c d first second = (
    omega (
      arith,
      length-append p q,
      count_type-append volume_mismatch x y,
      count_type-append side_mismatch x y,
      count_type-append orphan_position x y,
      first.0,
      second.0,
    ),
    omega (
      arith,
      length-append p q,
      count_type-append volume_mismatch x y,
      count_type-append side_mismatch x y,
      count_type-append unknown_position x y,
      first.1,
      second.1,
    ),
  )

  unknowns-IsTally :
      (account_id : String) (ms : List (Mt5Position F))
      → IsTally ([], map (create_unknown_discrepancy account_id) ms) 0 (length ms)
  unknowns-IsTally account_id [] = (refl, refl)
  unknowns-IsTally account_id (m ∷ ms) =
      let rest = unknowns-IsTally account_id ms in (omega (arith, rest.0), omega (arith, rest.1))

  -- Of the positions of MT5, one less is left if a position was found.
  abbrev taken : Option (Mt5Position F) → ℕ
  taken none = 0
  taken (some m) = 1

  taken-left_of :
      (symbol : String) (ms : List (Mt5Position F))
      → taken (found_in (take_symbol symbol ms)) + length (left_of ms (take_symbol symbol ms))
        ≡ length ms
  taken-left_of symbol [] = refl
  taken-left_of symbol (m ∷ ms) =
      let smaller = taken-left_of symbol ms in
      elim (Bool-cases (str_eq m.symbol symbol)) [
        | inl same ↦ rw same (omega arith)
        | inr other ↦ rw other (elim (Option-cases (take_symbol symbol ms)) [
          | inl nothing ↦ rw nothing (omega arith)
          | inr (found, first) ↦ rw first (omega (arith, (rw first at smaller)))
        ])
      ]

module _ {F : Type 0} ⦃n : Number F⦄ (decimal : String → Outcome F) where
  orphan-type :
      (account_id : String) (p : ValidPosition) (d : Discrepancy F)
      → create_orphan_discrepancy decimal account_id p ≡ returned d
      → d.discrepancy_type ≡ orphan_position
  unfolding create_orphan_discrepancy
  orphan-type account_id p d h =
      let (volume, _, next) = >>=-eq-returned (decimal p.volume) _ h in
      let (entry, _, last) = >>=-eq-returned (read_field decimal p.entry_price) _ next in
      sym (ap (λ x. x.discrepancy_type) (returned-injective _ _ last))

  invalid-type :
      (account_id : String) (p : LocalPosition) (d : Discrepancy F)
      → invalid_discrepancy decimal account_id p ≡ returned d
      → d.discrepancy_type ≡ orphan_position
  unfolding invalid_discrepancy
  invalid-type account_id p d h =
      let (volume, _, next) = >>=-eq-returned (read_field decimal p.volume) _ h in
      let (entry, _, last) = >>=-eq-returned (read_field decimal p.entry_price) _ next in
      sym (ap (λ x. x.discrepancy_type) (returned-injective _ _ last))

  mismatch-type :
      (kind : DiscrepancyType) (account_id : String) (p : ValidPosition) (m : Mt5Position F)
      (d : Discrepancy F)
      → create_mismatch_discrepancy decimal kind account_id p m ≡ returned d
      → d.discrepancy_type ≡ kind
  unfolding create_mismatch_discrepancy
  mismatch-type kind account_id p m d h =
      let (volume, _, next) = >>=-eq-returned (decimal p.volume) _ h in
      let (entry, _, last) = >>=-eq-returned (read_field decimal p.entry_price) _ next in
      sym (ap (λ x. x.discrepancy_type) (returned-injective _ _ last))

  compare_with-IsTally :
      (account_id : String) (p : ValidPosition) (volume : F) (found : Option (Mt5Position F))
      (x : List (ValidPosition × Mt5Position F) × List (Discrepancy F))
      → compare_with decimal account_id p volume found ≡ returned x
      → IsTally x 1 (taken found)
  unfolding compare_with
  compare_with-IsTally account_id p volume none x h =
      let (d, made, last) = >>=-eq-returned (create_orphan_discrepancy decimal account_id p) _ h in
      let kind = orphan-type account_id p d made in
      rw (← returned-injective _ _ last, kind) (omega arith, omega arith)
  compare_with-IsTally account_id p volume (some m) x h =
      elim (Bool-cases (not (str_eq m.side p.side))) [
        | inl differs ↦
            let (d, made, last) =
              >>=-eq-returned (create_mismatch_discrepancy decimal side_mismatch account_id p m) _
                (rw differs at h) in
            let kind = mismatch-type side_mismatch account_id p m d made in
            rw (← returned-injective _ _ last, kind) (omega arith, omega arith)
        | inr same ↦ elim (Bool-cases (n.le (n.abs (n.sub m.volume volume)) volume_tolerance)) [
          | inl close ↦
              rw (← returned-injective _ _ (rw (same, close) at h)) (omega arith, omega arith)
          | inr far ↦
              let (d, made, last) =
                >>=-eq-returned (create_mismatch_discrepancy decimal volume_mismatch account_id p m)
                  _ (rw (same, far) at h) in
              let kind = mismatch-type volume_mismatch account_id p m d made in
              rw (← returned-injective _ _ last, kind) (omega arith, omega arith)
        ]
      ]

  match_each-IsTally :
      (account_id : String) (ps : List ValidPosition) (ms : List (Mt5Position F))
      (x : List (ValidPosition × Mt5Position F) × List (Discrepancy F))
      → match_each decimal account_id ps ms ≡ returned x
      → IsTally x (length ps) (length ms)
  unfolding match_each
  match_each-IsTally account_id [] ms x h =
      rw (← returned-injective _ _ h) (unknowns-IsTally account_id ms)
  match_each-IsTally account_id (p ∷ ps) ms x h =
      let found = take_symbol p.symbol ms in
      let (volume, _, next) = >>=-eq-returned (decimal p.volume) _ h in
      let (first, compared, others) =
        >>=-eq-returned (compare_with decimal account_id p volume (found_in found)) _ next in
      let (rest, matched, last) =
        >>=-eq-returned (match_each decimal account_id ps (left_of ms found)) _ others in
      let smaller = match_each-IsTally account_id ps (left_of ms found) rest matched in
      let head = compare_with-IsTally account_id p volume (found_in found) first compared in
      let whole = IsTally-append first rest 1 _ _ _ head smaller in
      rw (← returned-injective _ _ last)
        (omega (arith, whole.0), omega (arith, whole.1, taken-left_of p.symbol ms))

  separate-IsTally :
      (account_id : String) (ps : List LocalPosition)
      (x : List ValidPosition × List (Discrepancy F))
      → separate decimal account_id ps ≡ returned x
      → (a : ℕ) × IsTally ([], x.1) a 0 × (a + length x.0 ≡ length ps)
  unfolding separate
  separate-IsTally account_id [] x h = rw (← returned-injective _ _ h) (0, (refl, refl), refl)
  separate-IsTally account_id (p ∷ ps) x h = elim (Option-cases (validate_position p)) [
    | inl invalid ↦
        let (d, made, next) =
          >>=-eq-returned (invalid_discrepancy decimal account_id p) _ (rw invalid at h) in
        let (rest, separated, last) = >>=-eq-returned (separate decimal account_id ps) _ next in
        let (a, tally, sum) = separate-IsTally account_id ps rest separated in
        let kind = invalid-type account_id p d made in
        rw (← returned-injective _ _ last, kind)
          (a + 1, (omega (arith, tally.0), omega (arith, tally.1)), omega (arith, sum))
    | inr (valid, found) ↦
        let (rest, separated, last) =
          >>=-eq-returned (separate decimal account_id ps) _ (rw found at h) in
        let (a, tally, sum) = separate-IsTally account_id ps rest separated in
        rw (← returned-injective _ _ last) (a, tally, omega (arith, sum))
  ]

  -- Every position of the snapshot and every position of MT5 is counted once.
  pub match_positions-IsTally :
      (account_id : String) (ps : List LocalPosition) (ms : List (Mt5Position F))
      (x : List (ValidPosition × Mt5Position F) × List (Discrepancy F))
      → match_positions decimal account_id ps ms ≡ returned x
      → IsTally x (length ps) (length ms)
  unfolding match_positions
  match_positions-IsTally account_id ps ms x h =
      let (separated, first, next) = >>=-eq-returned (separate decimal account_id ps) _ h in
      let (matched, second, last) =
        >>=-eq-returned (match_each decimal account_id separated.0 ms) _ next in
      let (a, tally, sum) = separate-IsTally account_id ps separated first in
      let whole =
        IsTally-append ([], separated.1) matched a 0 _ _ tally
          (match_each-IsTally account_id separated.0 ms matched second) in
      rw (← returned-injective _ _ last) (omega (arith, whole.0, sum), omega (arith, whole.1))
