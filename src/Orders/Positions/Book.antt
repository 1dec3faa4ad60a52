-- ===== src/Orders/Positions/Book.antt =====
-- The tracker keeps one position for each account and symbol, filed under its own account and symbol.
use td_sandboxed.Base.{
  ◌≡◌, ◌⊎◌, ◌∙◌, refl, ap, inl, inr, String, eq_iff, true, Option, none, some, [], ◌∷◌, ◌++◌,
  length, arith, if◌then◌else◌, Bool-cases, Option-cases,
}
use td_sandboxed.Base.Number.{Number}
use td_sandboxed.Orders.Positions.{
  FilledOrder, Position, Key, same_key, Tracker, get_position, has_position, position_of,
  open_position, without, close_position, of_account, positions, get_all_positions, count_of,
  get_position_count,
}

pub same_key_self : (k : Key) → same_key k k ≡ true
same_key_self (a, s) = ground (arith, eq_iff a a, eq_iff s s)

same_key_eq : (j k : Key) → same_key j k ≡ true → j ≡ k
same_key_eq (a, s) (b, t) h = ground (arith, eq_iff a b, eq_iff s t, h)

same_key_sym : (j k : Key) → same_key j k ≡ same_key k j
same_key_sym (a, s) (b, t) = ground (arith, eq_iff a b, eq_iff b a, eq_iff s t, eq_iff t s)

module _ {F : Type 0} where
  -- Every position is filed under its own account and symbol, and no key stands twice.
  unfoldable pub IsBook : Tracker F → Type 0
  IsBook [] = Unit
  IsBook ((k, p) ∷ d) =
      (p.account_id ≡ k.0) × (p.symbol ≡ k.1) × (get_position k d ≡ none) × IsBook d

  pub get-snoc :
      (k j : Key) (p : Position F) (d : Tracker F)
      → get_position k (d ++ ((j, p) ∷ []))
        ≡ elim (get_position k d) as (λ _. Option (Position F)) [
          | some q ↦ some q
          | none ↦ if same_key j k then some p else none
        ]
  unfolding get_position
  get-snoc k j p [] = refl
  get-snoc k j p ((i, q) ∷ d) = elim (Bool-cases (same_key i k)) [
    | inl e ↦ rw e refl
    | inr e ↦ rw e (get-snoc k j p d)
  ]

  pub without-snoc :
      (k : Key) (p : Position F) (d : Tracker F)
      → get_position k d ≡ none
      → without k (d ++ ((k, p) ∷ [])) ≡ d
  unfolding get_position
  without-snoc k p [] h = rw (same_key_self k) refl
  without-snoc k p ((i, q) ∷ d) h = elim (Bool-cases (same_key i k)) [
    | inl e ↦ ground (arith, rw (get_position, e) at h)
    | inr e ↦ rw e (ap (λ l. (i, q) ∷ l) (without-snoc k p d (rw (get_position, e) at h)))
  ]

  get-without :
      (j k : Key) (d : Tracker F) → get_position j d ≡ none → get_position j (without k d) ≡ none
  unfolding get_position
  get-without j k [] h = refl
  get-without j k ((i, q) ∷ d) h = elim (Bool-cases (same_key i j)) [
    | inl e ↦ ground (arith, rw (get_position, e) at h)
    | inr e ↦ elim (Bool-cases (same_key i k)) [
      | inl e' ↦ rw e' (rw (get_position, e) at h)
      | inr e' ↦ rw (e', e) (get-without j k d (rw (get_position, e) at h))
    ]
  ]

  without-IsBook : (k : Key) (d : Tracker F) → IsBook d → IsBook (without k d)
  unfolding IsBook
  without-IsBook k [] h = tt
  without-IsBook k ((i, q) ∷ d) (account, symbol, new, rest) = elim (Bool-cases (same_key i k)) [
    | inl e ↦ rw e rest
    | inr e ↦ rw e ((account, symbol, get-without i k d new, without-IsBook k d rest))
  ]

  snoc-IsBook :
      (k : Key) (p : Position F) (d : Tracker F)
      → p.account_id ≡ k.0
      → p.symbol ≡ k.1
      → get_position k d ≡ none
      → IsBook d
      → IsBook (d ++ ((k, p) ∷ []))
  unfolding IsBook get_position
  snoc-IsBook k p [] account symbol new h = (account, symbol, new, tt)
  snoc-IsBook k p ((i, q) ∷ d) account symbol new (own, own', fresh, rest) =
      elim (Bool-cases (same_key i k)) [
        | inl e ↦ ground (arith, rw (get_position, e) at new)
        | inr e ↦ (
          own,
          own',
          get-snoc i k p d ∙ rw (fresh, same_key_sym k i, e) refl,
          snoc-IsBook k p d account symbol (rw (get_position, e) at new) rest,
        )
      ]

  count-length : (a : String) (d : Tracker F) → count_of a d ≡ length (of_account a d)
  count-length a [] = refl
  count-length a ((k, p) ∷ d) = ground (arith, count-length a d)

  positions-length : (d : Tracker F) → length d ≡ length (positions d)
  positions-length [] = refl
  positions-length (e ∷ d) = ground (arith, positions-length d)

  -- The number of positions that the tracker reports, of one account or of all, is the length of
  -- the list that it gives for the same question.
  pub get_position_count-length :
      (account : Option String) (d : Tracker F)
      → get_position_count account d ≡ length (get_all_positions account d)
  unfolding get_position_count get_all_positions
  get_position_count-length none d = positions-length d
  get_position_count-length (some a) d = count-length a d

  without-get : (k : Key) (d : Tracker F) → IsBook d → get_position k (without k d) ≡ none
  unfolding IsBook get_position
  without-get k [] h = refl
  without-get k ((i, q) ∷ d) (own, own', fresh, rest) = elim (Bool-cases (same_key i k)) [
    | inl e ↦ rw e (rw (same_key_eq i k e) at fresh)
    | inr e ↦ rw (e, e) (without-get k d rest)
  ]

  -- Closing a position keeps the positions filed under their own keys without repetition, returns
  -- the position that was there, and leaves none there.
  pub close_position-IsBook :
      (k : Key) (d : Tracker F)
      → IsBook d
      → IsBook (close_position k d).1
        × ((close_position k d).0 ≡ get_position k d)
        × (get_position k (close_position k d).1 ≡ none)
  unfolding close_position
  close_position-IsBook k d h = (without-IsBook k d h, refl, without-get k d h)

module _ {F : Type 0} ⦃n : Number F⦄ where
  -- Opening a position in a tracker whose positions are filed under their own keys without
  -- repetition raises exactly where the account has a position in the symbol. Otherwise it keeps
  -- the tracker so, files the position, and closing it gives back the position and the tracker
  -- before.
  pub open_position-IsBook :
      (o : FilledOrder F) (d : Tracker F)
      → IsBook d
      → (has_position (o.account_id, o.symbol) d ≡ true) × (open_position o d ≡ none)
        ⊎ ((p : Position F) × (d' : Tracker F) × (open_position o d ≡ some (p, d'))
            × IsBook d'
            × (get_position (o.account_id, o.symbol) d' ≡ some p)
            × (close_position (o.account_id, o.symbol) d' ≡ (some p, d)))
  unfolding open_position has_position close_position
  open_position-IsBook o d h =
      let k : Key = (o.account_id, o.symbol) in
      elim (Option-cases (get_position k d)) [
        | inr (q, there) ↦ inl (rw (open_position, has_position, there) (refl, refl))
        | inl free ↦
            let found : get_position k (d ++ ((k, position_of o) ∷ [])) ≡ some (position_of o) =
              get-snoc k k (position_of o) d ∙ rw (free, same_key_self k) refl in
            inr (
              position_of o,
              d ++ ((k, position_of o) ∷ []),
              rw (open_position, has_position, free) refl,
              snoc-IsBook k (position_of o) d refl refl free h,
              found,
              rw (found, without-snoc k (position_of o) d free) refl,
            )
      ]
