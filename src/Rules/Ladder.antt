-- ===== src/Rules/Ladder.antt =====
-- The warning ladder that the threshold rules share:
-- `for w in sorted(levels, reverse=True): if usage >= w: ...`.
use td_sandboxed.Base.{
  ◌≡◌, refl, false, Option, none, some, List, [], ◌∷◌, inl, inr, arith, All, Some, All-map,
  Bool-cases, if◌then◌else◌,
}
use td_sandboxed.Base.Sort.{
  sorted, IsSortedBy, sorted-All_back, sorted-Some_back, sorted-IsSortedBy,
}
use td_sandboxed.Base.Number.{Number, IsOrdered, IsNumber, AtMost}

module _ {F : Type 0} ⦃n : Number F⦄ where
  -- `sorted(levels)`
  unfoldable pub ascending : List F → List F
  unfolding sorted
  ascending = sorted (λ x y. n.lt x y)

  -- `sorted(levels, reverse=True)`, which keeps equal elements in their order too
  unfoldable pub descending : List F → List F
  unfolding sorted
  descending = sorted (λ x y. n.lt y x)

  unfoldable pub first_reached : F → List F → Option F
  first_reached usage [] = none
  first_reached usage (w ∷ ws) = if n.le w usage then some w else first_reached usage ws

  -- What a search of the ladder at `usage` has found in `levels`: the highest level that the usage
  -- reaches, or none and then no level is reached.
  abbrev pub IsHighest : F → List F → Option F → Type 0
  IsHighest usage levels none = All (λ v. n.le v usage ≡ false) levels
  IsHighest usage levels (some w) =
      AtMost w usage × Some (λ v. v ≡ w) levels × All (λ v. AtMost v usage → AtMost v w) levels

  IsHighest-skip :
      (usage w : F) (ws : List F) (found : Option F)
      → n.le w usage ≡ false
      → IsHighest usage ws found
      → IsHighest usage (w ∷ ws) found
  IsHighest-skip usage w ws none e h = (e, h)
  IsHighest-skip usage w ws (some v) e h = (h.0, inr h.1, (λ reached. cc, h.2))

  module _ (laws : IsOrdered F) where
    first_reached-IsHighest :
        (usage : F) (ws : List F)
        → IsSortedBy (λ x y. AtMost y x) ws
        → IsHighest usage ws (first_reached usage ws)
    unfolding first_reached
    first_reached-IsHighest usage [] s = tt
    first_reached-IsHighest usage (w ∷ ws) s = elim (Bool-cases (n.le w usage)) [
      | inl e ↦
          rw e (
            (
              e,
              inl refl,
              (λ _. (laws.le_numbers w usage e).0, All-map (λ v below _. below) ws s.0),
            ))
      | inr e ↦ rw e (IsHighest-skip usage w ws _ e (first_reached-IsHighest usage ws s.1))
    ]

    descending-IsSortedBy :
        (levels : List F) → All IsNumber levels → IsSortedBy (λ x y. AtMost y x) (descending levels)
    unfolding descending
    descending-IsSortedBy levels numbers =
        sorted-IsSortedBy (λ x y. n.lt y x) (λ x y. AtMost y x) IsNumber
          (λ x y p q e. ground (arith, laws.lt_of_numbers y x q p, laws.le_total x y p q))
          (λ x y p q e. ground (arith, laws.lt_of_numbers y x q p))
          (λ x y z p q. laws.le_trans z y x q p) levels numbers

    IsHighest-back :
        (usage : F) (levels : List F) (found : Option F)
        → IsHighest usage (descending levels) found
        → IsHighest usage levels found
    unfolding descending
    IsHighest-back usage levels none h = sorted-All_back (λ x y. n.lt y x) _ levels h
    IsHighest-back usage levels (some w) h = (
      h.0,
      sorted-Some_back (λ x y. n.lt y x) _ levels h.1,
      sorted-All_back (λ x y. n.lt y x) _ levels h.2,
    )

    -- The search from the top finds the highest level that the usage reaches.
    pub descending-IsHighest :
        (usage : F) (levels : List F)
        → All IsNumber levels
        → IsHighest usage levels (first_reached usage (descending levels))
    descending-IsHighest usage levels numbers =
        IsHighest-back usage levels _
          (first_reached-IsHighest usage (descending levels) (descending-IsSortedBy levels numbers))

    -- A level that is reached at some usage is reached at every higher one.
    pub not_IsHighest-none :
        (usage more level : F) (levels : List F)
        → AtMost usage more
        → AtMost level usage
        → Some (λ v. v ≡ level) levels
        → IsHighest more levels none
        → ⊥
    not_IsHighest-none usage more level [] up reached found h = found
    not_IsHighest-none usage more level (v ∷ vs) up reached (inl same) h =
        let there = laws.le_trans level usage more reached up in cc (h.0)
    not_IsHighest-none usage more level (v ∷ vs) up reached (inr found) h =
        not_IsHighest-none usage more level vs up reached found h.1
