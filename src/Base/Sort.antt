-- ===== src/Base/Sort.antt =====
-- Python's `sorted`: a stable sort by a strict test `before`, as insertion behind equal elements.
use mathlib.Core.List.Perm
use mathlib.Core.List.{List, [], ◌∷◌, ◌++◌, Perm, append-nil, perm_middle}
use mathlib.Core.Path.{◌≡◌}
use mathlib.Core.Logic.{inl, inr}
use mathlib.Core.Logic.{◌⊎◌, inl, inr}
use mathlib.Core.Bool.{Bool, true, false}
use native.Mathlib.Omega.{arith}
use td_sandboxed.Base.Tests.{if◌then◌else◌, Bool-cases}
use td_sandboxed.Base.Lists.{All, Some, All-map}

module _ {ℓ} {A : Type ℓ} where
  -- Each element stands in relation `R` to all that follow it.
  abbrev pub IsSortedBy : (A → A → Type 0) → List A → Type 0
  IsSortedBy R [] = Unit
  IsSortedBy R (x ∷ xs) = All (R x) xs × IsSortedBy R xs

module _ {ℓ} {A : Type ℓ} (before : A → A → Bool) where
  unfoldable pub insert : A → List A → List A
  insert x [] = x ∷ []
  insert x (y ∷ ys) = if before x y then x ∷ y ∷ ys else y ∷ insert x ys

  unfoldable pub sort_onto : List A → List A → List A
  unfolding insert
  sort_onto acc [] = acc
  sort_onto acc (x ∷ xs) = sort_onto (insert x acc) xs

  unfoldable pub sorted : List A → List A
  unfolding sort_onto
  sorted xs = sort_onto [] xs

  insert-perm : (x : A) (ys : List A) → Perm (insert x ys) (x ∷ ys)
  unfolding insert
  insert-perm x [] = Perm.refl _
  insert-perm x (y ∷ ys) = elim (Bool-cases (before x y)) [
    | inl e ↦ rw e (Perm.refl _)
    | inr e ↦ rw e (Perm.trans (Perm.cons y (insert-perm x ys)) (Perm.swap x y ys))
  ]

  sort_onto-perm : (acc xs : List A) → Perm (sort_onto acc xs) (acc ++ xs)
  unfolding sort_onto
  sort_onto-perm acc [] = rw append-nil (Perm.refl acc)
  sort_onto-perm acc (x ∷ xs) =
      Perm.trans (sort_onto-perm (insert x acc) xs)
        (Perm.trans (Perm.append_right xs (insert-perm x acc)) (Perm.symm (perm_middle acc xs)))

  -- Sorting rearranges the list and neither drops nor repeats an element.
  pub sorted-perm : (xs : List A) → Perm (sorted xs) xs
  unfolding sorted
  sorted-perm xs = sort_onto-perm [] xs

  module _ (P : A → Type 0) where
    insert-All : (x : A) (ys : List A) → P x → All P ys → All P (insert x ys)
    unfolding insert
    insert-All x [] p h = (p, tt)
    insert-All x (y ∷ ys) p h = ground (arith, insert-All x ys p h.1)

    sort_onto-All : (acc xs : List A) → All P acc → All P xs → All P (sort_onto acc xs)
    unfolding sort_onto
    sort_onto-All acc [] a h = a
    sort_onto-All acc (x ∷ xs) a h = sort_onto-All (insert x acc) xs (insert-All x acc h.0 a) h.1

    pub sorted-All : (xs : List A) → All P xs → All P (sorted xs)
    unfolding sorted
    sorted-All xs h = sort_onto-All [] xs tt h

    insert-All_back : (x : A) (ys : List A) → All P (insert x ys) → P x × All P ys
    unfolding insert
    insert-All_back x [] h = (h.0, tt)
    insert-All_back x (y ∷ ys) h = ground (arith, insert-All_back x ys)

    sort_onto-All_back : (acc xs : List A) → All P (sort_onto acc xs) → All P acc × All P xs
    unfolding sort_onto
    sort_onto-All_back acc [] h = (h, tt)
    sort_onto-All_back acc (x ∷ xs) h =
        let (a, b) = sort_onto-All_back (insert x acc) xs h in
        let (c, d) = insert-All_back x acc a in (d, (c, b))

    pub sorted-All_back : (xs : List A) → All P (sorted xs) → All P xs
    unfolding sorted
    sorted-All_back xs h = (sort_onto-All_back [] xs h).1

    insert-Some_back : (x : A) (ys : List A) → Some P (insert x ys) → P x ⊎ Some P ys
    unfolding insert
    insert-Some_back x [] h = h
    insert-Some_back x (y ∷ ys) h = ground (arith, insert-Some_back x ys)

    sort_onto-Some_back : (acc xs : List A) → Some P (sort_onto acc xs) → Some P acc ⊎ Some P xs
    unfolding sort_onto
    sort_onto-Some_back acc [] h = inl h
    sort_onto-Some_back acc (x ∷ xs) h = elim (sort_onto-Some_back (insert x acc) xs h) [
      | inr later ↦ inr (inr later)
      | inl early ↦ elim (insert-Some_back x acc early) [ inl p ↦ inr (inl p) | inr old ↦ inl old ]
    ]

    pub sorted-Some_back : (xs : List A) → Some P (sorted xs) → Some P xs
    unfolding sorted
    sorted-Some_back xs h = elim (sort_onto-Some_back [] xs h) [ inl e ↦ absurd e | inr p ↦ p ]

  module _ (R : A → A → Type 0) (P : A → Type 0)
      (R_before : (x y : A) → P x → P y → before x y ≡ true → R x y)
      (R_after : (x y : A) → P x → P y → before x y ≡ false → R y x)
      (R_trans : (x y z : A) → R x y → R y z → R x z) where
    insert-IsSortedBy :
        (x : A) (ys : List A) → P x → All P ys → IsSortedBy R ys → IsSortedBy R (insert x ys)
    unfolding insert
    insert-IsSortedBy x [] p q s = (tt, tt)
    insert-IsSortedBy x (y ∷ ys) p q s = elim (Bool-cases (before x y)) [
      | inl e ↦
          let first = R_before x y p q.0 e in
          rw e ((first, All-map (λ z h. R_trans x y z first h) ys s.0), s)
      | inr e ↦
          rw e (insert-All (R y) x ys (R_after x y p q.0 e) s.0, insert-IsSortedBy x ys p q.1 s.1)
    ]

    sort_onto-IsSortedBy :
        (acc xs : List A)
        → All P acc
        → All P xs
        → IsSortedBy R acc
        → IsSortedBy R (sort_onto acc xs)
    unfolding sort_onto
    sort_onto-IsSortedBy acc [] a h s = s
    sort_onto-IsSortedBy acc (x ∷ xs) a h s =
        sort_onto-IsSortedBy (insert x acc) xs (insert-All P x acc h.0 a) h.1
          (insert-IsSortedBy x acc h.0 a s)

    pub sorted-IsSortedBy : (xs : List A) → All P xs → IsSortedBy R (sorted xs)
    unfolding sorted
    sorted-IsSortedBy xs h = sort_onto-IsSortedBy [] xs tt h tt
