-- ===== src/Sorting.antt =====
-- The packages `sort` and `slices`: what a sorting algorithm promises of a list, for the test
-- `less x y`, and insertion sort as one that keeps the promise.
use argocd_autoscaler.Base.{
  ◌≡◌, Bool, true, false, List, [], ◌∷◌, Perm, if◌then◌else◌, All, Bool-cases, inl, inr,
}
use mathlib.Core.List.Perm

module _ {A : Type 0} (less : A → A → Bool) where
  -- No element is less than one before it.
  abbrev pub IsOrderedBy : List A → Type 0
  IsOrderedBy [] = Unit
  IsOrderedBy (x ∷ xs) = All (λ y. less y x ≡ false) xs × IsOrderedBy xs

  -- The documentation of `sort.Sort`: a rearrangement in order, which need not be stable.
  pub record IsSort (sort : List A → List A) : Type 0 where
    pub permutes : (xs : List A) → Perm (sort xs) xs
    pub orders : (xs : List A) → IsOrderedBy (sort xs)

  -- A test that `sort` can work with.
  pub record IsLess : Type 0 where
    pub asymm : (x y : A) → less x y ≡ true → less y x ≡ false
    pub cotrans : (x y z : A) → less x y ≡ false → less y z ≡ false → less x z ≡ false

  unfoldable pub insert : A → List A → List A
  insert x [] = x ∷ []
  insert x (y ∷ ys) = if less y x then y ∷ insert x ys else x ∷ y ∷ ys

  unfoldable pub insertion_sort : List A → List A
  unfolding insert
  insertion_sort [] = []
  insertion_sort (x ∷ xs) = insert x (insertion_sort xs)

  insert-perm : (x : A) (ys : List A) → Perm (insert x ys) (x ∷ ys)
  unfolding insert
  insert-perm x [] = Perm.refl (x ∷ [])
  insert-perm x (y ∷ ys) = elim (Bool-cases (less y x)) [
    | inl e ↦ rw e (Perm.trans (Perm.cons y (insert-perm x ys)) (Perm.swap x y ys))
    | inr e ↦ rw e (Perm.refl (x ∷ y ∷ ys))
  ]

  insertion_sort-perm : (xs : List A) → Perm (insertion_sort xs) xs
  unfolding insertion_sort
  insertion_sort-perm [] = Perm.refl []
  insertion_sort-perm (x ∷ xs) =
      Perm.trans (insert-perm x (insertion_sort xs)) (Perm.cons x (insertion_sort-perm xs))

  All-insert :
      (y x : A) (ys : List A)
      → less x y ≡ false
      → All (λ z. less z y ≡ false) ys
      → All (λ z. less z y ≡ false) (insert x ys)
  unfolding insert
  All-insert y x [] h a = (h, tt)
  All-insert y x (z ∷ ys) h a = elim (Bool-cases (less z x)) [
    | inl e ↦ rw e (a.0, All-insert y x ys h a.1)
    | inr e ↦ rw e (h, a)
  ]

  module _ (laws : IsLess) where
    All-cotrans :
        (x y : A) (ys : List A)
        → less y x ≡ false
        → All (λ z. less z y ≡ false) ys
        → All (λ z. less z x ≡ false) ys
    All-cotrans x y [] h a = tt
    All-cotrans x y (z ∷ ys) h a = (laws.cotrans z y x a.0 h, All-cotrans x y ys h a.1)

    insert-IsOrderedBy : (x : A) (ys : List A) → IsOrderedBy ys → IsOrderedBy (insert x ys)
    unfolding insert
    insert-IsOrderedBy x [] a = (tt, tt)
    insert-IsOrderedBy x (y ∷ ys) a = elim (Bool-cases (less y x)) [
      | inl e ↦ rw e (All-insert y x ys (laws.asymm y x e) a.0, insert-IsOrderedBy x ys a.1)
      | inr e ↦ rw e ((e, All-cotrans x y ys e a.0), a)
    ]

    insertion_sort-IsOrderedBy : (xs : List A) → IsOrderedBy (insertion_sort xs)
    unfolding insertion_sort
    insertion_sort-IsOrderedBy [] = tt
    insertion_sort-IsOrderedBy (x ∷ xs) =
        insert-IsOrderedBy x (insertion_sort xs) (insertion_sort-IsOrderedBy xs)

    pub insertion_sort-IsSort : IsSort insertion_sort
    insertion_sort-IsSort = record {
      permutes = insertion_sort-perm;
      orders = insertion_sort-IsOrderedBy;
    }
