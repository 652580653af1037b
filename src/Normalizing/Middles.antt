-- ===== src/Normalizing/Middles.antt =====
-- Medians and quartiles of a list in order, described by how it is split, and those that
-- computeMedian and computeQuartiles of normalizers/robustscaling find by index.
use argocd_autoscaler.Base.{
  ℕ, zero, suc, ◌+◌, ◌-◌, ◌/◌, ◌%◌, ◌≤◌, ◌<◌, ◌≡◌, refl, ap, sym, subst, ◌∙◌, some, List, [], ◌∷◌,
  ◌++◌, arith, Bool-cases, inl, inr, length, length-take, length-drop, get_elem?, get_elem?-some,
  take, drop, ltb, ◌==◌, some_inj,
}
use mathlib.Core.Path.{ap₂}
use argocd_autoscaler.Arithmetic.{Arithmetic}
use argocd_autoscaler.Outcomes.{
  returned, or_panic, returned_inj, >>=-eq_returned, or_panic-eq_returned,
}
use argocd_autoscaler.Normalizing.{
  mean_of, compute_median, compute_quartiles, compute_iqr, lower_half, upper_half,
}

module _ {A : Type 0} where
  split_at :
      (xs : List A) (i : ℕ) {x : A}
      → get_elem? xs i ≡ some x
      → xs ≡ take i xs ++ x ∷ drop (suc i) xs
  split_at [] i h = cc
  split_at (y ∷ xs) zero h = ap (λ z. z ∷ xs) (some_inj h)
  split_at (y ∷ xs) (suc i) h = ap (λ l. y ∷ l) (split_at xs i h)

  split_at_pair :
      (xs : List A) (i : ℕ) {x y : A}
      → get_elem? xs i ≡ some x
      → get_elem? xs (suc i) ≡ some y
      → xs ≡ take i xs ++ x ∷ y ∷ drop (suc (suc i)) xs
  split_at_pair [] i h k = cc
  split_at_pair (z ∷ []) zero h k = cc
  split_at_pair (z ∷ w ∷ xs) zero h k = ap₂ (λ a b. a ∷ b ∷ xs) (some_inj h) (some_inj k)
  split_at_pair (z ∷ xs) (suc i) h k = ap (λ l. z ∷ l) (split_at_pair xs i h k)

  take-append_drop : (i : ℕ) (xs : List A) → xs ≡ take i xs ++ drop i xs
  take-append_drop zero xs = refl
  take-append_drop (suc i) [] = refl
  take-append_drop (suc i) (x ∷ xs) = ap (λ l. x ∷ l) (take-append_drop i xs)

module _ (n : Arithmetic) where
  -- The middle of a list, or the mean of the two numbers in the middle.
  pub data IsMedian : List n.Float → n.Float → Type 0 where
    one :
        (low high : List n.Float) (x : n.Float)
        → length low ≡ length high
        → IsMedian (low ++ x ∷ high) x
    two :
        (low high : List n.Float) (x y : n.Float)
        → length low ≡ length high
        → IsMedian (low ++ x ∷ y ∷ high) (n.div (n.add x y) (n.of_nat 2))

  -- The distance of the medians of the halves, without the number in the middle, if there is one;
  -- and 0 where there are not two numbers.
  pub data IsDistance : List n.Float → n.Float → Type 0 where
    few : (xs : List n.Float) → length xs ≤ 1 → IsDistance xs (n.of_nat 0)
    even :
        (low high : List n.Float) (q1 q3 : n.Float)
        → length low ≡ length high
        → IsMedian low q1
        → IsMedian high q3
        → IsDistance (low ++ high) (n.sub q3 q1)
    odd :
        (low high : List n.Float) (x q1 q3 : n.Float)
        → length low ≡ length high
        → IsMedian low q1
        → IsMedian high q3
        → IsDistance (low ++ x ∷ high) (n.sub q3 q1)

  pub compute_median-IsMedian :
      (xs : List n.Float) {m : n.Float} → compute_median n xs ≡ returned m → IsMedian xs m
  unfolding compute_median
  compute_median-IsMedian xs {m} h = elim (Bool-cases (length xs == 0)) [
    | inl e ↦ ground (arith, rw e at h)
    | inr e ↦ elim (Bool-cases (length xs % 2 == 0)) [
      | inl e' ↦
          let h' : mean_of n (get_elem? xs (length xs / 2 - 1)) (get_elem? xs (length xs / 2))
              ≡ returned m =
            rw (e, e') at h in
          let (x, ex, hx) = >>=-eq_returned (or_panic (get_elem? xs (length xs / 2 - 1))) _ h' in
          let (y, ey, hy) = >>=-eq_returned (or_panic (get_elem? xs (length xs / 2))) _ hx in
          let next : length xs / 2 ≡ suc (length xs / 2 - 1) = ground arith in
          let split =
            split_at_pair xs (length xs / 2 - 1) (or_panic-eq_returned _ ex)
              (ap (get_elem? xs) (sym next) ∙ or_panic-eq_returned _ ey) in
          let low = take (length xs / 2 - 1) xs in
          let high = drop (suc (suc (length xs / 2 - 1))) xs in
          let balanced : length low ≡ length high = ground (
            arith,
            length-take (length xs / 2 - 1) xs (omega arith),
            length-drop (suc (suc (length xs / 2 - 1))) xs,
          ) in
          subst (λ l. IsMedian l m) (sym split)
            (subst (IsMedian (low ++ x ∷ y ∷ high)) (returned_inj hy) (two low high x y balanced))
      | inr e' ↦
          let at = or_panic-eq_returned (get_elem? xs (length xs / 2)) (rw (e, e') at h) in
          let low = take (length xs / 2) xs in
          let high = drop (suc (length xs / 2)) xs in
          let balanced : length low ≡ length high = ground (
            arith,
            length-take (length xs / 2) xs (omega arith),
            length-drop (suc (length xs / 2)) xs,
          ) in
          subst (λ l. IsMedian l m) (sym (split_at xs (length xs / 2) at)) (one low high m balanced)
    ]
  ]

  halves-IsDistance :
      (xs : List n.Float) (q1 q3 : n.Float)
      → 1 < length xs
      → IsMedian (lower_half n xs) q1
      → IsMedian (upper_half n xs) q3
      → IsDistance xs (n.sub q3 q1)
  halves-IsDistance xs q1 q3 h m1 m3 = elim (Bool-cases (length xs % 2 == 0)) [
    | inl e ↦
        let low = take (length xs / 2) xs in
        let high = drop (length xs / 2) xs in
        let balanced : length low ≡ length high =
          ground
            (arith, length-take (length xs / 2) xs (omega arith), length-drop (length xs / 2) xs) in
        subst (λ l. IsDistance l (n.sub q3 q1)) (sym (take-append_drop (length xs / 2) xs))
          (even low high q1 q3 balanced m1 (rw e at m3))
    | inr e ↦
        let (x, at) = get_elem?-some xs (length xs / 2) (omega arith) in
        let low = take (length xs / 2) xs in
        let high = drop (suc (length xs / 2)) xs in
        let balanced : length low ≡ length high = ground (
          arith,
          length-take (length xs / 2) xs (omega arith),
          length-drop (suc (length xs / 2)) xs,
        ) in
        let next : length xs / 2 + 1 ≡ suc (length xs / 2) = omega arith in
        subst (λ l. IsDistance l (n.sub q3 q1)) (sym (split_at xs (length xs / 2) at))
          (odd low high x q1 q3 balanced m1
            (subst (λ k. IsMedian (drop k xs) q3) next (rw e at m3)))
  ]

  pub compute_iqr-IsDistance :
      (xs : List n.Float) {iqr : n.Float} → compute_iqr n xs ≡ returned iqr → IsDistance xs iqr
  unfolding compute_iqr compute_quartiles
  compute_iqr-IsDistance xs {iqr} h = elim (Bool-cases (ltb 1 (length xs))) [
    | inr e ↦ subst (IsDistance xs) (returned_inj (rw e at h)) (few xs (ground (arith, e)))
    | inl e ↦
        let (q, eq, same) = >>=-eq_returned (compute_quartiles n xs) _ (rw e at h) in
        let (q1, e1, h') = >>=-eq_returned (compute_median n (lower_half n xs)) _ eq in
        let (q3, e3, h'') = >>=-eq_returned (compute_median n (upper_half n xs)) _ h' in
        let m1 = compute_median-IsMedian (lower_half n xs) e1 in
        let m3 = compute_median-IsMedian (upper_half n xs) e3 in
        let distance : n.sub q3 q1 ≡ iqr =
          ap (λ p. n.sub p.1 p.0) (returned_inj h'') ∙ returned_inj same in
        subst (IsDistance xs) distance (halves-IsDistance xs q1 q3 (ground (arith, e)) m1 m3)
  ]
