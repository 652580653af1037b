-- ===== src/Normalizing/Quartiles.antt =====
-- The quartiles of values in order, and values scaled by their distance.
use argocd_autoscaler.Base.{
  ℕ, zero, suc, ◌+◌, ◌-◌, ◌/◌, ◌%◌, ◌≤◌, ◌≡◌, subst, false, List, [], ◌∷◌, arith, Bool-cases, inl,
  inr, All, All-map, All-get_elem?, All-drop, All-make, All-zip, length, get_elem?, take, drop, ltb,
  ◌==◌,
}
use argocd_autoscaler.Arithmetic.{Arithmetic, IsRounded}
use argocd_autoscaler.Sorting.{IsOrderedBy}
use argocd_autoscaler.LoadIndexing.{Metric}
use argocd_autoscaler.Outcomes.{returned, or_panic}
use argocd_autoscaler.Normalizing.{
  mean_of, compute_median, compute_quartiles, compute_iqr, lower_half, upper_half, scaled,
}
use argocd_autoscaler.Outcomes.{returned_inj, >>=-eq_returned, or_panic-eq_returned}

module _ (n : Arithmetic) where
  -- A property that the mean of two numbers keeps holds of the median, where it holds of all.
  compute_median-closed :
      (P : n.Float → Type 0)
      → ((x y : n.Float) → P x → P y → P (n.div (n.add x y) (n.of_nat 2)))
      → (xs : List n.Float) {m : n.Float} → All P xs
      → compute_median n xs ≡ returned m
      → P m
  unfolding compute_median
  compute_median-closed P mean xs {m} a h = elim (Bool-cases (length xs == 0)) [
    | inl e ↦ ground (arith, rw e at h)
    | inr e ↦ elim (Bool-cases (length xs % 2 == 0)) [
      | inl e' ↦
          let h' : mean_of n (get_elem? xs (length xs / 2 - 1)) (get_elem? xs (length xs / 2))
              ≡ returned m =
            rw (e, e') at h in
          let (x, ex, hx) = >>=-eq_returned (or_panic (get_elem? xs (length xs / 2 - 1))) _ h' in
          let (y, ey, hy) = >>=-eq_returned (or_panic (get_elem? xs (length xs / 2))) _ hx in
          subst P (returned_inj hy) (
            mean x y (All-get_elem? P xs (length xs / 2 - 1) a (or_panic-eq_returned _ ex))
              (All-get_elem? P xs (length xs / 2) a (or_panic-eq_returned _ ey)))
      | inr e' ↦ All-get_elem? P xs (length xs / 2) a (or_panic-eq_returned _ (rw (e, e') at h))
    ]
  ]

  -- In a list in order, what stands before is at most what stands after.
  ordered_split :
      (i j : ℕ) (xs : List n.Float)
      → i ≤ j
      → IsOrderedBy n.lt xs
      → All (λ u. All (λ a. n.lt u a ≡ false) (take i xs)) (drop j xs)
  ordered_split zero j xs h o = All-make _ (drop j xs) (λ u. tt)
  ordered_split (suc i) zero xs h o = absurd (omega arith)
  ordered_split (suc i) (suc j) [] h o = tt
  ordered_split (suc i) (suc j) (x ∷ xs) h o =
      All-zip _ _ (drop j xs) (All-drop _ j xs o.0) (ordered_split i j xs (omega arith) o.1)

  halves_lem :
      (xs : List n.Float)
      → IsOrderedBy n.lt xs
      → All (λ u. All (λ a. n.lt u a ≡ false) (lower_half n xs)) (upper_half n xs)
  halves_lem xs o = elim (Bool-cases (length xs % 2 == 0)) [
    | inl e ↦ rw e (ordered_split (length xs / 2) (length xs / 2) xs (omega arith) o)
    | inr e ↦ rw e (ordered_split (length xs / 2) (length xs / 2 + 1) xs (omega arith) o)
  ]

  module _ (laws : IsRounded n) where
    quartiles_lem :
        (xs : List n.Float) {q : n.Float × n.Float}
        → IsOrderedBy n.lt xs
        → compute_quartiles n xs ≡ returned q
        → n.lt q.1 q.0 ≡ false
    unfolding compute_quartiles
    quartiles_lem xs {q} o h =
        let (q1, e1, h') = >>=-eq_returned (compute_median n (lower_half n xs)) _ h in
        let (q3, e3, h'') = >>=-eq_returned (compute_median n (upper_half n xs)) _ h' in
        let below =
          All-map (upper_half n xs)
            (λ u a.
              compute_median-closed (λ x. n.lt u x ≡ false) (λ x y k l. laws.mean_most x y u k l)
                (lower_half n xs) a e1)
            (halves_lem xs o) in
        subst (λ p. n.lt p.1 p.0 ≡ false) (returned_inj h'')
          (compute_median-closed (λ x. n.lt x q1 ≡ false) (λ x y k l. laws.mean_least x y q1 k l)
            (upper_half n xs) below e3)

    -- The distance of the quartiles of a list in order is not negative.
    pub compute_iqr-nonnegative :
        (xs : List n.Float) {iqr : n.Float}
        → IsOrderedBy n.lt xs
        → compute_iqr n xs ≡ returned iqr
        → n.lt iqr (n.of_nat 0) ≡ false
    unfolding compute_iqr
    compute_iqr-nonnegative xs {iqr} o h = elim (Bool-cases (ltb 1 (length xs))) [
      | inl e ↦
          let (q, eq, same) = >>=-eq_returned (compute_quartiles n xs) _ (rw e at h) in
          subst (λ x. n.lt x (n.of_nat 0) ≡ false) (returned_inj same)
            (laws.sub_nonnegative q.1 q.0 (quartiles_lem xs o eq))
      | inr e ↦
          subst (λ x. n.lt x (n.of_nat 0) ≡ false) (returned_inj (rw e at h))
            (laws.ordered.lt_irrefl (n.of_nat 0))
    ]

    pub scaled_mono :
        (median iqr : n.Float) (x x' : Metric n)
        → n.lt iqr (n.of_nat 0) ≡ false
        → n.lt (n.as_float x'.value) (n.as_float x.value) ≡ false
        → n.lt (scaled n median iqr x') (scaled n median iqr x) ≡ false
    scaled_mono median iqr x x' h k = elim (Bool-cases (n.eq iqr (n.of_nat 0))) [
      | inl e ↦ rw e (laws.ordered.lt_irrefl (n.of_nat 0))
      | inr e ↦ rw e (
          laws.div_mono (n.sub (n.as_float x'.value) median) (n.sub (n.as_float x.value) median) iqr
            (laws.sub_mono (n.as_float x'.value) (n.as_float x.value) median k) h e)
    ]
