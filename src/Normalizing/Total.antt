-- ===== src/Normalizing/Total.antt =====
-- Where Normalize comes to: it does not panic without an offset, and it succeeds where numbers parse.
use argocd_autoscaler.Base.{
  ◌+◌, ◌-◌, ◌/◌, ◌%◌, ◌<◌, ◌≡◌, ◌≢◌, refl, ap, sym, subst, ◌∙◌, none, some, Option, List, [], ◌∷◌,
  arith, Bool-cases, inl, inr, All, All-map, All-Permᴰ, length, get_elem?-some, Perm, length-perm,
  length-map, length-take, length-drop, ltb, ◌==◌,
}
use mathlib.Core.List.{Permᴰ}
use mathlib.Core.List.Permᴰ
use argocd_autoscaler.Arithmetic.{Arithmetic}
use argocd_autoscaler.Maps.{entries-found}
use argocd_autoscaler.Grouping.{nonempty_lem, group_by-IsGrouping}
use argocd_autoscaler.LoadIndexing.{Metric, ById}
use argocd_autoscaler.LoadIndexing.Groups.{of_id}
use argocd_autoscaler.Outcomes.{returned, panicked, or_fail, or_panic}
use argocd_autoscaler.Normalizing.{
  scaled, scale_one, scale_all, compute_median, compute_quartiles, compute_iqr, lower_half,
  upper_half, sorted_values, normalize_group, normalize_groups, group_by_id, shift, shift_all,
  normalize, find_range, no_range, offset_of, shift_one,
}
use argocd_autoscaler.Outcomes.{Survives, Returns, >>=-Survives, >>=-Returns}

module _ (n : Arithmetic) where
  -- A slice that is not empty has a median.
  pub compute_median-returned :
      (xs : List n.Float) → 0 < length xs → (x : n.Float) × (compute_median n xs ≡ returned x)
  unfolding compute_median
  compute_median-returned xs h =
      let middle = length xs / 2 in
      let (a, ea) = get_elem?-some xs (middle - 1) (omega arith) in
      let (b, eb) = get_elem?-some xs middle (omega arith) in
      elim (Bool-cases (length xs % 2 == 0)) [
        | inl e ↦ (n.div (n.add a b) (n.of_nat 2), ground (arith, ea, eb, e))
        | inr e ↦ (b, ground (arith, eb, e))
      ]

  lower_half_lem : (xs : List n.Float) → 1 < length xs → 0 < length (lower_half n xs)
  lower_half_lem xs h = omega (arith, length-take (length xs / 2) xs (omega arith))

  upper_half_lem : (xs : List n.Float) → 1 < length xs → 0 < length (upper_half n xs)
  upper_half_lem xs h = elim (Bool-cases (length xs % 2 == 0)) [
    | inl e ↦ rw e (omega (arith, length-drop (length xs / 2) xs))
    | inr e ↦ rw e (ground (arith, e, length-drop (length xs / 2 + 1) xs))
  ]

  pub compute_iqr-returned : (xs : List n.Float) → (x : n.Float) × (compute_iqr n xs ≡ returned x)
  unfolding compute_iqr compute_quartiles
  compute_iqr-returned xs = elim (Bool-cases (ltb 1 (length xs))) [
    | inl e ↦
        let (q1, e1) =
          compute_median-returned (lower_half n xs) (lower_half_lem xs (ground (arith, e))) in
        let (q3, e3) =
          compute_median-returned (upper_half n xs) (upper_half_lem xs (ground (arith, e))) in
        (n.sub q3 q1, rw (e, e1, e3) refl)
    | inr e ↦ (n.of_nat 0, rw e refl)
  ]

  or_fail-Survives : {A : Type 0} (o : Option A) → Survives (or_fail o)
  or_fail-Survives none = tt
  or_fail-Survives (some x) = tt

  scale_all-Survives :
      (median iqr : n.Float) (xs : List (Metric n)) → Survives (scale_all n median iqr xs)
  unfolding scale_all
  scale_all-Survives median iqr [] = tt
  scale_all-Survives median iqr (x ∷ xs) =
      >>=-Survives (scale_one n median iqr x) _
        (>>=-Survives (or_fail (n.parse (n.format (scaled n median iqr x)))) _
          (or_fail-Survives (n.parse (n.format (scaled n median iqr x)))) (λ q e. tt))
        (λ y e.
          >>=-Survives (scale_all n median iqr xs) _ (scale_all-Survives median iqr xs)
            (λ ys e'. tt))

  -- Every number that strconv prints is one that ParseQuantity reads.
  abbrev pub Reads : Type 0
  Reads = (x : n.Float) → (q : n.Quantity) × (n.parse (n.format x) ≡ some q)

  scale_all-Returns :
      Reads → (median iqr : n.Float) (xs : List (Metric n)) → Returns (scale_all n median iqr xs)
  unfolding scale_all
  scale_all-Returns reads median iqr [] = ([], refl)
  scale_all-Returns reads median iqr (x ∷ xs) =
      let (q, e) = reads (scaled n median iqr x) in
      >>=-Returns (scale_one n median iqr x) _
        (>>=-Returns (or_fail (n.parse (n.format (scaled n median iqr x)))) _ (q, rw e refl)
          (λ p. (_, refl)))
        (λ y.
          >>=-Returns (scale_all n median iqr xs) _ (scale_all-Returns reads median iqr xs)
            (λ ys. (_, refl)))

  shift_all-Returns :
      Reads → (offset : n.Float) (xs : List (Metric n)) → Returns (shift_all n offset xs)
  unfolding shift_all
  shift_all-Returns reads offset [] = ([], refl)
  shift_all-Returns reads offset (x ∷ xs) =
      let (q, e) = reads (n.add (n.as_float x.value) offset) in
      >>=-Returns (shift_one n offset x) _
        (>>=-Returns (or_panic (n.parse (n.format (n.add (n.as_float x.value) offset)))) _
          (q, rw e refl) (λ p. (_, refl)))
        (λ y.
          >>=-Returns (shift_all n offset xs) _ (shift_all-Returns reads offset xs)
            (λ ys. (_, refl)))

  shift-Returns : Reads → (e : Option n.Float) (xs : List (Metric n)) → Returns (shift n e xs)
  unfolding shift
  shift-Returns reads none xs = (xs, refl)
  shift-Returns reads (some e) xs =
      shift_all-Returns reads (offset_of n e (find_range n xs (no_range n))) xs

  module _ (sort : List n.Float → List n.Float)
      (permutes : (fs : List n.Float) → Perm (sort fs) fs) where
    sorted_lem : (xs : List (Metric n)) → length (sorted_values n sort xs) ≡ length xs
    sorted_lem xs = length-perm (permutes _) ∙ length-map (λ x. n.as_float x.value) xs

    normalize_group-Survives :
        (xs : List (Metric n)) → 0 < length xs → Survives (normalize_group n sort xs)
    unfolding normalize_group
    normalize_group-Survives xs h =
        let vs = sorted_values n sort xs in
        let (median, m) = compute_median-returned vs (omega (arith, sorted_lem xs)) in
        let (iqr, i) = compute_iqr-returned vs in rw (m, i) (scale_all-Survives median iqr xs)

    normalize_group-Returns :
        Reads → (xs : List (Metric n)) → 0 < length xs → Returns (normalize_group n sort xs)
    unfolding normalize_group
    normalize_group-Returns reads xs h =
        let vs = sorted_values n sort xs in
        let (median, m) = compute_median-returned vs (omega (arith, sorted_lem xs)) in
        let (iqr, i) = compute_iqr-returned vs in rw (m, i) (scale_all-Returns reads median iqr xs)

    normalize_groups-Survives :
        (es : ById n) → All (λ e. 0 < length e.1) es → Survives (normalize_groups n sort es)
    unfolding normalize_groups
    normalize_groups-Survives [] h = tt
    normalize_groups-Survives ((id, xs) ∷ es) h =
        >>=-Survives (normalize_group n sort xs) _ (normalize_group-Survives xs h.0) (λ ys e.
          >>=-Survives (normalize_groups n sort es) _ (normalize_groups-Survives es h.1)
            (λ zs e'. tt))

    normalize_groups-Returns :
        Reads → (es : ById n) → All (λ e. 0 < length e.1) es → Returns (normalize_groups n sort es)
    unfolding normalize_groups
    normalize_groups-Returns reads [] h = ([], refl)
    normalize_groups-Returns reads ((id, xs) ∷ es) h =
        >>=-Returns (normalize_group n sort xs) _ (normalize_group-Returns reads xs h.0) (λ ys.
          >>=-Returns (normalize_groups n sort es) _ (normalize_groups-Returns reads es h.1)
            (λ zs. (_, refl)))

    module _ (order : ById n → ById n) (rearranges : (es : ById n) → Permᴰ (order es) es) where
      filled : (xs : List (Metric n)) → All (λ e. 0 < length e.1) (order (group_by_id n xs))
      filled xs =
          let grouping = group_by-IsGrouping (λ x. x.id) xs in
          All-Permᴰ _ (Permᴰ.symm (rearranges (group_by_id n xs))) (
            All-map (group_by_id n xs)
              (λ e found.
                let (x, rest, some_metric, same) =
                  nonempty_lem (of_id n e.0 xs) e.1 (sym (grouping.groups e.0) ∙ found) in
                omega (arith, ap length (same ∙ some_metric)))
              (entries-found (group_by_id n xs) grouping.is_map))

      normalize-ne-panicked : (xs : List (Metric n)) → normalize n sort order none xs ≢ panicked
      unfolding normalize shift
      normalize-ne-panicked xs h = subst Survives h (
          >>=-Survives (normalize_groups n sort (order (group_by_id n xs))) _
            (normalize_groups-Survives (order (group_by_id n xs)) (filled xs)) (λ ys e. tt))

      -- Where every number that strconv prints is one that ParseQuantity reads, Normalize succeeds on
      -- all metrics, with every offset and with none.
      pub normalize-Returns :
          Reads
          → (e : Option n.Float) (xs : List (Metric n)) → Returns (normalize n sort order e xs)
      unfolding normalize
      normalize-Returns reads e xs =
          >>=-Returns (normalize_groups n sort (order (group_by_id n xs))) _
            (normalize_groups-Returns reads (order (group_by_id n xs)) (filled xs))
            (λ ys. shift-Returns reads e ys)
