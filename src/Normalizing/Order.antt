-- ===== src/Normalizing/Order.antt =====
-- What Normalize without an offset makes of the metrics of one ID.
use argocd_autoscaler.Base.{
  map, Perm, ◌<◌, if◌then◌else◌, ℕ, ◌≡◌, refl, ap, sym, subst, ◌∙◌, false, none, some, List, [],
  ◌∷◌, arith, Pairwise, Pairwise-get_elem?, length, get_elem?,
}
use mathlib.Core.List.{Permᴰ}
use mathlib.Core.List.Perm
use argocd_autoscaler.Text.{Text}
use argocd_autoscaler.Arithmetic.{Arithmetic, IsRounded}
use argocd_autoscaler.Sorting.{IsOrderedBy, IsSort}
use argocd_autoscaler.LoadIndexing.{Metric, ById}
use argocd_autoscaler.LoadIndexing.Groups.{of_id}
use argocd_autoscaler.Outcomes.{returned, or_fail}
use argocd_autoscaler.Normalizing.{
  compute_median, compute_iqr, scaled, scale_one, scale_all, sorted_values, normalize_group,
  normalize,
}
use argocd_autoscaler.Outcomes.{returned_inj, >>=-eq_returned, or_fail-eq_returned}
use argocd_autoscaler.Normalizing.Middles.{
  IsMedian, IsDistance, few, compute_median-IsMedian, compute_iqr-IsDistance,
}
use argocd_autoscaler.Normalizing.Quartiles.{compute_iqr-nonnegative, scaled_mono}
use argocd_autoscaler.Normalizing.Separate.{normalize_alone, normalize-alone}

module _ (n : Arithmetic) where
  -- An output of Normalize without an offset, and the metric that it is made of.
  pub record IsScaled (median iqr : n.Float) (x y : Metric n) : Type 0 where
    pub same_id : y.id ≡ x.id
    pub same_shard : y.shard ≡ x.shard
    pub same_query : y.query ≡ x.query
    pub display :
        y.display_value
        ≡ n.format (
            if n.eq iqr (n.of_nat 0)
            then n.of_nat 0
            else n.div (n.sub (n.as_float x.value) median) iqr)
    pub value : n.parse y.display_value ≡ some y.value

  scale_one-IsScaled :
      (median iqr : n.Float) (x : Metric n) {y : Metric n}
      → scale_one n median iqr x ≡ returned y
      → IsScaled median iqr x y
  scale_one-IsScaled median iqr x h =
      let text = n.format (scaled n median iqr x) in
      let (q, read, same) = >>=-eq_returned (or_fail (n.parse text)) _ h in
      subst (IsScaled median iqr x) (returned_inj same) (record {
        same_id = refl;
        same_shard = refl;
        same_query = refl;
        display = refl;
        value = or_fail-eq_returned (n.parse text) read;
      })

  pub scale_all-IsScaled :
      (median iqr : n.Float) (xs ys : List (Metric n))
      → scale_all n median iqr xs ≡ returned ys
      → Pairwise (IsScaled median iqr) xs ys
  unfolding scale_all
  scale_all-IsScaled median iqr [] ys h =
      subst (Pairwise (IsScaled median iqr) []) (returned_inj h) tt
  scale_all-IsScaled median iqr (x ∷ xs) ys h =
      let (y, first, h') = >>=-eq_returned (scale_one n median iqr x) _ h in
      let (zs, rest, same) = >>=-eq_returned (scale_all n median iqr xs) _ h' in
      subst (Pairwise (IsScaled median iqr) (x ∷ xs)) (returned_inj same)
        (scale_one-IsScaled median iqr x first, scale_all-IsScaled median iqr xs zs rest)

  abbrev pub values_of : List (Metric n) → List n.Float
  values_of xs = map (λ x. n.as_float x.value) xs

  -- The metrics `ys` that those of one ID, `xs`, come to: each is scaled by the median and the
  -- distance of the quartiles of the values in order, and a metric that is at least another one is so
  -- afterwards. Where there is no metric, there is no median.
  pub record IsNormalized (xs ys : List (Metric n)) : Type 0 where
    pub sorted : List n.Float
    pub permutes : Perm sorted (values_of xs)
    pub in_order : IsOrderedBy n.lt sorted
    pub median : n.Float
    pub iqr : n.Float
    pub middle : 0 < length xs → IsMedian n sorted median
    pub distance : IsDistance n sorted iqr
    pub pairs : Pairwise (IsScaled median iqr) xs ys
    pub ordered :
        (i j : ℕ) (x x' y y' : Metric n)
        → get_elem? xs i ≡ some x
        → get_elem? xs j ≡ some x'
        → get_elem? ys i ≡ some y
        → get_elem? ys j ≡ some y'
        → n.lt (n.as_float x'.value) (n.as_float x.value) ≡ false
        → n.lt (n.as_float y'.value) (n.as_float y.value) ≡ false

  module _ (laws : IsRounded n) where
    pairs-ordered :
        (median iqr : n.Float) (xs ys : List (Metric n))
        → n.lt iqr (n.of_nat 0) ≡ false
        → Pairwise (IsScaled median iqr) xs ys
        → (i j : ℕ) (x x' y y' : Metric n) → get_elem? xs i ≡ some x
        → get_elem? xs j ≡ some x'
        → get_elem? ys i ≡ some y
        → get_elem? ys j ≡ some y'
        → n.lt (n.as_float x'.value) (n.as_float x.value) ≡ false
        → n.lt (n.as_float y'.value) (n.as_float y.value) ≡ false
    pairs-ordered median iqr xs ys h p i j x x' y y' ex ex' ey ey' k =
        let s = Pairwise-get_elem? (IsScaled median iqr) xs ys i p ex ey in
        let s' = Pairwise-get_elem? (IsScaled median iqr) xs ys j p ex' ey' in
        laws.parse_mono (scaled n median iqr x') (scaled n median iqr x) y'.value y.value
          (ap n.parse (sym s'.display) ∙ s'.value) (ap n.parse (sym s.display) ∙ s.value)
          (scaled_mono n laws median iqr x x' h k)

    module _ (sort : List n.Float → List n.Float) (sorting : IsSort n.lt sort) where
      normalize_alone-IsNormalized :
          (xs ys : List (Metric n)) → normalize_alone n sort xs ≡ returned ys → IsNormalized xs ys
      unfolding normalize_group
      normalize_alone-IsNormalized [] ys h = subst (IsNormalized []) (returned_inj h) (record {
        sorted = [];
        permutes = Perm.refl [];
        in_order = tt;
        median = n.of_nat 0;
        iqr = n.of_nat 0;
        middle = λ z. absurd (ground (arith, z));
        distance = few [] (omega arith);
        pairs = tt;
        ordered =
            pairs-ordered (n.of_nat 0) (n.of_nat 0) [] [] (laws.ordered.lt_irrefl (n.of_nat 0)) tt;
      })
      normalize_alone-IsNormalized (x ∷ xs) ys h =
          let vs = sorted_values n sort (x ∷ xs) in
          let (median, m, h') = >>=-eq_returned (compute_median n vs) _ h in
          let (iqr, i, h'') = >>=-eq_returned (compute_iqr n vs) _ h' in
          let scaled = scale_all-IsScaled median iqr (x ∷ xs) ys h'' in
          record {
            sorted = vs;
            permutes = sorting.permutes _;
            in_order = sorting.orders _;
            median = median;
            iqr = iqr;
            middle = λ z. compute_median-IsMedian n vs m;
            distance = compute_iqr-IsDistance n vs i;
            pairs = scaled;
            ordered =
                pairs-ordered median iqr (x ∷ xs) ys
                  (compute_iqr-nonnegative n laws vs (sorting.orders _) i) scaled;
          }

      -- Where rounding keeps the order of numbers and sort.Float64s sorts, whatever the order in
      -- which Go walks the map of metric IDs: if Normalize succeeds without an offset, then for each
      -- ID its result has, in their order, one metric for each metric of the ID that came in, of the
      -- same shard and query, with the value that ParseQuantity reads of its distance from the median
      -- of the values of the ID, in units of the distance of their quartiles, or of 0 where that is 0;
      -- and of two metrics of the ID, the one that was at least the other is so in the result. The
      -- median is the number in the middle of the values in order or the mean of the two there, and
      -- the quartiles are the medians of the lower and the upper half, without the number in the
      -- middle; the distance is 0 for a single value.
      pub normalize-IsNormalized :
          (order : ById n → ById n)
          → ((es : ById n) → Permᴰ (order es) es)
          → (xs : List (Metric n)) {ys : List (Metric n)}
          → normalize n sort order none xs ≡ returned ys
          → (id : Text) → IsNormalized (of_id n id xs) (of_id n id ys)
      normalize-IsNormalized order rearranges xs h id =
          normalize_alone-IsNormalized (of_id n id xs) _
            (normalize-alone n sort order rearranges xs h id)
