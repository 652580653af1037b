-- ===== src/Normalizing/Publishing.antt =====
-- What the normalizer's resource publishes.
use argocd_autoscaler.Base.{
  ◌≡◌, refl, ap, true, Bool-cases, inl, inr, Option, none, some, List, [], ◌∷◌, All, Pairwise,
  arith,
}
use mathlib.Core.List.{Permᴰ}
use argocd_autoscaler.Text.{Text}
use argocd_autoscaler.Arithmetic.{Arithmetic, IsRounded}
use argocd_autoscaler.Sorting.{IsSort}
use argocd_autoscaler.Controller.{Error, ok, Meta, IsMeta, is_ready, Pass}
use argocd_autoscaler.Controller.Calls.{finish-All, not_ready-set}
use argocd_autoscaler.LoadIndexing.{Metric, ById}
use argocd_autoscaler.LoadIndexing.Groups.{of_id}
use argocd_autoscaler.LoadIndexing.Reconcile.{MetricValuesProvider, found}
use argocd_autoscaler.Outcomes as Outcomes
use argocd_autoscaler.Outcomes.{Outcome, returned, ◌>>=◌}
use argocd_autoscaler.Normalizing.{
  normalize, normalize_groups, group_by_id, shift, find_range, no_range, offset_of,
}
use argocd_autoscaler.Outcomes.{>>=-eq_returned}
use argocd_autoscaler.Normalizing.Offset.{
  IsShifted, shift_all-IsShifted, IsRange, find_range-IsRange,
}
use argocd_autoscaler.Normalizing.Order.{IsNormalized, normalize-IsNormalized}
use argocd_autoscaler.Normalizing.Reconcile.{
  Resource, Call, delete_values, set_value, update_status, factor, record_values, report, publish,
  check_provider, find_provider, reconcile,
}
use Prim.Native.String.{String}

module _ (n : Arithmetic) (m : Meta) where
  -- The values that are published: those of the provider, each ID normalized, and, if the spec asks
  -- for an offset, shifted by the distance of 0 from the least value and the factor's multiple of the
  -- distance of the least and the greatest value.
  pub data IsResult (xs : List (Metric n)) : Option n.Float → List (Metric n) → Type 0 where
    plain :
        {ys : List (Metric n)}
        → ((id : Text) → IsNormalized n (of_id n id xs) (of_id n id ys))
        → IsResult xs none ys
    shifted :
        {e : n.Float} {ys : List (Metric n)} (zs : List (Metric n)) (least greatest : n.Float)
        → ((id : Text) → IsNormalized n (of_id n id xs) (of_id n id zs))
        → IsRange n zs least greatest
        → Pairwise (IsShifted n (n.add (n.neg least) (n.mul e (n.sub greatest least)))) zs ys
        → IsResult xs (some e) ys

  pub record IsFaithful (p : MetricValuesProvider n m) (s s' : Resource n m) : Type 0 where
    pub provider_ready : is_ready m p.conditions ≡ true
    pub values : IsResult p.values (factor n m s.spec.positive_offset_e) s'.status.values

  unfoldable pub IsPublishable : MetricValuesProvider n m → Resource n m → Call n m → Type 0
  IsPublishable p s delete_values = Unit
  IsPublishable p s (set_value labels value) = Unit
  IsPublishable p s (update_status s') = is_ready m s'.status.conditions ≡ true → IsFaithful p s s'

  module _ (laws : IsMeta m) (rounded : IsRounded n) (sort : List n.Float → List n.Float)
      (sorting : IsSort n.lt sort) (order : ById n → ById n)
      (rearranges : (es : ById n) → Permᴰ (order es) es) (answer : Call n m → Option Error)
      (p : MetricValuesProvider n m) (s : Resource n m) where
    normalize-IsResult :
        (e : Option n.Float) (xs ys : List (Metric n))
        → normalize n sort order e xs ≡ returned ys
        → IsResult xs e ys
    unfolding normalize shift
    normalize-IsResult none xs ys h =
        plain (normalize-IsNormalized n rounded sort sorting order rearranges xs h)
    normalize-IsResult (some e) xs ys h =
        let groups = normalize_groups n sort (order (group_by_id n xs)) in
        let (zs, normalized, h') = >>=-eq_returned groups (shift n (some e)) h in
        let r = find_range n zs (no_range n) in
        shifted zs r.0 r.1
          (normalize-IsNormalized n rounded sort sorting order rearranges xs
            (ap (λ o. o >>= shift n none) normalized))
          (find_range-IsRange n rounded zs) (shift_all-IsShifted n (offset_of n e r) zs ys h')

    abbrev Publishable : Call n m → Type 0
    Publishable = IsPublishable p s

    report-Publishable :
        (reason : String) → All Publishable (report n m sort order answer reason s).calls
    unfolding IsPublishable
    report-Publishable reason =
        finish-All Publishable answer _ _
          (λ e. let e' = not_ready-set m laws s.status.conditions reason in ground arith)

    record_values-Publishable :
        (xs : List (Metric n)) (rest : Pass (Call n m))
        → All Publishable rest.calls
        → All Publishable (record_values n m xs rest).calls
    unfolding record_values IsPublishable
    record_values-Publishable [] rest h = h
    record_values-Publishable (x ∷ xs) rest h = (tt, record_values-Publishable xs rest h)

    publish-Publishable :
        (o : Outcome (List (Metric n)))
        → is_ready m p.conditions ≡ true
        → normalize n sort order (factor n m s.spec.positive_offset_e) p.values ≡ o
        → All Publishable (publish n m sort order answer s o).calls
    unfolding publish IsPublishable
    publish-Publishable Outcomes.panicked r e = tt
    publish-Publishable Outcomes.failed r e = report-Publishable "ErrorDuringNormalization"
    publish-Publishable (Outcomes.returned ys) r e = (
      tt,
      record_values-Publishable ys _ (
          finish-All Publishable answer _ _ (λ is_ready. record {
            provider_ready = r;
            values = normalize-IsResult (factor n m s.spec.positive_offset_e) p.values ys e;
          })),
    )

    -- Where a condition that is set is the one that is found, rounding keeps the order of numbers and
    -- sort.Float64s sorts: whatever the API server answers and in whatever order the map of metric
    -- IDs is walked, a ready status that a pass writes has the metrics of the provider, which was
    -- ready: those of each ID scaled by the median and the distance of the quartiles of their values,
    -- each with its shard and in the order of their sizes, and then, if the spec asks for an offset,
    -- all of them shifted by minus the least value and the factor's multiple of the distance of the
    -- least and the greatest value.
    pub reconcile-IsPublishable :
        All (IsPublishable p s) (reconcile n m sort order answer (found s) (ok p)).calls
    unfolding reconcile find_provider check_provider
    reconcile-IsPublishable = elim (Bool-cases (is_ready m p.conditions)) [
      | inl r ↦ rw r (publish-Publishable _ r refl)
      | inr r ↦ rw r (report-Publishable "MetricValuesProviderNotReady")
    ]
