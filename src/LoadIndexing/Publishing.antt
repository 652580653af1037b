-- ===== src/LoadIndexing/Publishing.antt =====
-- What the load index resource publishes.
use argocd_autoscaler.Base.{
  ◌≡◌, refl, true, Bool-cases, inl, inr, Option, none, some, List, [], ◌∷◌, All, length, arith,
}
use mathlib.Core.List.{Permᴰ}
use argocd_autoscaler.Text.{Text}
use argocd_autoscaler.Arithmetic.{Arithmetic}
use argocd_autoscaler.Api.{LoadIndex}
use argocd_autoscaler.Maps.{present}
use argocd_autoscaler.Controller.{Error, ok, Meta, IsMeta, is_ready, Pass}
use argocd_autoscaler.Controller.Calls.{finish-All, not_ready-set}
use argocd_autoscaler.LoadIndexing.{Metric, Weights, calculate}
use argocd_autoscaler.Grouping.{select_by, nonempty}
use argocd_autoscaler.LoadIndexing.Groups.{of_shard}
use argocd_autoscaler.LoadIndexing.Indexes.{IsIndex, calculate-Indexes}
use argocd_autoscaler.LoadIndexing.Reconcile.{
  Resource, MetricValuesProvider, Call, delete_values, set_value, update_status, index_weights,
  record_values, report, publish, check_provider, find_provider, after_weights, reconcile, found,
}
use Prim.Native.String.{String}

-- A ready status has the load indexes of the metrics of a ready provider, one for each shard.
pub record IsComplete (n : Arithmetic) (m : Meta) (p : MetricValuesProvider n m)
    (s s' : Resource n m) : Type 0 where
  pub provider_ready : is_ready m p.conditions ≡ true
  pub weights : Weights n
  pub distinct : index_weights n m s.spec.weights [] ≡ some weights
  pub indexes : All (IsIndex n s.spec.p weights p.values) s'.status.values
  pub counts :
      (uid : Text)
      → length (select_by (λ l. l.shard.uid) uid s'.status.values)
        ≡ present (nonempty (of_shard n uid p.values))

module _ (n : Arithmetic) (m : Meta) where
  unfoldable pub IsCompleting : MetricValuesProvider n m → Resource n m → Call n m → Type 0
  IsCompleting p s delete_values = Unit
  IsCompleting p s (set_value labels value) = Unit
  IsCompleting p s (update_status s') =
      is_ready m s'.status.conditions ≡ true → IsComplete n m p s s'

  module _ (order : List (Text × List (Metric n)) → List (Text × List (Metric n)))
      (rearranges : (es : List (Text × List (Metric n))) → Permᴰ (order es) es)
      (answer : Call n m → Option Error) (laws : IsMeta m) (p : MetricValuesProvider n m)
      (s : Resource n m) where
    abbrev Completing : Call n m → Type 0
    Completing = IsCompleting p s

    report-Completing : (reason : String) → All Completing (report n m order answer reason s).calls
    unfolding IsCompleting
    report-Completing reason =
        finish-All Completing answer _ _
          (λ e. let e' = not_ready-set m laws s.status.conditions reason in ground arith)

    record_values-Completing :
        (ls : List (LoadIndex n.Quantity)) (rest : Pass (Call n m))
        → All Completing rest.calls
        → All Completing (record_values n m ls rest).calls
    unfolding record_values IsCompleting
    record_values-Completing [] rest h = h
    record_values-Completing (l ∷ ls) rest h = (tt, record_values-Completing ls rest h)

    publish-Completing :
        (ws : Weights n) (x : Option (List (LoadIndex n.Quantity)))
        → index_weights n m s.spec.weights [] ≡ some ws
        → is_ready m p.conditions ≡ true
        → calculate n order s.spec.p ws p.values ≡ x
        → All Completing (publish n m order answer s x).calls
    unfolding publish IsCompleting
    publish-Completing ws none w r e = report-Completing "LoadIndexCalculationError"
    publish-Completing ws (some ls) w r e =
        let (indexes, counts) = calculate-Indexes n s.spec.p ws p.values order rearranges e in
        (
          tt,
          record_values-Completing ls _ (
              finish-All Completing answer _ _ (λ is_ready. record {
                provider_ready = r;
                weights = ws;
                distinct = w;
                indexes = indexes;
                counts = counts;
              })),
        )

    after_weights-Completing :
        (x : Option (Weights n))
        → index_weights n m s.spec.weights [] ≡ x
        → All Completing (after_weights n m order answer x s (ok p)).calls
    unfolding find_provider check_provider
    after_weights-Completing none e = report-Completing "WeightsMalformed"
    after_weights-Completing (some ws) e = elim (Bool-cases (is_ready m p.conditions)) [
      | inl r ↦ rw r (publish-Completing ws _ e r refl)
      | inr r ↦ rw r (report-Completing "MetricValuesProviderNotReady")
    ]

    -- Where a condition that is set is the one that is found: whatever the API server answers and in
    -- whatever order maps are walked, a ready status that a pass writes has a load index for each
    -- shard that the provider has metrics of, and no other; each is what Calculate promises of its
    -- shard; no weight was refused as the second one of its ID; and the provider was ready.
    pub reconcile-IsCompleting :
        All (IsCompleting p s) (reconcile n m order answer (found s) (ok p)).calls
    unfolding reconcile
    reconcile-IsCompleting = after_weights-Completing (index_weights n m s.spec.weights []) refl
