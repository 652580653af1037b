-- ===== src/Normalizing/Reconcile.antt =====
-- The body of Reconcile of internal/controller/autoscaler/robustscalingnormalizer_controller.go,
-- after the rate limit, with its resource (api/autoscaler/v1alpha1/robustscalingnormalizer_types.go).
use argocd_autoscaler.Base.{Option, none, some, List, [], ◌∷◌, if◌then◌else◌}
use argocd_autoscaler.Text.{Text}
use argocd_autoscaler.Arithmetic.{Arithmetic}
use argocd_autoscaler.Controller.{
  Error, Result, ok, err, Condition, Meta, is_ready, not_ready, ready, done, failed, panicked, Pass,
  stop, emit, finish,
}
use argocd_autoscaler.LoadIndexing.{Metric, ById}
use argocd_autoscaler.LoadIndexing.Reconcile.{
  Got, found, not_found, get_failed, MetricValuesProvider,
}
use argocd_autoscaler.Outcomes as Outcomes
use argocd_autoscaler.Outcomes.{Outcome}
use argocd_autoscaler.Normalizing.{normalize}
use Prim.Native.String.{String}

pub record Spec (Q : Type 0) : Type 0 where
  pub positive_offset_e : Option Q

pub record Status (M Conditions : Type 0) : Type 0 where
  pub conditions : Conditions
  pub values : List M

module _ (n : Arithmetic) (m : Meta) where
  pub record Resource : Type 0 where
    pub spec : Spec n.Quantity
    pub status : Status (Metric n) m.Conditions

  pub data Call : Type 0 where
    delete_values : Call
    set_value : List Text → n.Float → Call  -- the labels, and the value
    update_status : Resource → Call

  abbrev pub with_condition : Condition → Resource → Resource
  with_condition c s = record s {
    status = record (s.status) { conditions = m.set s.status.conditions c };
  }

  -- Lines 161 to 164.
  abbrev pub factor : Option n.Quantity → Option n.Float
  factor none = none
  factor (some q) = some (n.as_float q)

  -- Lines 186 to 197.
  abbrev pub value_labels : Metric n → List Text
  value_labels x =
      x.shard.uid ∷ x.shard.id ∷ x.shard.namespace ∷ x.shard.name ∷ x.shard.server ∷ x.id ∷ []

  unfoldable pub record_values : List (Metric n) → Pass Call → Pass Call
  record_values [] rest = rest
  record_values (x ∷ xs) rest =
      emit (set_value (value_labels x) (n.as_float x.value)) (record_values xs rest)

  module _ (sort : List n.Float → List n.Float) (order : ById n → ById n)
      (answer : Call → Option Error) where
    abbrev pub report : String → Resource → Pass Call
    report reason s = finish answer (update_status (with_condition (not_ready reason) s)) done

    -- Lines 167 to 212.
    unfoldable pub publish : Resource → Outcome (List (Metric n)) → Pass Call
    unfolding record_values
    publish s Outcomes.panicked = stop panicked
    publish s Outcomes.failed = report "ErrorDuringNormalization" s
    publish s (Outcomes.returned xs) = emit delete_values (
        record_values xs (
          finish answer
            (update_status
              (with_condition ready (record s { status = record (s.status) { values = xs } })))
            done))

    -- Lines 140 to 166.
    unfoldable pub check_provider : Resource → MetricValuesProvider n m → Pass Call
    unfolding publish
    check_provider s p =
        if is_ready m p.conditions
        then publish s (normalize n sort order (factor s.spec.positive_offset_e) p.values)
        else report "MetricValuesProviderNotReady" s

    -- Lines 115 to 138.
    unfoldable pub find_provider : Resource → Result (MetricValuesProvider n m) → Pass Call
    unfolding check_provider
    find_provider s (err e) = report "ErrorFindingMetricsProvider" s
    find_provider s (ok p) = check_provider s p

    -- Lines 105 to 212.
    unfoldable pub reconcile : Got Resource → Result (MetricValuesProvider n m) → Pass Call
    unfolding find_provider
    reconcile not_found p = stop done
    reconcile (get_failed e) p = stop (failed e)
    reconcile (found s) p = find_provider s p
