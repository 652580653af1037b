-- ===== src/LoadIndexing/Reconcile.antt =====
-- The body of Reconcile of internal/controller/autoscaler/weightedpnormloadindex_controller.go,
-- after the rate limit, with its resource (api/autoscaler/v1alpha1/weightedpnormloadindex_types.go).
use argocd_autoscaler.Base.{Bool, true, false, Option, none, some, List, [], ◌∷◌, if◌then◌else◌}
use argocd_autoscaler.Text.{Text}
use argocd_autoscaler.Arithmetic.{Arithmetic}
use argocd_autoscaler.Api.{LoadIndex}
use argocd_autoscaler.Controller.{
  Error, Result, ok, err, Condition, Meta, is_ready, not_ready, ready, done, failed, Pass, stop,
  emit, finish,
}
use argocd_autoscaler.Maps.{find_key}
use argocd_autoscaler.LoadIndexing.{Weight, Weights, Metric, calculate}
use Prim.Native.String.{String}

-- `p` is float64(p) of the int32.
pub record Spec (Q Float : Type 0) : Type 0 where
  pub p : Float
  pub weights : List (Weight Q)

pub record Status (Q Conditions : Type 0) : Type 0 where
  pub conditions : Conditions
  pub values : List (LoadIndex Q)

pub data Got (A : Type 0) : Type 0 where
  found : A → Got A
  not_found : Got A
  get_failed : Error → Got A

module _ (n : Arithmetic) (m : Meta) where
  pub record Resource : Type 0 where
    pub spec : Spec n.Quantity n.Float
    pub status : Status n.Quantity m.Conditions

  pub record MetricValuesProvider : Type 0 where
    pub conditions : m.Conditions
    pub values : List (Metric n)

  pub data Call : Type 0 where
    delete_values : Call
    set_value : List Text → n.Float → Call  -- the labels, and the value
    update_status : Resource → Call

  abbrev pub with_condition : Condition → Resource → Resource
  with_condition c s = record s {
    status = record (s.status) { conditions = m.set s.status.conditions c };
  }

  abbrev is_known : Option (Weight n.Quantity) → Bool
  is_known none = false
  is_known (some w) = true

  -- Lines 110 to 130: the weights by ID, or `none` if an ID is there already.
  unfoldable pub index_weights : List (Weight n.Quantity) → Weights n → Option (Weights n)
  unfolding find_key
  index_weights [] known = some known
  index_weights (w ∷ ws) known =
      let rest = index_weights ws ((w.id, w) ∷ known) in
      if is_known (find_key w.id known) then none else rest

  -- Lines 207 to 217.
  abbrev pub value_labels : LoadIndex n.Quantity → List Text
  value_labels l = l.shard.uid ∷ l.shard.id ∷ l.shard.namespace ∷ l.shard.name ∷ l.shard.server ∷ []

  unfoldable pub record_values : List (LoadIndex n.Quantity) → Pass Call → Pass Call
  record_values [] rest = rest
  record_values (l ∷ ls) rest =
      emit (set_value (value_labels l) (n.as_float l.value)) (record_values ls rest)

  module _ (order : List (Text × List (Metric n)) → List (Text × List (Metric n)))
      (answer : Call → Option Error) where
    abbrev pub report : String → Resource → Pass Call
    report reason s = finish answer (update_status (with_condition (not_ready reason) s)) done

    -- Lines 187 to 232.
    unfoldable pub publish : Resource → Option (List (LoadIndex n.Quantity)) → Pass Call
    publish s none = report "LoadIndexCalculationError" s
    publish s (some ls) = emit delete_values (
        record_values ls (
          finish answer
            (update_status
              (with_condition ready (record s { status = record (s.status) { values = ls } })))
            done))

    -- Lines 159 to 186.
    unfoldable pub check_provider : Resource → Weights n → MetricValuesProvider → Pass Call
    check_provider s ws p =
        if is_ready m p.conditions
        then publish s (calculate n order s.spec.p ws p.values)
        else report "MetricValuesProviderNotReady" s

    -- Lines 133 to 157.
    unfoldable pub find_provider : Resource → Weights n → Result MetricValuesProvider → Pass Call
    find_provider s ws (err e) = report "ErrorFindingMetricProvider" s
    find_provider s ws (ok p) = check_provider s ws p

    -- Lines 110 to 131.
    abbrev pub after_weights :
        Option (Weights n) → Resource → Result MetricValuesProvider → Pass Call
    after_weights none s p = report "WeightsMalformed" s
    after_weights (some ws) s p = find_provider s ws p

    -- Lines 100 to 232.
    unfoldable pub reconcile : Got Resource → Result MetricValuesProvider → Pass Call
    reconcile not_found p = stop done
    reconcile (get_failed e) p = stop (failed e)
    reconcile (found s) p = after_weights (index_weights s.spec.weights []) s p
