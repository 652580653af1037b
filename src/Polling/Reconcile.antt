-- ===== src/Polling/Reconcile.antt =====
-- The body of Reconcile of internal/controller/autoscaler/prometheuspoll_controller.go, after the
-- rate limit, with its resource (api/autoscaler/v1alpha1/prometheuspoll_types.go). Times and
-- durations are in nanoseconds.
use argocd_autoscaler.Base.{
  ℕ, ◌+◌, ◌-◌, Bool, true, false, ◌&&◌, Option, none, some, List, [], ◌∷◌, map, if◌then◌else◌, ltb,
}
use argocd_autoscaler.Text.{Text}
use argocd_autoscaler.Text.Sorted.{has}
use argocd_autoscaler.Text.Sets.{sorted_set, texts_eq}
use argocd_autoscaler.Arithmetic.{Arithmetic}
use argocd_autoscaler.Api.{Shard}
use argocd_autoscaler.Controller.{
  Error, Result, Condition, Meta, is_ready, not_ready, ready, done, failed, requeue_after, Pass,
  stop, emit, finish, try_call,
}
use argocd_autoscaler.Controller as Controller
use argocd_autoscaler.LoadIndexing.{Metric}
use argocd_autoscaler.LoadIndexing.Reconcile.{Got, found, not_found, get_failed}
use argocd_autoscaler.Polling.{PrometheusMetric, PollError, Polled, Prometheus, poll}
use argocd_autoscaler.Polling as Polling
use Prim.Native.String.{String}

pub record Spec (Q : Type 0) : Type 0 where
  pub period : ℕ
  pub address : Text
  pub metrics : List (PrometheusMetric Q)

pub record Status (M Conditions : Type 0) : Type 0 where
  pub conditions : Conditions
  pub values : List M
  pub last_polling_time : Option ℕ

module _ (n : Arithmetic) (m : Meta) where
  pub record PrometheusPoll : Type 0 where
    pub spec : Spec n.Quantity
    pub status : Status (Metric n) m.Conditions

  pub record ShardsProvider : Type 0 where
    pub conditions : m.Conditions
    pub shards : List Shard

  pub data Call : Type 0 where
    delete_values : Call
    set_value : List Text → n.Float → Call  -- the labels, and the value
    update_status : PrometheusPoll → Call

  abbrev pub with_condition : Condition → PrometheusPoll → PrometheusPoll
  with_condition c s = record s {
    status = record (s.status) { conditions = m.set s.status.conditions c };
  }

  -- Lines 112 to 132: an ID is there already. The list is that of the IDs so far.
  unfoldable pub has_duplicate : List (PrometheusMetric n.Quantity) → List Text → Bool
  unfolding has
  has_duplicate [] ids = false
  has_duplicate (x ∷ xs) ids = if has x.id ids then true else has_duplicate xs (x.id ∷ ids)

  -- Lines 187 to 227.
  unfoldable pub is_unchanged : PrometheusPoll → List Shard → Bool
  unfolding texts_eq
  is_unchanged s shards =
      texts_eq (sorted_set (map (λ x. x.shard.uid) s.status.values))
        (sorted_set (map (λ h. h.uid) shards))
      && texts_eq (sorted_set (map (λ x. x.id) s.status.values))
          (sorted_set (map (λ x. x.id) s.spec.metrics))

  -- Lines 258 to 266.
  abbrev pub value_labels : Metric n → List Text
  value_labels x =
      x.shard.uid ∷ x.shard.id ∷ x.shard.namespace ∷ x.shard.name ∷ x.shard.server ∷ x.id ∷ []

  unfoldable pub record_values : List (Metric n) → Pass Call → Pass Call
  record_values [] rest = rest
  record_values (x ∷ xs) rest =
      emit (set_value (value_labels x) (n.as_float x.value)) (record_values xs rest)

  -- `message` is the text of an error; `now` is the time at line 182 and `later` that at line 271.
  module _ (api : Prometheus n.Float) (message : PollError → Error) (now later : ℕ)
      (answer : Call → Option Error) where
    abbrev pub report : String → PrometheusPoll → Pass Call
    report reason s = finish answer (update_status (with_condition (not_ready reason) s)) done

    -- Lines 238 to 283.
    unfoldable pub publish : PrometheusPoll → Polled (List (Metric n)) → Pass Call
    unfolding record_values
    publish s (Polling.err e) =
        finish answer (update_status (with_condition (not_ready "PollingError") s))
          (failed (message e))
    publish s (Polling.ok xs) = emit delete_values (
        record_values xs (
          finish answer
            (update_status (
              with_condition ready (record s {
                status = record (s.status) { values = xs; last_polling_time = some later };
              })))
            (requeue_after s.spec.period)))

    abbrev pub poll_now : PrometheusPoll → List Shard → Pass Call
    poll_now s shards = publish s (poll n api s.spec.address s.spec.metrics shards)

    -- Lines 181 to 235; the time since the last poll is below the period.
    unfoldable pub check_period : Option ℕ → PrometheusPoll → List Shard → Pass Call
    unfolding publish is_unchanged
    check_period none s shards = poll_now s shards
    check_period (some last) s shards =
        if ltb now (last + s.spec.period) && is_unchanged s shards
        then stop (requeue_after (last + s.spec.period - now))
        else poll_now s shards

    -- Lines 160 to 180.
    unfoldable pub check_provider : PrometheusPoll → ShardsProvider → Pass Call
    unfolding check_period
    check_provider s p =
        if is_ready m p.conditions
        then check_period s.status.last_polling_time s p.shards
        else report "ShardManagerNotReady" s

    -- Lines 135 to 158.
    unfoldable pub find_provider : PrometheusPoll → Result ShardsProvider → Pass Call
    unfolding check_provider
    find_provider s (Controller.err e) = report "ErrorFindingShardManager" s
    find_provider s (Controller.ok p) = check_provider s p

    -- Lines 102 to 283.
    unfoldable pub reconcile : Got PrometheusPoll → Result ShardsProvider → Pass Call
    unfolding find_provider has_duplicate
    reconcile not_found p = stop done
    reconcile (get_failed e) p = stop (failed e)
    reconcile (found s) p =
        if has_duplicate s.spec.metrics [] then report "MalformedResource" s else find_provider s p
