-- ===== src/Partition/Reconcile.antt =====
-- The body of Reconcile of internal/controller/autoscaler/longestprocessingtimepartition_controller.go,
-- after the rate limit, with its resource
-- (api/autoscaler/v1alpha1/longestprocessingtimepartition_types.go).
use argocd_autoscaler.Base.{ℕ, Option, none, some, List, [], ◌∷◌, if◌then◌else◌}
use argocd_autoscaler.Text.{Text, itoa, is_negative}
use argocd_autoscaler.Arithmetic.{Arithmetic}
use argocd_autoscaler.Api.{LoadIndex, Replica, ReplicaList}
use argocd_autoscaler.Controller.{
  Error, Result, ok, err, Condition, Meta, is_ready, not_ready, ready, done, failed, panicked, Pass,
  stop, emit, finish,
}
use argocd_autoscaler.Outcomes as Outcomes
use argocd_autoscaler.Outcomes.{Outcome}
use argocd_autoscaler.Partition.{partition}
use Prim.Native.String.{String}

-- An int32 is its bit pattern.
pub record Spec : Type 0 where
  pub max_shards_per_replica : Option ℕ

pub record Status (Q Conditions : Type 0) : Type 0 where
  pub conditions : Conditions
  pub replicas : ReplicaList Q

pub record Partition' (Q Conditions : Type 0) : Type 0 where
  pub spec : Spec
  pub status : Status Q Conditions

pub record LoadIndexProvider (Q Conditions : Type 0) : Type 0 where
  pub conditions : Conditions
  pub values : List (LoadIndex Q)

pub data Got (A : Type 0) : Type 0 where
  found : A → Got A
  not_found : Got A
  get_failed : Error → Got A

-- Lines 173 to 176; a limit that is not positive is no limit, as is 0.
unfoldable pub max_of : Option ℕ → ℕ
max_of none = 0
max_of (some k) = if is_negative k then 0 else k

module _ (n : Arithmetic) (m : Meta) where
  abbrev pub Resource : Type 0
  Resource = Partition' n.Quantity m.Conditions

  abbrev pub Provider : Type 0
  Provider = LoadIndexProvider n.Quantity m.Conditions

  pub data Call : Type 0 where
    delete_shards : Call
    delete_total_loads : Call
    set_shard : List Text → Call  -- the labels
    set_total_load : Text → n.Float → Call  -- the replica's label, and its load
    update_status : Resource → Call

  abbrev pub with_condition : Condition → Resource → Resource
  with_condition c s = record s {
    status = record (s.status) { conditions = m.set s.status.conditions c };
  }

  -- Lines 201 to 217.
  abbrev pub shard_labels : Replica n.Quantity → LoadIndex n.Quantity → List Text
  shard_labels r l =
      l.shard.uid ∷ l.shard.id ∷ l.shard.namespace ∷ l.shard.name ∷ l.shard.server ∷ itoa r.id ∷ []

  unfoldable pub record_load_indexes :
      Replica n.Quantity → List (LoadIndex n.Quantity) → Pass Call → Pass Call
  record_load_indexes r [] rest = rest
  record_load_indexes r (l ∷ ls) rest =
      emit (set_shard (shard_labels r l)) (record_load_indexes r ls rest)

  unfoldable pub record_replicas : ReplicaList n.Quantity → Pass Call → Pass Call
  record_replicas [] rest = rest
  record_replicas (r ∷ rs) rest =
      record_load_indexes r r.load_indexes
        (emit (set_total_load (itoa r.id) (n.as_float r.total_load)) (record_replicas rs rest))

  module _ (sort : List (LoadIndex n.Quantity) → List (LoadIndex n.Quantity))
      (answer : Call → Option Error) where
    abbrev pub report : String → Resource → Pass Call
    report reason s = finish answer (update_status (with_condition (not_ready reason) s)) done

    -- Lines 179 to 232.
    unfoldable pub publish : Resource → Outcome (ReplicaList n.Quantity) → Pass Call
    publish s Outcomes.panicked = stop panicked
    publish s Outcomes.failed = report "ErrorDuringPartitioning" s
    publish s (Outcomes.returned rs) = emit delete_shards (
        emit delete_total_loads (
          record_replicas rs (
            finish answer
              (update_status
                (with_condition ready (record s { status = record (s.status) { replicas = rs } })))
              done)))

    -- Lines 153 to 232.
    unfoldable pub check_provider : Resource → Provider → Pass Call
    check_provider s p =
        if is_ready m p.conditions
        then publish s (partition n sort p.values (max_of s.spec.max_shards_per_replica))
        else report "LoadIndexProviderNotReady" s

    -- Lines 128 to 232; the provider is what findByRef answers.
    unfoldable pub find_provider : Resource → Result Provider → Pass Call
    find_provider s (err e) = report "ErrorFindingLoadIndexProvider" s
    find_provider s (ok p) = check_provider s p

    -- Lines 118 to 232.
    unfoldable pub reconcile : Got Resource → Result Provider → Pass Call
    reconcile not_found p = stop done
    reconcile (get_failed e) p = stop (failed e)
    reconcile (found s) p = find_provider s p
