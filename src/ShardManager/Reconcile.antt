-- ===== src/ShardManager/Reconcile.antt =====
-- The body of Reconcile, after the rate limit.
use argocd_autoscaler.Base.{Option, none, some, List, [], ◌∷◌}
use argocd_autoscaler.Text.{Text, bytes}
use argocd_autoscaler.Api.{Shard, Replica, ReplicaList}
use argocd_autoscaler.Controller.{
  Error, Result, ok, err, Condition, Meta, not_ready, ready, Outcome, done, failed, panicked, Pass,
  stop, emit, try_call, finish,
}
use argocd_autoscaler.ShardManager.{
  Secret, lookup, or_empty, shard_key, index_replicas, Read, read, read_malformed, read_nil_map,
  read_secrets,
}
use Prim.Native.String.{String}

pub record Status (Q Conditions : Type 0) : Type 0 where
  pub conditions : Conditions
  pub shards : List Shard
  pub replicas : ReplicaList Q

-- Which secrets a label selector matches is up to the List call.
pub record Manager (Q Conditions : Type 0) : Type 0 where
  pub spec_replicas : ReplicaList Q
  pub status : Status Q Conditions

pub data Got (A : Type 0) : Type 0 where
  found : A → Got A
  not_found : Got A
  get_failed : Error → Got A

module _ (Q : Type 0) (m : Meta) where
  abbrev pub Manager' : Type 0
  Manager' = Manager Q m.Conditions

  pub data Call : Type 0 where
    delete_gauges : Call
    set_gauge : List Text → Call  -- the labels
    update_secret : Secret → Call
    update_status : Manager' → Call

  abbrev pub with_condition : Condition → Manager' → Manager'
  with_condition c s = record s {
    status = record (s.status) { conditions = m.set s.status.conditions c };
  }

  -- Lines 147 to 155.
  abbrev pub gauge_labels : Secret → List Text
  gauge_labels s =
      s.uid
      ∷ s.name
      ∷ s.namespace
      ∷ or_empty (lookup (bytes "name") s.secret_data)
      ∷ or_empty (lookup (bytes "server") s.secret_data)
      ∷ or_empty (lookup shard_key s.secret_data)
      ∷ []

  unfoldable pub record_secrets : List Secret → Pass Call → Pass Call
  record_secrets [] rest = rest
  record_secrets (s ∷ ss) rest = emit (set_gauge (gauge_labels s)) (record_secrets ss rest)

  -- Lines 254 to 260.
  abbrev pub completed : List Shard → Manager' → Manager'
  completed shards s =
      with_condition ready
        (record s { status = record (s.status) { shards = shards; replicas = s.spec_replicas } })

  module _ (answer : Call → Option Error) where
    abbrev pub report : String → Outcome → Manager' → Pass Call
    report reason o s = finish answer (update_status (with_condition (not_ready reason) s)) o

    -- Lines 232 to 252.
    unfoldable pub update_secrets : List Secret → Manager' → Pass Call → Pass Call
    update_secrets [] s rest = rest
    update_secrets (x ∷ xs) s rest =
        try_call answer (update_secret x) (λ e. report "FailedToUpdateSecret" (failed e) s)
          (update_secrets xs s rest)

    -- Lines 185 to 267.
    abbrev pub conclude : Read → Manager' → Pass Call
    conclude read_malformed s = report "FailedToReadShardFromSecret" done s
    conclude read_nil_map s = stop panicked
    conclude (read shards updates) s =
        update_secrets updates s (finish answer (update_status (completed shards s)) done)

    -- Lines 158 to 267.
    abbrev pub after_index : Option (List (Text × Replica Q)) → Manager' → List Secret → Pass Call
    after_index none s secrets = report "FailedToReadDesiredReplicaShard" done s
    after_index (some known) s secrets = conclude (read_secrets known secrets) s

    unfoldable pub synchronize : Manager' → List Secret → Pass Call
    synchronize s secrets = after_index (index_replicas s.spec_replicas []) s secrets

    -- Lines 115 to 267; `listed` is what the List call answers.
    unfoldable pub list_secrets : Manager' → Result (List Secret) → Pass Call
    list_secrets s (err e) = report "FailedToListSecrets" (failed e) s
    list_secrets s (ok secrets) =
        emit delete_gauges (record_secrets secrets (synchronize s secrets))

    -- Lines 105 to 267.
    unfoldable pub reconcile : Got Manager' → Result (List Secret) → Pass Call
    reconcile not_found listed = stop done
    reconcile (get_failed e) listed = stop (failed e)
    reconcile (found s) listed = list_secrets s listed
