-- ===== src/Scaler/Objects.antt =====
-- What a pass of Reconcile reads, and the calls that it makes.
use argocd_autoscaler.Base.{ℕ, Bool, List}
use Prim.Native.String.{String}
use argocd_autoscaler.Text.{Text}
use argocd_autoscaler.Api.{ReplicaList}
use argocd_autoscaler.Controller.{Error, Result, Meta}
use argocd_autoscaler.Scaler.{Scaler, StatefulSet}

pub data Got (A : Type 0) : Type 0 where
  found : A → Got A
  not_found : Got A
  get_failed : Error → Got A

pub record PartitionProvider (Q Conditions : Type 0) : Type 0 where
  pub conditions : Conditions
  pub replicas : ReplicaList Q

pub record ShardManager (Q Conditions : Type 0) : Type 0 where
  pub conditions : Conditions
  pub spec_replicas : ReplicaList Q
  pub status_replicas : ReplicaList Q

-- The fields of the reconciler that may be nil, and the time in RFC 3339.
pub record Reconciler : Type 0 where
  pub has_recorder : Bool
  pub has_api_reader : Bool
  pub now : Text

module _ (Q : Type 0) (m : Meta) where
  abbrev pub Scaler' : Type 0
  Scaler' = Scaler Q m.Conditions

  -- An event is its reason with the numbers of its note.
  pub data Call : Type 0 where
    update_status : Scaler' → Call
    update_shard_manager : ReplicaList Q → Call
    update_stateful_set : StatefulSet → Call
    refresh_stateful_set : Call
    event : String → List ℕ → Call
    count_change : Call

  -- What the pass reads: the objects that findByRef found.
  pub record World : Type 0 where
    pub provider : Result (PartitionProvider Q m.Conditions)
    pub shard_manager : Result (ShardManager Q m.Conditions)
    pub stateful_set : Result StatefulSet
