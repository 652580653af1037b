-- ===== src/Scaler/Rollout.antt =====
-- A rollout as a sequence of steps: passes of the replica set scaler, in any order with steps of the
-- controllers of its shard manager and its stateful set, while the partition provider keeps to one
-- assignment. A pass is one step: the objects do not change between what it reads and its calls.
pub mod Orderly
pub mod Exclusive
pub mod Reverting
pub mod Effects
pub mod Branches
pub mod Telling
pub mod Completing
use argocd_autoscaler.Base.{ℕ, ◌≤◌, ◌≡◌, Option, none, some, List, [], ◌∷◌}
use argocd_autoscaler.Api.{ReplicaList}
use argocd_autoscaler.Controller.{Error, Meta, ok}
use argocd_autoscaler.Scaler.{StatefulSet}
use argocd_autoscaler.Scaler.Objects.{
  found, PartitionProvider, ShardManager, Reconciler, Scaler', Call, World, update_status,
  update_shard_manager, update_stateful_set, refresh_stateful_set, event, count_change,
}
use argocd_autoscaler.Scaler.Reconcile.{reconcile}

module _ (Q : Type 0) (m : Meta) where
  pub record Cluster : Type 0 where
    pub scaler : Scaler' Q m
    pub manager : ShardManager Q m.Conditions
    pub stateful_set : StatefulSet

  -- What the API server does on a call. An update of the status leaves the spec alone, and the
  -- other way round.
  abbrev pub apply : Call Q m → Cluster → Cluster
  apply (update_status s) c = record c { scaler = record (c.scaler) { status = s.status } }
  apply (update_shard_manager rs) c = record c {
    manager = record (c.manager) { spec_replicas = rs };
  }
  apply (update_stateful_set t) c = record c {
    stateful_set = record t { status_replicas = c.stateful_set.status_replicas };
  }
  apply refresh_stateful_set c = c
  apply (event reason numbers) c = c
  apply count_change c = c

  -- A call that is answered with an error has no effect.
  abbrev pub apply_if : Option Error → Call Q m → Cluster → Cluster
  apply_if none call c = apply call c
  apply_if (some e) call c = c

  unfoldable pub apply_all : (Call Q m → Option Error) → List (Call Q m) → Cluster → Cluster
  apply_all answer [] c = c
  apply_all answer (x ∷ xs) c = apply_all answer xs (apply_if (answer x) x c)

  abbrev pub world_of : PartitionProvider Q m.Conditions → Cluster → World Q m
  world_of p c = record {
    provider = ok p;
    shard_manager = ok c.manager;
    stateful_set = ok c.stateful_set;
  }

  -- `wanted` is the assignment of the partition provider.
  pub data Step (wanted : ReplicaList Q) : Cluster → Cluster → Type 0 where
    pass :
        (c : Cluster) (r : Reconciler) (answer : Call Q m → Option Error)
        (conditions : m.Conditions)
        → Step wanted c (
            apply_all answer
              (reconcile Q m r answer
                (found c.scaler)
                (world_of (record { conditions = conditions; replicas = wanted }) c)).calls
              c)
    -- Replicas start and stop. None starts while none is asked for, and the last one does not go
    -- while some are.
    run :
        (c : Cluster) (k : ℕ)
        → (c.stateful_set.spec_replicas ≡ some 0 → k ≤ c.stateful_set.status_replicas)
        → (k ≡ 0 → c.stateful_set.spec_replicas ≡ some 0)
        → Step wanted c
            (record c { stateful_set = record (c.stateful_set) { status_replicas = k } })
    -- The shard manager has written its assignment into the secrets.
    assign :
        (c : Cluster)
        → Step wanted c (record c {
          manager = record (c.manager) { status_replicas = c.manager.spec_replicas };
        })
    report_manager :
        (c : Cluster) (conditions : m.Conditions)
        → Step wanted c (record c { manager = record (c.manager) { conditions = conditions } })

  pub data Reach (wanted : ReplicaList Q) (c : Cluster) : Cluster → Type 0 where
    here : Reach wanted c c
    next : {d e : Cluster} → Reach wanted c d → Step wanted d e → Reach wanted c e
