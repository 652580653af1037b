-- ===== src/Examples/Rollouts.antt =====
-- A rollout in the mode X-0-Y, and one that is taken back.
use argocd_autoscaler.Base.{ℕ, refl, Option, none, some, [], arith}
use argocd_autoscaler.Text.{text_eq, text_lt, itoa}
use argocd_autoscaler.Api.Serialize.{serialize_to_string}
use argocd_autoscaler.Controller.{Condition, last_condition, ready}
use argocd_autoscaler.Scaler.{resolve_mode, container_found}
use argocd_autoscaler.Scaler.Objects.{found, PartitionProvider, ShardManager}
use argocd_autoscaler.Scaler.Reconcile.{reconcile}
use argocd_autoscaler.Scaler.Rollout.{Cluster, Reach, apply_all, world_of, here, next, pass, assign}
use argocd_autoscaler.Scaler.Rollout.Orderly.{IsExclusive}
use argocd_autoscaler.Scaler.Rollout.Exclusive.{Reach-IsExclusive}
use argocd_autoscaler.Scaler.Rollout.Effects.{IsWilling}
use argocd_autoscaler.Scaler.Rollout.Completing.{IsComplete, rollout-IsComplete}
use argocd_autoscaler.Scaler.Rollout.Reverting.{IsCalm, IsEarly, going_back-IsEarly}
use argocd_autoscaler.Examples.Shards.{parts}
use argocd_autoscaler.Examples.Deployments.{
  controller, scaler, reconciler, accepts, last_condition-IsMeta,
}

abbrev manager : ShardManager ℕ (Option Condition)
manager = record { conditions = some ready; spec_replicas = []; status_replicas = [] }

abbrev before : Cluster ℕ last_condition
before = record { scaler = scaler none; manager = manager; stateful_set = controller }

abbrev provider : PartitionProvider ℕ (Option Condition)
provider = record { conditions = some ready; replicas = parts }

abbrev passed : Cluster ℕ last_condition
passed =
    apply_all ℕ last_condition accepts
      (reconcile ℕ last_condition reconciler accepts (found before.scaler)
        (world_of ℕ last_condition provider before)).calls
      before

abbrev after : Cluster ℕ last_condition
after = record passed {
  manager = record (passed.manager) { status_replicas = passed.manager.spec_replicas };
}

Reach-IsExclusive_example : IsExclusive ℕ last_condition parts after
unfolding resolve_mode serialize_to_string text_eq text_lt itoa
Reach-IsExclusive_example =
    Reach-IsExclusive ℕ last_condition parts last_condition-IsMeta before after refl refl refl
      (λ e. cc) (next (next here (pass before reconciler accepts (some ready))) (assign passed))

before-IsWilling : IsWilling ℕ last_condition reconciler parts (some ready) before
unfolding resolve_mode container_found text_eq
before-IsWilling = record {
  mode = refl;
  kind = refl;
  not_paused = refl;
  manager_ready = refl;
  container = refl;
  asks = (2, refl);
}

rollout-IsComplete_example :
    (e : Cluster ℕ last_condition) × IsComplete ℕ last_condition reconciler parts
      (some ready)
      last_condition-IsMeta
      refl
      before
      e
unfolding resolve_mode serialize_to_string text_eq text_lt itoa
rollout-IsComplete_example =
    rollout-IsComplete ℕ last_condition reconciler parts (some ready) last_condition-IsMeta refl
      before before refl refl refl (λ e. cc) here before-IsWilling

-- The assignment of all shards is recorded and applied, and the provider turns to one without any.
abbrev steady : Cluster ℕ last_condition
steady = record {
  scaler = record (scaler none) { status = record { conditions = none; replicas = parts } };
  manager = record manager { spec_replicas = parts; status_replicas = parts };
  stateful_set = controller;
}

steady-IsCalm :
    IsCalm ℕ last_condition reconciler (some ready) last_condition-IsMeta refl parts [] steady
unfolding resolve_mode container_found serialize_to_string text_eq text_lt itoa
steady-IsCalm = record {
  willing = record {
    mode = refl;
    kind = refl;
    not_paused = refl;
    manager_ready = refl;
    container = refl;
    asks = (2, refl);
  };
  recorded = refl;
  told = refl;
  applied = refl;
}

going_back-IsEarly_example :
    (d : Cluster ℕ last_condition) × (e : Cluster ℕ last_condition) × Reach ℕ last_condition []
      steady d
    × Reach ℕ last_condition parts d e
    × IsEarly ℕ last_condition reconciler (some ready) last_condition-IsMeta refl parts [] e
unfolding serialize_to_string text_eq text_lt itoa
going_back-IsEarly_example =
    going_back-IsEarly ℕ last_condition reconciler (some ready) last_condition-IsMeta refl parts []
      steady steady-IsCalm refl (omega arith)
