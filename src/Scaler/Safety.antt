-- ===== src/Scaler/Safety.antt =====
-- What a pass may do to the shard manager and the stateful set in the mode X-0-Y.
use argocd_autoscaler.Base.{◌≡◌, ◌⊎◌, true, Option, some, All}
use argocd_autoscaler.Controller.{Error, Meta, IsMeta, ok}
use argocd_autoscaler.Scaler.{StatefulSet, Mode, resolve_mode}
use argocd_autoscaler.Scaler.Objects.{
  found, PartitionProvider, ShardManager, Reconciler, Scaler', Call, update_status,
  update_shard_manager, update_stateful_set, refresh_stateful_set, event, count_change,
}
use argocd_autoscaler.Scaler.Reconcile.{same_assignment, transition_pending, reconcile}
use argocd_autoscaler.Scaler.Guarding.{reconcile-IsGuarded}
use argocd_autoscaler.Scaler.Guards.{IsGuarded}
use argocd_autoscaler.Base.{All-map}

module _ {Q : Type 0} {m : Meta} where
  -- What a call may do when the objects are as the pass found them, in the mode X-0-Y with the
  -- assignment of the provider not yet that of the scaler. The shard manager gets the assignment of
  -- the provider, and only when no replica runs. The stateful set is scaled to 0, or no replica runs
  -- and the shard manager has applied the assignment.
  pub IsSafe :
      Mode
      → PartitionProvider Q m.Conditions
      → ShardManager Q m.Conditions
      → Scaler' Q m
      → StatefulSet
      → Call Q m
      → Type 0
  IsSafe mode p sm s sts (update_status s') = Unit
  IsSafe mode p sm s sts (update_shard_manager rs) =
      rs ≡ p.replicas × (transition_pending Q m mode p s ≡ true → sts.status_replicas ≡ 0)
  IsSafe mode p sm s sts (update_stateful_set t) =
      transition_pending Q m mode p s ≡ true
      → t.spec_replicas ≡ some 0
        ⊎ (sts.status_replicas ≡ 0 × same_assignment Q m p.replicas sm.status_replicas ≡ true)
  IsSafe mode p sm s sts refresh_stateful_set = Unit
  IsSafe mode p sm s sts (event reason numbers) = Unit
  IsSafe mode p sm s sts count_change = Unit

  guarded→IsSafe :
      (mode : Mode) (p : PartitionProvider Q m.Conditions) (sm : ShardManager Q m.Conditions)
      (s : Scaler' Q m) (sts : StatefulSet) (c : Call Q m)
      → IsGuarded mode p sm s sts c
      → IsSafe mode p sm s sts c
  unfolding IsSafe IsGuarded
  guarded→IsSafe mode p sm s sts (update_status s') h = tt
  guarded→IsSafe mode p sm s sts (update_shard_manager rs) h = h
  guarded→IsSafe mode p sm s sts (update_stateful_set t) h = h
  guarded→IsSafe mode p sm s sts refresh_stateful_set h = tt
  guarded→IsSafe mode p sm s sts (event reason numbers) h = tt
  guarded→IsSafe mode p sm s sts count_change h = tt

  -- Where the mode resolves and a condition that is set is the one that is found, every call of a
  -- pass is safe for the objects that the pass found, however the calls are answered. In the
  -- mode X-0-Y, while the assignment of the provider is not yet that of the scaler, a running
  -- stateful set is only ever scaled to 0, the shard manager gets the assignment of the provider
  -- only when no replica runs, and the stateful set gets another number of replicas only when, in
  -- addition, the shard manager reports that it has applied that assignment.
  pub reconcile-IsSafe :
      (laws : IsMeta m) (r : Reconciler) (answer : Call Q m → Option Error) (mode : Mode)
      (p : PartitionProvider Q m.Conditions) (sm : ShardManager Q m.Conditions) (s : Scaler' Q m)
      (sts : StatefulSet)
      → resolve_mode s.spec.mode ≡ some mode
      → All
          (IsSafe mode p sm s sts)
          (reconcile Q m r answer
            (found s)
            record { provider = ok p; shard_manager = ok sm; stateful_set = ok sts }).calls
  reconcile-IsSafe laws r answer mode p sm s sts h =
      All-map _ (guarded→IsSafe mode p sm s sts)
        (reconcile-IsGuarded laws r answer mode p sm s sts h)
