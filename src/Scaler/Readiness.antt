-- ===== src/Scaler/Readiness.antt =====
-- What a ready replica set scaler says.
use argocd_autoscaler.Base.{◌≡◌, true, Option, some, All}
use argocd_autoscaler.Controller.{Error, Meta, IsMeta, is_ready, ok}
use argocd_autoscaler.Scaler.{StatefulSet, Mode, resolve_mode}
use argocd_autoscaler.Scaler.Objects.{
  found, PartitionProvider, ShardManager, Reconciler, Scaler', Call, update_status,
  update_shard_manager, update_stateful_set, refresh_stateful_set, event, count_change,
}
use argocd_autoscaler.Scaler.Reconcile.{reconcile}
use argocd_autoscaler.Scaler.Guarding.{reconcile-IsGuarded}
use argocd_autoscaler.Scaler.Guards.{IsGuarded, IsSettled}
use argocd_autoscaler.Base.{All-map}

module _ {Q : Type 0} {m : Meta} where
  -- A call that writes a ready status writes it when everything is settled.
  pub IsTruthful :
      PartitionProvider Q m.Conditions
      → ShardManager Q m.Conditions
      → StatefulSet
      → Call Q m
      → Type 0
  IsTruthful p sm sts (update_status s') =
      is_ready m s'.status.conditions ≡ true → IsSettled Q m p sm s' sts
  IsTruthful p sm sts (update_shard_manager rs) = Unit
  IsTruthful p sm sts (update_stateful_set t) = Unit
  IsTruthful p sm sts refresh_stateful_set = Unit
  IsTruthful p sm sts (event reason numbers) = Unit
  IsTruthful p sm sts count_change = Unit

  guarded→IsTruthful :
      (mode : Mode) (p : PartitionProvider Q m.Conditions) (sm : ShardManager Q m.Conditions)
      (s : Scaler' Q m) (sts : StatefulSet) (c : Call Q m)
      → IsGuarded mode p sm s sts c
      → IsTruthful p sm sts c
  unfolding IsTruthful IsGuarded
  guarded→IsTruthful mode p sm s sts (update_status s') h = h.0
  guarded→IsTruthful mode p sm s sts (update_shard_manager rs) h = tt
  guarded→IsTruthful mode p sm s sts (update_stateful_set t) h = tt
  guarded→IsTruthful mode p sm s sts refresh_stateful_set h = tt
  guarded→IsTruthful mode p sm s sts (event reason numbers) h = tt
  guarded→IsTruthful mode p sm s sts count_change h = tt

  -- Where the mode resolves and a condition that is set is the one that is found, a status that a
  -- pass writes as ready has been checked against the objects that the pass found, however the
  -- calls are answered: the assignment of the provider and that of the status are serialised like
  -- the one that the shard manager reports in its status, the stateful set asks for as
  -- many replicas as the provider has and gives the container that number, and as many run.
  pub reconcile-IsTruthful :
      (laws : IsMeta m) (r : Reconciler) (answer : Call Q m → Option Error) (mode : Mode)
      (p : PartitionProvider Q m.Conditions) (sm : ShardManager Q m.Conditions) (s : Scaler' Q m)
      (sts : StatefulSet)
      → resolve_mode s.spec.mode ≡ some mode
      → All
          (IsTruthful p sm sts)
          (reconcile Q m r answer
            (found s)
            record { provider = ok p; shard_manager = ok sm; stateful_set = ok sts }).calls
  reconcile-IsTruthful laws r answer mode p sm s sts h =
      All-map _ (guarded→IsTruthful mode p sm s sts)
        (reconcile-IsGuarded laws r answer mode p sm s sts h)
