-- ===== src/Partition/Publishing.antt =====
-- What the partition resource publishes.
use argocd_autoscaler.Base.{
  ◌≡◌, refl, true, Bool-cases, inl, inr, Option, List, [], ◌∷◌, All, Perm, arith,
}
use argocd_autoscaler.Arithmetic.{Arithmetic, IsOrdered}
use argocd_autoscaler.Sorting.{IsSort}
use argocd_autoscaler.Api.{LoadIndex, Replica, ReplicaList}
use argocd_autoscaler.Controller.{Error, ok, Meta, IsMeta, is_ready, Pass}
use argocd_autoscaler.Controller.Calls.{finish-All, not_ready-set}
use argocd_autoscaler.Partition.{heavier, partition}
use argocd_autoscaler.Partition.Conservation.{shards_of, partition-perm}
use argocd_autoscaler.Outcomes.{Outcome, returned, failed, panicked}
use argocd_autoscaler.Partition.Reconcile.{
  Call, Resource, Provider, delete_shards, delete_total_loads, set_shard, set_total_load,
  update_status, record_load_indexes, record_replicas, report, publish, check_provider,
  find_provider, reconcile, found, max_of,
}
use Prim.Native.String.{String}

-- A ready status has the shards of a ready provider, each one once.
pub record IsPublished (n : Arithmetic) (m : Meta) (p : Provider n m) (s' : Resource n m)
    : Type 0 where
  pub provider_ready : is_ready m p.conditions ≡ true
  pub conserves : Perm (shards_of n s'.status.replicas) p.values

module _ (n : Arithmetic) (m : Meta) where
  unfoldable pub IsConserving : Provider n m → Call n m → Type 0
  IsConserving p delete_shards = Unit
  IsConserving p delete_total_loads = Unit
  IsConserving p (set_shard labels) = Unit
  IsConserving p (set_total_load label load) = Unit
  IsConserving p (update_status s') = is_ready m s'.status.conditions ≡ true → IsPublished n m p s'

  module _ (sort : List (LoadIndex n.Quantity) → List (LoadIndex n.Quantity))
      (answer : Call n m → Option Error) (laws : IsMeta m) (p : Provider n m) where
    report-Conserving :
        (reason : String) (s : Resource n m)
        → All (IsConserving p) (report n m sort answer reason s).calls
    unfolding IsConserving
    report-Conserving reason s =
        finish-All (IsConserving p) answer _ _
          (λ e. let e' = not_ready-set m laws s.status.conditions reason in ground arith)

    record_load_indexes-Conserving :
        (r : Replica n.Quantity) (ls : List (LoadIndex n.Quantity)) (rest : Pass (Call n m))
        → All (IsConserving p) rest.calls
        → All (IsConserving p) (record_load_indexes n m r ls rest).calls
    unfolding record_load_indexes IsConserving
    record_load_indexes-Conserving r [] rest h = h
    record_load_indexes-Conserving r (l ∷ ls) rest h =
        (tt, record_load_indexes-Conserving r ls rest h)

    record_replicas-Conserving :
        (rs : ReplicaList n.Quantity) (rest : Pass (Call n m))
        → All (IsConserving p) rest.calls
        → All (IsConserving p) (record_replicas n m rs rest).calls
    unfolding record_replicas IsConserving
    record_replicas-Conserving [] rest h = h
    record_replicas-Conserving (r ∷ rs) rest h =
        record_load_indexes-Conserving r r.load_indexes _ (tt, record_replicas-Conserving rs rest h)

    module _ (sorting : IsSort (heavier n) sort) (ordered : IsOrdered n) where
      publish-Conserving :
          (s : Resource n m) (x : Outcome (ReplicaList n.Quantity))
          → is_ready m p.conditions ≡ true
          → partition n sort p.values (max_of s.spec.max_shards_per_replica) ≡ x
          → All (IsConserving p) (publish n m sort answer s x).calls
      unfolding publish IsConserving
      publish-Conserving s panicked r e = tt
      publish-Conserving s failed r e = report-Conserving "ErrorDuringPartitioning" s
      publish-Conserving s (returned rs) r e = (
        tt,
        (
          tt,
          record_replicas-Conserving rs _ (
              finish-All (IsConserving p) answer _ _ (λ is_ready. record {
                provider_ready = r;
                conserves = partition-perm n sort sorting ordered p.values _ e;
              })),
        ),
      )

      -- Where `sort.Sort` sorts, `<` on loads is an order and a condition that is set is the one that
      -- is found: whatever the API server answers, a ready status that a pass writes has replicas
      -- that hold exactly the load indexes of the provider, each one once, and the provider was ready.
      pub reconcile-IsConserving :
          (s : Resource n m)
          → All (IsConserving p) (reconcile n m sort answer (found s) (ok p)).calls
      unfolding reconcile find_provider check_provider
      reconcile-IsConserving s = elim (Bool-cases (is_ready m p.conditions)) [
        | inl e ↦ rw e (publish-Conserving s _ e refl)
        | inr e ↦ rw e (report-Conserving "LoadIndexProviderNotReady" s)
      ]
