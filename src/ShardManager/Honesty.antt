-- ===== src/ShardManager/Honesty.antt =====
-- What a ready shard manager says.
use argocd_autoscaler.Base.{
  ◌≡◌, refl, true, Option, none, some, List, [], ◌∷◌, arith, Option-cases, inl, inr, All,
}
use argocd_autoscaler.Text.{Text}
use argocd_autoscaler.Api.{Replica}
use argocd_autoscaler.Controller.{Error, ok, Meta, IsMeta, is_ready, Outcome, done, failed, Pass}
use argocd_autoscaler.Controller.Calls.{finish-All, not_ready-set}
use argocd_autoscaler.ShardManager.{
  Secret, index_replicas, Read, read, read_malformed, read_nil_map, read_secrets,
}
use argocd_autoscaler.ShardManager.Reconcile.{
  found, Manager', Call, delete_gauges, set_gauge, update_secret, update_status, record_secrets,
  report, update_secrets, conclude, after_index, synchronize, list_secrets, reconcile,
}
use Prim.Native.String.{String}

module _ {Q : Type 0} {m : Meta} (answer : Call Q m → Option Error) where
  -- The secrets are as the replicas of the spec ask, once the updates that were answered are stored.
  pub record IsApplied (s s' : Manager' Q m) (secrets : List Secret) : Type 0 where
    pub replicas : s'.status.replicas ≡ s.spec_replicas
    pub known : List (Text × Replica Q)
    pub indexed : index_replicas s.spec_replicas [] ≡ some known
    pub updates : List Secret
    pub written : read_secrets known secrets ≡ read s'.status.shards updates
    pub answers : All (λ u. answer (update_secret u) ≡ none) updates

  unfoldable pub IsHonest : Manager' Q m → List Secret → Call Q m → Type 0
  IsHonest s secrets delete_gauges = Unit
  IsHonest s secrets (set_gauge labels) = Unit
  IsHonest s secrets (update_secret u) = Unit
  IsHonest s secrets (update_status s') =
      is_ready m s'.status.conditions ≡ true → IsApplied s s' secrets

  module _ (laws : IsMeta m) (s : Manager' Q m) (secrets : List Secret) where
    abbrev Honest : Call Q m → Type 0
    Honest = IsHonest s secrets

    report-Honest :
        (reason : String) (o : Outcome) → All Honest (report Q m answer reason o s).calls
    unfolding IsHonest
    report-Honest reason o =
        finish-All Honest answer _ o
          (λ e. let e' = not_ready-set m laws s.status.conditions reason in ground arith)

    update_secrets-Honest :
        (updates : List Secret) (rest : Pass (Call Q m))
        → (All (λ u. answer (update_secret u) ≡ none) updates → All Honest rest.calls)
        → All Honest (update_secrets Q m answer updates s rest).calls
    unfolding update_secrets IsHonest
    update_secrets-Honest [] rest h = h tt
    update_secrets-Honest (u ∷ us) rest h = elim (Option-cases (answer (update_secret u))) [
      | inl e ↦ rw e (tt, update_secrets-Honest us rest (λ k. h (e, k)))
      | inr (x, e) ↦ rw e (tt, report-Honest "FailedToUpdateSecret" (failed x))
    ]

    conclude-Honest :
        (known : List (Text × Replica Q)) (x : Read)
        → index_replicas s.spec_replicas [] ≡ some known
        → read_secrets known secrets ≡ x
        → All Honest (conclude Q m answer x s).calls
    unfolding IsHonest
    conclude-Honest known read_malformed e e' = report-Honest _ _
    conclude-Honest known read_nil_map e e' = tt
    conclude-Honest known (read shards updates) e e' = update_secrets-Honest updates _ (λ k.
        finish-All Honest answer _ _ (λ is_ready. record {
          replicas = refl;
          known = known;
          indexed = e;
          updates = updates;
          written = e';
          answers = k;
        }))

    after_index-Honest :
        (x : Option (List (Text × Replica Q)))
        → index_replicas s.spec_replicas [] ≡ x
        → All Honest (after_index Q m answer x s secrets).calls
    after_index-Honest none e = report-Honest "FailedToReadDesiredReplicaShard" done
    after_index-Honest (some known) e = conclude-Honest known (read_secrets known secrets) e refl

    synchronize-Honest : All Honest (synchronize Q m answer s secrets).calls
    unfolding synchronize
    synchronize-Honest = after_index-Honest (index_replicas s.spec_replicas []) refl

    record_secrets-Honest :
        (ss : List Secret) (rest : Pass (Call Q m))
        → All Honest rest.calls
        → All Honest (record_secrets Q m ss rest).calls
    unfolding record_secrets IsHonest
    record_secrets-Honest [] rest h = h
    record_secrets-Honest (x ∷ xs) rest h = (tt, record_secrets-Honest xs rest h)

    -- Where a condition that is set is the one that is found, and whatever the API server answers, a
    -- pass that has listed the secrets writes a ready status only when no shard is in the spec twice, every secret could be read, and the update of each secret
    -- that was out of date succeeded; that status has the replicas of the spec and the shards of the
    -- secrets.
    pub reconcile-IsHonest :
        All (IsHonest s secrets) (reconcile Q m answer (found s) (ok secrets)).calls
    unfolding reconcile list_secrets IsHonest
    reconcile-IsHonest = (tt, record_secrets-Honest secrets _ synchronize-Honest)
