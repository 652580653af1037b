-- ===== src/Scaler/Rollout/Reverting.antt =====
-- A rollout in the mode X-0-Y whose assignment is taken back on the way.
use argocd_autoscaler.Base.{
  ◌≡◌, refl, ap, ◌∙◌, inl, inr, true, false, ◌&&◌, ltb, lt→ltb, ◌<◌, Bool-cases, some, arith,
}
use argocd_autoscaler.Api.{ReplicaList}
use argocd_autoscaler.Controller.{Meta, IsMeta, is_ready}
use argocd_autoscaler.Scaler.{StatefulSet, is_zero}
use argocd_autoscaler.Scaler.Objects.{Reconciler}
use argocd_autoscaler.Scaler.Reconcile.{same_assignment}
use argocd_autoscaler.Scaler.Rollout.{Cluster, Reach, here, next, run}
use argocd_autoscaler.Scaler.Rollout.Orderly.{Same, Same-sym, Same-trans, Pending}
use argocd_autoscaler.Scaler.Rollout.Effects.{
  desired, IsWilling, said, asked, effect, effect-enforce, pass_to,
}
use argocd_autoscaler.Scaler.Rollout.Branches.{acting-tells, acting-zero}
use argocd_autoscaler.Scaler.Rollout.Telling.{running, take-HasTaken}

down-is_zero : (t : StatefulSet) → t.status_replicas ≡ 0 → is_zero t ≡ true
unfolding is_zero
down-is_zero t h = ground (arith, h)

module _ (Q : Type 0) (m : Meta) (r : Reconciler) (cs : m.Conditions) (laws : IsMeta m)
    (provider_ready : is_ready m cs ≡ true) (old new : ReplicaList Q) where
  -- Two assignments that are not the same, of which one is the same as a third.
  unlike_lem :
      (rs : ReplicaList Q)
      → same_assignment Q m new old ≡ false
      → Same Q m old rs
      → same_assignment Q m new rs ≡ false
  unlike_lem rs changed same = elim (Bool-cases (same_assignment Q m new rs)) [
    | inr e ↦ e
    | inl e ↦ absurd (ground (arith, changed, Same-trans Q m _ _ _ e (Same-sym Q m _ _ same)))
  ]

  -- What a scaler wants of a cluster does not depend on the assignment.
  willing_lem : (c : Cluster Q m) → IsWilling Q m r new cs c → IsWilling Q m r old cs c
  willing_lem c h = record {
    mode = h.mode;
    kind = h.kind;
    not_paused = h.not_paused;
    manager_ready = h.manager_ready;
    container = h.container;
    asks = h.asks;
  }

  -- The old assignment is everywhere, and the scaler takes part.
  pub record IsCalm (c : Cluster Q m) : Type 0 where
    pub willing : IsWilling Q m r new cs c
    pub recorded : Same Q m old c.scaler.status.replicas
    pub told : Same Q m old c.manager.spec_replicas
    pub applied : Same Q m old c.manager.status_replicas

  -- Replicas run while the shard manager has another assignment to apply.
  pub record IsEarly (c : Cluster Q m) : Type 0 where
    pub runs : 0 < c.stateful_set.status_replicas
    pub unlike : same_assignment Q m c.manager.spec_replicas c.manager.status_replicas ≡ false

  -- Nothing runs, and the shard manager is told the new assignment, while the old one is recorded.
  record IsTurned (c d : Cluster Q m) : Type 0 where
    reached : Reach Q m new c d
    willing : IsWilling Q m r new cs d
    recorded : Same Q m old d.scaler.status.replicas
    down : d.stateful_set.status_replicas ≡ 0
    unlike : same_assignment Q m d.manager.spec_replicas d.manager.status_replicas ≡ false

  pending_lem :
      (c : Cluster Q m) → IsCalm c → same_assignment Q m new old ≡ false → Pending Q m new c
  pending_lem c h changed = unlike_lem c.scaler.status.replicas changed h.recorded

  turn-IsTurned :
      (c : Cluster Q m)
      → IsCalm c
      → same_assignment Q m new old ≡ false
      → (d : Cluster Q m) × IsTurned c d
  turn-IsTurned c h changed =
      let (d, taken) =
        take-HasTaken Q m r new cs laws provider_ready c c here h.willing
          (pending_lem c h changed) in
      let recorded : Same Q m old d.scaler.status.replicas =
        ap (λ rs. same_assignment Q m old rs) taken.recorded ∙ h.recorded in
      let told =
        unlike_lem d.manager.spec_replicas changed
          (ap (λ x. same_assignment Q m old x.spec_replicas) taken.manager ∙ h.told) in
      let applied =
        unlike_lem d.manager.status_replicas changed
          (ap (λ x. same_assignment Q m old x.status_replicas) taken.manager ∙ h.applied) in
      let d' = record d { manager = record (d.manager) { spec_replicas = new } } in
      (
        said Q m r new cs "WaitingForShardManagerToApplyDesiredState" d',
        record {
          reached = pass_to Q m r new cs provider_ready taken.reached taken.willing (
              acting-tells Q m r new cs d (unlike_lem d.scaler.status.replicas changed recorded)
                (ground (arith, taken.down)) told applied);
          willing = record {
            mode = taken.willing.mode;
            kind = taken.willing.kind;
            not_paused = taken.willing.not_paused;
            manager_ready = taken.willing.manager_ready;
            container = taken.willing.container;
            asks = taken.willing.asks;
          };
          recorded = recorded;
          down = taken.down;
          unlike = applied;
        },
      )

  start-IsEarly :
      (c d : Cluster Q m)
      → IsTurned c d
      → 0 < desired Q m r old cs
      → (e : Cluster Q m) × Reach Q m old d e × IsEarly e
  start-IsEarly c d h filled =
      let k = desired Q m r old cs in
      let starts : ltb 0 k && is_zero d.stateful_set ≡ true =
        rw (lt→ltb 0 k filled, down-is_zero d.stateful_set h.down) refl in
      let d' = said Q m r old cs "EnforcingDesiredState" (asked Q m r old cs k d) in
      let there = pass_to Q m r old cs provider_ready here (willing_lem d h.willing) (
        ap (λ p. effect Q m r old cs p d) (acting-zero Q m r old cs d h.recorded starts)
        ∙ effect-enforce Q m r old cs d h.willing.container k) in
      (
        running Q m r old cs laws provider_ready k d',
        next there (run d' k (λ z. ground (arith, z)) (λ z. ap some z)),
        record { runs = filled; unlike = h.unlike },
      )

  -- In the mode X-0-Y, where the scaler has recorded an assignment with replicas, which the shard
  -- manager has in its spec and has applied: if the partition provider changes to another assignment
  -- and then goes back, there are steps that lead to replicas that run while the shard manager has
  -- another assignment in its spec than the one that it has applied. The scaler is not paused and
  -- refers to a stateful set that has the container and a number of replicas in its spec, the
  -- provider and the shard manager are ready, and a condition that is set is the one that is found.
  pub going_back-IsEarly :
      (c : Cluster Q m)
      → IsCalm c
      → same_assignment Q m new old ≡ false
      → 0 < desired Q m r old cs
      → (d : Cluster Q m) × (e : Cluster Q m) × Reach Q m new c d × Reach Q m old d e × IsEarly e
  going_back-IsEarly c h changed filled =
      let (d, turned) = turn-IsTurned c h changed in
      let (e, back, early) = start-IsEarly c d turned filled in (d, e, turned.reached, back, early)
