-- ===== src/Scaler/Rollout/Exclusive.antt =====
-- In the mode X-0-Y no replica runs while the assignment of the shards changes.
use argocd_autoscaler.Base.{
  ◌≡◌, refl, sym, ap, subst, ◌∙◌, ◌⊎◌, inl, inr, true, false, Bool-cases, some, arith,
}
use argocd_autoscaler.Api.{ReplicaList}
use argocd_autoscaler.Controller.{Meta, IsMeta}
use argocd_autoscaler.Scaler.{x0y_mode, resolve_mode}
use argocd_autoscaler.Scaler.Objects.{PartitionProvider}
use argocd_autoscaler.Scaler.Reconcile.{same_assignment}
use argocd_autoscaler.Scaler.Guarding.{reconcile-IsGuarded}
use argocd_autoscaler.Scaler.Rollout.Orderly.{
  Same, Same-refl, Same-sym, Same-trans, Pending, IsStopped, IsExclusive, IsOrderly, HasPassed,
  unchanged, apply_all-HasPassed,
}
use argocd_autoscaler.Scaler.Rollout.{
  Cluster, Step, pass, run, assign, report_manager, Reach, here, next,
}

module _ (Q : Type 0) (m : Meta) where
  module _ (wanted : ReplicaList Q) where
    -- The spec of the shard manager after a pass is like the assignment, if it was so before.
    spec_lem :
        (c d : Cluster Q m)
        → HasPassed Q m wanted c d
        → Same Q m wanted c.manager.spec_replicas
        → Same Q m wanted d.manager.spec_replicas
    spec_lem c d h k = elim h.assigned [
      | inl e ↦ subst (Same Q m wanted) (sym e) k
      | inr e ↦ subst (Same Q m wanted) (sym e.0) (Same-refl Q m wanted)
    ]

    -- Where the shard manager has applied the assignment, it stands in its spec.
    applied_lem :
        (c : Cluster Q m)
        → IsOrderly Q m wanted c
        → Same Q m wanted c.manager.status_replicas
        → Same Q m wanted c.manager.spec_replicas
    applied_lem c h k = elim h.exclusive [
      | inl e ↦ Same-trans Q m _ _ _ k (Same-sym Q m _ _ e)
      | inr e ↦ e.1
    ]

    passed_applied :
        (c d : Cluster Q m)
        → IsOrderly Q m wanted c
        → HasPassed Q m wanted c d
        → Same Q m wanted c.manager.status_replicas
        → IsOrderly Q m wanted d
    passed_applied c d h k a =
        let status = subst (Same Q m wanted) (sym k.manager_status) a in
        let spec = spec_lem c d k (applied_lem c h a) in
        record {
          mode = ap (λ s. resolve_mode s.mode) k.spec ∙ h.mode;
          recorded = λ e. (spec, status);
          exclusive = inl (Same-trans Q m _ _ _ (Same-sym Q m _ _ spec) status);
          starting = inl status;
        }

    module _ (c d : Cluster Q m) (h : IsOrderly Q m wanted c) (k : HasPassed Q m wanted c d)
        (not_yet : same_assignment Q m wanted c.manager.status_replicas ≡ false) where
      contradiction : {A : Type 0} → Same Q m wanted c.manager.status_replicas → A
      contradiction e = ground (arith, e, not_yet)

      pending : Pending Q m wanted c
      pending = elim (Bool-cases (same_assignment Q m wanted c.scaler.status.replicas)) [
        | inl e ↦ contradiction (h.recorded e).1
        | inr e ↦ e
      ]

      stopped_asks : c.stateful_set.spec_replicas ≡ some 0 → d.stateful_set.spec_replicas ≡ some 0
      stopped_asks e = elim k.asked [
        | inl e' ↦ e' ∙ e
        | inr (inl e') ↦ e'
        | inr (inr e') ↦ contradiction (e' pending)
      ]

      starts : c.stateful_set.status_replicas ≡ 0 → c.stateful_set.spec_replicas ≡ some 0
      starts = elim h.starting [ inl e ↦ contradiction e | inr e ↦ e ]

      passed_exclusive :
          Same Q m d.manager.spec_replicas d.manager.status_replicas
          ⊎ (IsStopped Q m wanted d × Same Q m wanted d.manager.spec_replicas)
      passed_exclusive = elim h.exclusive [
        | inr e ↦ inr (
          record { asked = stopped_asks e.0.asked; running = k.running ∙ e.0.running },
          spec_lem c d k e.1,
        )
        | inl e ↦ elim k.assigned [
          | inl e' ↦ inl (
              subst (λ rs. Same Q m rs d.manager.status_replicas) (sym e')
                (subst (Same Q m c.manager.spec_replicas) (sym k.manager_status) e))
          | inr e' ↦
              let none_runs = e'.1 pending in
              inr (
                record { asked = stopped_asks (starts none_runs); running = k.running ∙ none_runs },
                subst (Same Q m wanted) (sym e'.0) (Same-refl Q m wanted),
              )
        ]
      ]

      passed_recorded :
          same_assignment Q m wanted d.scaler.status.replicas ≡ true
          → Same Q m wanted d.manager.spec_replicas × Same Q m wanted d.manager.status_replicas
      passed_recorded e = elim k.recorded [
        | inl e' ↦
            let unlike = subst (λ rs. same_assignment Q m wanted rs ≡ false) (sym e') pending in
            ground (arith, e, unlike)
        | inr e' ↦ contradiction e'
      ]

      passed_waiting : IsOrderly Q m wanted d
      passed_waiting = record {
        mode = ap (λ s. resolve_mode s.mode) k.spec ∙ h.mode;
        recorded = passed_recorded;
        exclusive = passed_exclusive;
        starting = inr (λ e. stopped_asks (starts (sym k.running ∙ e)));
      }

    passed-IsOrderly :
        (c d : Cluster Q m)
        → IsOrderly Q m wanted c
        → HasPassed Q m wanted c d
        → IsOrderly Q m wanted d
    passed-IsOrderly c d h k =
        elim (Bool-cases (same_assignment Q m wanted c.manager.status_replicas)) [
          | inl e ↦ passed_applied c d h k e
          | inr e ↦ passed_waiting c d h k e
        ]

    module _ (laws : IsMeta m) where
      Step-IsOrderly :
          {c d : Cluster Q m}
          → Step Q m wanted c d
          → IsOrderly Q m wanted c
          → IsOrderly Q m wanted d
      Step-IsOrderly (pass c r answer conditions) h =
          let p : PartitionProvider Q m.Conditions = record {
            conditions = conditions;
            replicas = wanted;
          } in
          passed-IsOrderly c _ h (
            apply_all-HasPassed Q m wanted p refl c answer _ c
              (reconcile-IsGuarded laws r answer x0y_mode p c.manager c.scaler c.stateful_set
                h.mode)
              (unchanged Q m wanted c))
      Step-IsOrderly (run c k rises stays) h = record {
        mode = h.mode;
        recorded = h.recorded;
        exclusive = elim h.exclusive [
          | inl e ↦ inl e
          | inr e ↦ inr (
            record { asked = e.0.asked; running = omega (arith, rises e.0.asked, e.0.running) },
            e.1,
          )
        ];
        starting = elim h.starting [ inl e ↦ inl e | inr e ↦ inr stays ];
      }
      Step-IsOrderly (assign c) h = record {
        mode = h.mode;
        recorded = λ e. ((h.recorded e).0, (h.recorded e).0);
        exclusive = inl (Same-refl Q m c.manager.spec_replicas);
        starting = elim h.exclusive [
          | inr e ↦ inl e.1
          | inl e ↦ elim h.starting [
            | inl e' ↦ inl (Same-trans Q m _ _ _ e' (Same-sym Q m _ _ e))
            | inr e' ↦ inr e'
          ]
        ];
      }
      Step-IsOrderly (report_manager c conditions) h = record {
        mode = h.mode;
        recorded = h.recorded;
        exclusive = elim h.exclusive [
          | inl e ↦ inl e
          | inr e ↦ inr (record { asked = e.0.asked; running = e.0.running }, e.1)
        ];
        starting = h.starting;
      }

      Reach-IsOrderly :
          {c d : Cluster Q m}
          → Reach Q m wanted c d
          → IsOrderly Q m wanted c
          → IsOrderly Q m wanted d
      Reach-IsOrderly here h = h
      Reach-IsOrderly (next r s) h = Step-IsOrderly s (Reach-IsOrderly r h)

      pub rollout-IsOrderly :
          (c d : Cluster Q m)
          → resolve_mode c.scaler.spec.mode ≡ some x0y_mode
          → Pending Q m wanted c
          → Same Q m c.manager.spec_replicas c.manager.status_replicas
          → (c.stateful_set.status_replicas ≡ 0 → c.stateful_set.spec_replicas ≡ some 0)
          → Reach Q m wanted c d
          → IsOrderly Q m wanted d
      rollout-IsOrderly c d mode new calm settled reached = Reach-IsOrderly reached record {
        mode = mode;
        recorded = λ e. ground (arith, e, new);
        exclusive = inl calm;
        starting = inr settled;
      }

      -- In the mode X-0-Y, while the partition provider keeps to one assignment, and where a condition
      -- that is set is the one that is found: where a rollout of it starts with a shard manager that
      -- has applied what its spec says and a stateful set that has no replicas only if it asks for
      -- none, then whatever the order of the passes of the scaler and of the steps of the other
      -- controllers, and whichever calls fail, at every point the shard manager has applied what its
      -- spec says, or no replica runs and none is asked for. So no replica runs while the shard
      -- manager has another assignment to apply. A last replica is assumed not to go while some are
      -- asked for.
      pub Reach-IsExclusive :
          (c d : Cluster Q m)
          → resolve_mode c.scaler.spec.mode ≡ some x0y_mode
          → Pending Q m wanted c
          → Same Q m c.manager.spec_replicas c.manager.status_replicas
          → (c.stateful_set.status_replicas ≡ 0 → c.stateful_set.spec_replicas ≡ some 0)
          → Reach Q m wanted c d
          → IsExclusive Q m wanted d
      Reach-IsExclusive c d mode new calm settled reached =
          elim (rollout-IsOrderly c d mode new calm settled reached).exclusive [
            | inl e ↦ inl e
            | inr e ↦ inr e.0
          ]
