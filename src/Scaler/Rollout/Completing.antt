-- ===== src/Scaler/Rollout/Completing.antt =====
-- A rollout in the mode X-0-Y can be completed.
use argocd_autoscaler.Base.{
  ℕ, ◌≡◌, refl, ap, ◌∙◌, inl, inr, true, false, ◌&&◌, Option, none, some, ltb, Bool-cases, arith,
}
use argocd_autoscaler.Api.{ReplicaList}
use argocd_autoscaler.Controller.{Meta, IsMeta, is_ready, ready, status_of}
use argocd_autoscaler.Scaler.{StatefulSet, x0y_mode, resolve_mode, is_zero, needs_enforcement}
use argocd_autoscaler.Scaler.Scaling.{sent_enforced}
use argocd_autoscaler.Scaler.Objects.{Reconciler}
use argocd_autoscaler.Scaler.Reconcile.{same_assignment}
use argocd_autoscaler.Scaler.Rollout.{Cluster, Reach, here, next, run}
use argocd_autoscaler.Scaler.Rollout.Exclusive.{rollout-IsOrderly}
use argocd_autoscaler.Scaler.Rollout.Orderly.{Same, Same-sym, Same-trans, Pending}
use argocd_autoscaler.Scaler.Rollout.Effects.{
  desired, IsWilling, said, asked, effect, effect-enforce, pass_to,
}
use argocd_autoscaler.Scaler.Rollout.Branches.{acting-enforces, acting-finishes}
use argocd_autoscaler.Scaler.Rollout.Telling.{
  running, said-Willing, asked-Willing, running-Willing, IsRecorded, take-IsDown, tell-IsTold,
  note-IsRecorded,
}

needs-asks : (s : StatefulSet) (k : ℕ) → needs_enforcement s k ≡ false → s.spec_replicas ≡ some k
unfolding needs_enforcement
needs-asks s k h = asks s.spec_replicas h
  where
    asks :
        (o : Option ℕ) → needs_enforcement (record s { spec_replicas = o }) k ≡ false → o ≡ some k
    asks none h = cc
    asks (some j) h = ap some (ground arith)

needs-running :
    (s : StatefulSet) (k : ℕ)
    → needs_enforcement s k ≡ false
    → needs_enforcement (record s { status_replicas = k }) k ≡ false
unfolding needs_enforcement
needs-running s k h = ground arith

up :
    (s : StatefulSet) (k : ℕ)
    → s.spec_replicas ≡ some k
    → s.status_replicas ≡ k
    → ltb 0 k && is_zero s ≡ false
unfolding is_zero
up s k e e' = rw (e, e') (ground arith)

module _ (Q : Type 0) (m : Meta) (r : Reconciler) (wanted : ReplicaList Q) (cs : m.Conditions)
    (laws : IsMeta m) (provider_ready : is_ready m cs ≡ true) where
  module _ (b : Cluster Q m) where
    record IsScaled (c : Cluster Q m) : Type 0 where
      recorded : IsRecorded Q m r wanted cs laws provider_ready b c
      configured : needs_enforcement c.stateful_set (desired Q m r wanted cs) ≡ false
      runs : c.stateful_set.status_replicas ≡ (desired Q m r wanted cs)

    both :
        (c : Cluster Q m)
        → IsRecorded Q m r wanted cs laws provider_ready b c
        → Same Q m c.scaler.status.replicas c.manager.status_replicas
    both c h = Same-trans Q m _ _ _ (Same-sym Q m _ _ h.recorded) h.applied

    scale_up-IsScaled :
        (c : Cluster Q m)
        → IsRecorded Q m r wanted cs laws provider_ready b c
        → (d : Cluster Q m) × IsScaled d
    scale_up-IsScaled c h =
        elim (Bool-cases (needs_enforcement c.stateful_set (desired Q m r wanted cs))) [
          | inr e ↦
              let asks = needs-asks c.stateful_set (desired Q m r wanted cs) e in
              (
                running Q m r wanted cs laws provider_ready (desired Q m r wanted cs) c,
                record {
                  recorded = record {
                    reached = next h.reached (
                        run c (desired Q m r wanted cs) (λ z. ground (arith, z, asks))
                          (λ z. asks ∙ ap some z));
                    willing =
                        running-Willing Q m r wanted cs laws provider_ready
                          (desired Q m r wanted cs) c h.willing;
                    recorded = h.recorded;
                    told = h.told;
                    applied = h.applied;
                  };
                  configured = needs-running c.stateful_set (desired Q m r wanted cs) e;
                  runs = refl;
                },
              )
          | inl e ↦
              let d =
                said Q m r wanted cs "EnforcingDesiredState"
                  (asked Q m r wanted cs (desired Q m r wanted cs) c) in
              let there = pass_to Q m r wanted cs provider_ready h.reached h.willing (
                ap (λ p. effect Q m r wanted cs p c)
                  (acting-enforces Q m r wanted cs c h.recorded h.told h.applied (both c h) e)
                ∙ effect-enforce Q m r wanted cs c h.willing.container (desired Q m r wanted cs)) in
              (
                running Q m r wanted cs laws provider_ready (desired Q m r wanted cs) d,
                record {
                  recorded = record {
                    reached =
                        next there (
                          run d (desired Q m r wanted cs) (λ z. ground (arith, z))
                            (λ z. ap some z));
                    willing =
                        running-Willing Q m r wanted cs laws provider_ready
                          (desired Q m r wanted cs) d
                          (said-Willing Q m r wanted cs laws provider_ready _ _ (
                            asked-Willing Q m r wanted cs laws provider_ready
                              (desired Q m r wanted cs) c h.willing));
                    recorded = h.recorded;
                    told = h.told;
                    applied = h.applied;
                  };
                  configured =
                      sent_enforced r.now (desired Q m r wanted cs) false c.stateful_set
                        h.willing.container;
                  runs = refl;
                },
              )
        ]

    -- The scaler is ready and has recorded the assignment, the shard manager has applied it, and as
    -- many replicas as it has are asked for and run.
    pub record IsComplete (c : Cluster Q m) : Type 0 where
      pub reached : Reach Q m wanted b c
      pub scaler_ready : is_ready m c.scaler.status.conditions ≡ true
      pub recorded : Same Q m wanted c.scaler.status.replicas
      pub applied : Same Q m wanted c.manager.status_replicas
      pub asked_for : c.stateful_set.spec_replicas ≡ some (desired Q m r wanted cs)
      pub runs : c.stateful_set.status_replicas ≡ (desired Q m r wanted cs)

    finish-IsComplete : (c : Cluster Q m) → IsScaled c → (d : Cluster Q m) × IsComplete d
    finish-IsComplete c h =
        let asks = needs-asks c.stateful_set (desired Q m r wanted cs) h.configured in
        let g = h.recorded in
        (
          _,
          record {
            reached = pass_to Q m r wanted cs provider_ready g.reached g.willing (
                acting-finishes Q m r wanted cs c g.recorded
                  (up c.stateful_set (desired Q m r wanted cs) asks h.runs) g.told g.applied
                  (both c g) h.configured (ground (arith, h.runs)));
            scaler_ready = ap status_of (laws.find-set c.scaler.status.conditions ready);
            recorded = g.recorded;
            applied = g.applied;
            asked_for = asks;
            runs = h.runs;
          },
        )

    recorded-IsComplete :
        (c : Cluster Q m)
        → IsRecorded Q m r wanted cs laws provider_ready b c
        → (d : Cluster Q m) × IsComplete d
    recorded-IsComplete c h = let (d, scaled) = scale_up-IsScaled c h in finish-IsComplete d scaled

    new-IsComplete :
        (c : Cluster Q m)
        → Reach Q m wanted b c
        → IsWilling Q m r wanted cs c
        → Pending Q m wanted c
        → (d : Cluster Q m) × IsComplete d
    new-IsComplete c reached h new =
        let (d, down) = take-IsDown Q m r wanted cs laws provider_ready b c reached h new in
        let (d', down', told) = tell-IsTold Q m r wanted cs laws provider_ready b d down in
        let (e, recorded) = note-IsRecorded Q m r wanted cs laws provider_ready b d' down' told in
        recorded-IsComplete e recorded

  -- In the mode X-0-Y, while the partition provider keeps to one assignment and is ready, and where
  -- a condition that is set is the one that is found: at every point of a rollout that starts with a
  -- shard manager that has applied what its spec says and a stateful set that has no replicas only
  -- if it asks for none, whichever calls failed before, there are steps that complete the rollout.
  -- They lead to a scaler that is ready and has recorded the assignment, a shard manager that has
  -- applied it, and a stateful set that asks for as many replicas as the assignment has and runs
  -- them. At that point the scaler must refer to a stateful set and not be paused, the shard manager
  -- must be ready, and the stateful set must have the container and a number of replicas in its spec.
  pub rollout-IsComplete :
      (c d : Cluster Q m)
      → resolve_mode c.scaler.spec.mode ≡ some x0y_mode
      → Pending Q m wanted c
      → Same Q m c.manager.spec_replicas c.manager.status_replicas
      → (c.stateful_set.status_replicas ≡ 0 → c.stateful_set.spec_replicas ≡ some 0)
      → Reach Q m wanted c d
      → IsWilling Q m r wanted cs d
      → (e : Cluster Q m) × IsComplete d e
  rollout-IsComplete c d mode new calm settled reached h =
      elim (Bool-cases (same_assignment Q m wanted d.scaler.status.replicas)) [
        | inr e ↦ new-IsComplete d d here h e
        | inl e ↦
            let has =
              (rollout-IsOrderly Q m wanted laws c d mode new calm settled reached).recorded e in
            recorded-IsComplete d d
              (record { reached = here; willing = h; recorded = e; told = has.0; applied = has.1 })
      ]
