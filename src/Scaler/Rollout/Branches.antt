-- ===== src/Scaler/Rollout/Branches.antt =====
-- Which way a pass of a rollout goes in the mode X-0-Y.
use argocd_autoscaler.Base.{
  ℕ, ◌≡◌, refl, ap, ◌∙◌, ◌⊎◌, true, false, ◌&&◌, ltb, ◌==◌, Bool-cases, inl, inr,
}
use argocd_autoscaler.Api.{ReplicaList}
use argocd_autoscaler.Controller.{Meta, Pass, not_ready, ready}
use argocd_autoscaler.Scaler.{x0y_mode, is_zero, needs_enforcement, container_found}
use argocd_autoscaler.Scaler.Objects.{Reconciler, Call}
use argocd_autoscaler.Scaler.Reconcile.{
  same_assignment, with_condition, enforce, settle, scale, await_shard_manager, update_manager,
  scale_down_first, act,
}
use argocd_autoscaler.Scaler.Rollout.{Cluster, apply_all}
use argocd_autoscaler.Scaler.Rollout.Orderly.{Same, Pending}
use argocd_autoscaler.Scaler.Rollout.Effects.{
  accepts, provider, desired, effect, said, asked, effect-scale_to, effect-record_event,
}

module _ (Q : Type 0) (m : Meta) (r : Reconciler) (wanted : ReplicaList Q) (cs : m.Conditions)
    (c : Cluster Q m) where
  abbrev wants : ℕ
  wants = desired Q m r wanted cs

  abbrev makes : Pass (Call Q m) → Cluster Q m
  makes p = effect Q m r wanted cs p c

  abbrev pub acting : Pass (Call Q m)
  acting =
      act Q m r (accepts Q m r wanted cs) x0y_mode (provider Q m r wanted cs) c.manager c.scaler
        c.stateful_set

  abbrev updating : Pass (Call Q m)
  updating =
      update_manager Q m r (accepts Q m r wanted cs) x0y_mode (provider Q m r wanted cs) c.manager
        c.scaler c.stateful_set wants

  abbrev scaling : Pass (Call Q m)
  scaling =
      scale Q m r (accepts Q m r wanted cs) x0y_mode c.manager.spec_replicas c.manager c.scaler
        c.stateful_set wants

  abbrev settling : Pass (Call Q m)
  settling = settle Q m r (accepts Q m r wanted cs) c.scaler c.stateful_set wants

  abbrev pub enforcing : Pass (Call Q m)
  enforcing = enforce Q m r (accepts Q m r wanted cs) c.scaler c.stateful_set wants

  pub acting-running :
      Pending Q m wanted c
      → ltb 0 c.stateful_set.status_replicas ≡ true
      → acting ≡ scale_down_first Q m r (accepts Q m r wanted cs) c.scaler c.stateful_set
  unfolding act
  acting-running h e = rw (h, e) refl

  acting-stopped :
      Pending Q m wanted c → ltb 0 c.stateful_set.status_replicas ≡ false → acting ≡ updating
  unfolding act
  acting-stopped h e = rw (h, e) refl

  pub acting-zero :
      Same Q m wanted c.scaler.status.replicas
      → ltb 0 wants && is_zero c.stateful_set ≡ true
      → acting ≡ enforcing
  unfolding act
  acting-zero h e = rw (h, e) refl

  acting-up :
      Same Q m wanted c.scaler.status.replicas
      → ltb 0 wants && is_zero c.stateful_set ≡ false
      → acting ≡ updating
  unfolding act
  acting-up h e = rw (h, e) refl

  -- The shard manager is told the assignment.
  pub acting-tells :
      Pending Q m wanted c
      → ltb 0 c.stateful_set.status_replicas ≡ false
      → same_assignment Q m wanted c.manager.spec_replicas ≡ false
      → same_assignment Q m wanted c.manager.status_replicas ≡ false
      → makes acting
        ≡ said Q m r wanted cs "WaitingForShardManagerToApplyDesiredState"
            (record c { manager = record (c.manager) { spec_replicas = wanted } })
  unfolding update_manager await_shard_manager apply_all
  acting-tells h e told applied =
      ap makes (acting-stopped h e) ∙ rw (told, await_shard_manager, applied) refl

  updating-applied :
      Same Q m wanted c.manager.spec_replicas
      → Same Q m wanted c.manager.status_replicas
      → updating ≡ scaling
  unfolding update_manager await_shard_manager
  updating-applied told applied = rw (told, await_shard_manager, applied) refl

  -- The assignment is recorded.
  abbrev pub recording : Cluster Q m → Cluster Q m
  recording d = record d {
    scaler = record (d.scaler) {
      status = record (d.scaler.status) {
        conditions = m.set d.scaler.status.conditions (not_ready "BeginningRSControllerScaling");
        replicas = c.manager.spec_replicas;
      };
    };
  }

  pub acting-records :
      Pending Q m wanted c
      → ltb 0 c.stateful_set.status_replicas ≡ false
      → Same Q m wanted c.manager.spec_replicas
      → Same Q m wanted c.manager.status_replicas
      → same_assignment Q m c.scaler.status.replicas c.manager.status_replicas ≡ false
      → container_found c.stateful_set.containers ≡ true
      → (makes acting ≡ recording c) ⊎ (makes acting ≡ recording (asked Q m r wanted cs wants c))
  unfolding scale apply_all
  acting-records h e told applied new container =
      let first = ap makes (acting-stopped h e ∙ updating-applied told applied) in
      elim (Bool-cases (c.stateful_set.status_replicas == wants)) [
        | inl e' ↦ inl (first ∙ rw (new, e') refl)
        | inr e' ↦ inr (
            first
            ∙ rw (new, e')
                (effect-scale_to Q m r wanted cs c container wants _ _
                  ∙ effect-record_event Q m r wanted cs _ _ _ _))
      ]

  acting-settles :
      Same Q m wanted c.scaler.status.replicas
      → ltb 0 wants && is_zero c.stateful_set ≡ false
      → Same Q m wanted c.manager.spec_replicas
      → Same Q m wanted c.manager.status_replicas
      → Same Q m c.scaler.status.replicas c.manager.status_replicas
      → acting ≡ settling
  unfolding scale
  acting-settles h e told applied same =
      acting-up h e ∙ updating-applied told applied ∙ rw same refl

  pub acting-enforces :
      Same Q m wanted c.scaler.status.replicas
      → Same Q m wanted c.manager.spec_replicas
      → Same Q m wanted c.manager.status_replicas
      → Same Q m c.scaler.status.replicas c.manager.status_replicas
      → needs_enforcement c.stateful_set wants ≡ true
      → acting ≡ enforcing
  unfolding settle
  acting-enforces h told applied same needs =
      elim (Bool-cases (ltb 0 wants && is_zero c.stateful_set)) [
        | inl e ↦ acting-zero h e
        | inr e ↦ acting-settles h e told applied same ∙ rw needs refl
      ]

  pub acting-finishes :
      Same Q m wanted c.scaler.status.replicas
      → ltb 0 wants && is_zero c.stateful_set ≡ false
      → Same Q m wanted c.manager.spec_replicas
      → Same Q m wanted c.manager.status_replicas
      → Same Q m c.scaler.status.replicas c.manager.status_replicas
      → needs_enforcement c.stateful_set wants ≡ false
      → c.stateful_set.status_replicas == wants ≡ true
      → makes acting ≡ record c {
        scaler = record (c.scaler) { status = (with_condition Q m ready c.scaler).status };
      }
  unfolding settle apply_all
  acting-finishes h e told applied same needs runs =
      ap makes (acting-settles h e told applied same) ∙ rw (needs, runs) refl
