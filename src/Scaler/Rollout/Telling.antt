-- ===== src/Scaler/Rollout/Telling.antt =====
-- A rollout in the mode X-0-Y up to where the scaler records the assignment: the stateful set is
-- taken down, and the shard manager is told.
use argocd_autoscaler.Base.{
  ℕ, ◌≡◌, refl, ap, ◌∙◌, inl, inr, true, false, some, ltb, Bool-cases, arith,
}
use Prim.Native.String.{String}
use text.Mathlib.Text.{◌==◌ as str_eq}
use argocd_autoscaler.Text.{itoa}
use argocd_autoscaler.Api.{ReplicaList}
use argocd_autoscaler.Controller.{Meta, IsMeta, is_ready}
use argocd_autoscaler.Scaler.{resolve_mode, container_found}
use argocd_autoscaler.Scaler.Environment.{container_found-set_containers}
use argocd_autoscaler.Scaler.Objects.{Reconciler}
use argocd_autoscaler.Scaler.Reconcile.{same_assignment, is_true}
use argocd_autoscaler.Scaler.Rollout.{Cluster, Reach, next, run, assign}
use argocd_autoscaler.Scaler.Rollout.Orderly.{Same, Same-refl, Same-sym, Same-trans, Pending}
use argocd_autoscaler.Scaler.Rollout.Effects.{
  desired, IsWilling, said, asked, effect, effect-scale_down_first, pass_to,
}
use argocd_autoscaler.Scaler.Rollout.Branches.{
  acting-running, acting-tells, acting-records, recording,
}

module _ (Q : Type 0) (m : Meta) (r : Reconciler) (wanted : ReplicaList Q) (cs : m.Conditions)
    (laws : IsMeta m) (provider_ready : is_ready m cs ≡ true) where
  abbrev pub wants : ℕ
  wants = desired Q m r wanted cs

  abbrev pub Willing : Cluster Q m → Type 0
  Willing c = IsWilling Q m r wanted cs c

  abbrev pub running : ℕ → Cluster Q m → Cluster Q m
  running k c = record c { stateful_set = record (c.stateful_set) { status_replicas = k } }

  -- It is enough that the parts that count are kept.
  kept-Willing :
      (c d : Cluster Q m)
      → d.scaler.spec ≡ c.scaler.spec
      → d.manager.conditions ≡ c.manager.conditions
      → d.stateful_set.containers ≡ c.stateful_set.containers
      → d.stateful_set.spec_replicas ≡ c.stateful_set.spec_replicas
      → Willing c
      → Willing d
  kept-Willing c d spec conditions containers replicas h = record {
    mode = ap (λ s. resolve_mode s.mode) spec ∙ h.mode;
    kind = ap (λ s. str_eq s.replica_set_controller_kind "StatefulSet") spec ∙ h.kind;
    not_paused = ap (λ s. is_true Q m s.paused) spec ∙ h.not_paused;
    manager_ready = ap (is_ready m) conditions ∙ h.manager_ready;
    container = ap container_found containers ∙ h.container;
    asks = (h.asks.0, replicas ∙ h.asks.1);
  }

  pub said-Willing :
      (reason : String) (c : Cluster Q m) → Willing c → Willing (said Q m r wanted cs reason c)
  said-Willing reason c h = kept-Willing c _ refl refl refl refl h

  pub asked-Willing : (k : ℕ) (c : Cluster Q m) → Willing c → Willing (asked Q m r wanted cs k c)
  asked-Willing k c h = record {
    mode = h.mode;
    kind = h.kind;
    not_paused = h.not_paused;
    manager_ready = h.manager_ready;
    container = container_found-set_containers (itoa k) c.stateful_set.containers ∙ h.container;
    asks = (k, refl);
  }

  pub running-Willing : (k : ℕ) (c : Cluster Q m) → Willing c → Willing (running k c)
  running-Willing k c h = kept-Willing c _ refl refl refl refl h

  module _ (b : Cluster Q m) where
    -- Before the shard manager is told, nothing runs.
    pub record IsDown (c : Cluster Q m) : Type 0 where
      reached : Reach Q m wanted b c
      willing : Willing c
      new : Pending Q m wanted c
      down : c.stateful_set.status_replicas ≡ 0

    -- Nothing runs, and otherwise the cluster is as it was in `c`.
    pub record HasTaken (c d : Cluster Q m) : Type 0 where
      pub reached : Reach Q m wanted b d
      pub willing : Willing d
      pub manager : d.manager ≡ c.manager
      pub recorded : d.scaler.status.replicas ≡ c.scaler.status.replicas
      pub down : d.stateful_set.status_replicas ≡ 0

    pub take-HasTaken :
        (c : Cluster Q m)
        → Reach Q m wanted b c
        → Willing c
        → Pending Q m wanted c
        → (d : Cluster Q m) × HasTaken c d
    take-HasTaken c reached h new = elim (Bool-cases (ltb 0 c.stateful_set.status_replicas)) [
      | inr e ↦ (
        c,
        record {
          reached = reached;
          willing = h;
          manager = refl;
          recorded = refl;
          down = ground arith;
        },
      )
      | inl e ↦ elim (Bool-cases (ltb 0 h.asks.0)) [
        | inl e' ↦
            let d = said Q m r wanted cs "BeginningScalingToZero" (asked Q m r wanted cs 0 c) in
            let there = pass_to Q m r wanted cs provider_ready reached h (
              ap (λ p. effect Q m r wanted cs p c) (acting-running Q m r wanted cs c new e)
              ∙ effect-scale_down_first Q m r wanted cs c h.container h.asks.0 h.asks.1 e') in
            (
              running 0 d,
              record {
                reached = next there (run d 0 (λ z. omega arith) (λ z. refl));
                willing = running-Willing 0 d (said-Willing _ _ (asked-Willing 0 c h));
                manager = refl;
                recorded = refl;
                down = refl;
              },
            )
        | inr e' ↦
            let none_asked : h.asks.0 ≡ 0 = ground arith in
            (
              running 0 c,
              record {
                reached =
                    next reached (run c 0 (λ z. omega arith) (λ z. h.asks.1 ∙ ap some none_asked));
                willing = running-Willing 0 c h;
                manager = refl;
                recorded = refl;
                down = refl;
              },
            )
      ]
    ]

    pub take-IsDown :
        (c : Cluster Q m)
        → Reach Q m wanted b c
        → Willing c
        → Pending Q m wanted c
        → (d : Cluster Q m) × IsDown d
    take-IsDown c reached h new =
        let (d, taken) = take-HasTaken c reached h new in
        (
          d,
          record {
            reached = taken.reached;
            willing = taken.willing;
            new = ap (λ rs. same_assignment Q m wanted rs) taken.recorded ∙ new;
            down = taken.down;
          },
        )

    -- The shard manager has the assignment.
    pub record IsTold (c : Cluster Q m) : Type 0 where
      told : Same Q m wanted c.manager.spec_replicas
      applied : Same Q m wanted c.manager.status_replicas

    abbrev assigned : Cluster Q m → Cluster Q m
    assigned c = record c {
      manager = record (c.manager) { status_replicas = c.manager.spec_replicas };
    }

    assigned-Willing : (c : Cluster Q m) → Willing c → Willing (assigned c)
    assigned-Willing c h = kept-Willing c _ refl refl refl refl h

    pub tell-IsTold : (c : Cluster Q m) → IsDown c → (d : Cluster Q m) × IsDown d × IsTold d
    tell-IsTold c h =
        let c' = assigned c in
        let reached' = next h.reached (assign c) in
        let willing' = assigned-Willing c h.willing in
        elim (Bool-cases (same_assignment Q m wanted c.manager.spec_replicas)) [
          | inl e ↦ (
            c',
            record { reached = reached'; willing = willing'; new = h.new; down = h.down },
            record { told = e; applied = e },
          )
          | inr e ↦
              let d' = record c' { manager = record (c'.manager) { spec_replicas = wanted } } in
              let d = said Q m r wanted cs "WaitingForShardManagerToApplyDesiredState" d' in
              let there =
                pass_to Q m r wanted cs provider_ready reached' willing'
                  (acting-tells Q m r wanted cs c' h.new (ground (arith, h.down)) e e) in
              (
                assigned d,
                record {
                  reached = next there (assign d);
                  willing = kept-Willing c _ refl refl refl refl h.willing;
                  new = h.new;
                  down = h.down;
                },
                record { told = Same-refl Q m wanted; applied = Same-refl Q m wanted },
              )
        ]

    -- The scaler has recorded the assignment.
    pub record IsRecorded (c : Cluster Q m) : Type 0 where
      pub reached : Reach Q m wanted b c
      pub willing : Willing c
      pub recorded : Same Q m wanted c.scaler.status.replicas
      pub told : Same Q m wanted c.manager.spec_replicas
      pub applied : Same Q m wanted c.manager.status_replicas

    pub note-IsRecorded : (c : Cluster Q m) → IsDown c → IsTold c → (d : Cluster Q m) × IsRecorded d
    note-IsRecorded c h t =
        let changed : same_assignment Q m c.scaler.status.replicas c.manager.status_replicas
            ≡ false =
          elim (Bool-cases
            (same_assignment Q m c.scaler.status.replicas c.manager.status_replicas)) [
              | inr e ↦ e
              | inl e ↦
                  absurd
                    (ground (arith, h.new, Same-trans Q m _ _ _ t.applied (Same-sym Q m _ _ e)))
            ] in
        elim (acting-records Q m r wanted cs c h.new (ground (arith, h.down)) t.told t.applied
          changed h.willing.container) [
            | inl e ↦ (
              recording Q m r wanted cs c c,
              record {
                reached = pass_to Q m r wanted cs provider_ready h.reached h.willing e;
                willing = kept-Willing c _ refl refl refl refl h.willing;
                recorded = t.told;
                told = t.told;
                applied = t.applied;
              },
            )
            | inr e ↦
                let up = asked-Willing wants c h.willing in
                (
                  recording Q m r wanted cs c (asked Q m r wanted cs wants c),
                  record {
                    reached = pass_to Q m r wanted cs provider_ready h.reached h.willing e;
                    willing = kept-Willing (asked Q m r wanted cs wants c) _ refl refl refl refl up;
                    recorded = t.told;
                    told = t.told;
                    applied = t.applied;
                  },
                )
          ]
