-- ===== src/Scaler/Rollout/Effects.antt =====
-- What a pass makes of a cluster in the mode X-0-Y, where every call is taken.
use argocd_autoscaler.Base.{
  ℕ, ◌≡◌, refl, ap, subst, ◌∙◌, true, false, Option, none, some, List, Bool-cases, inl, inr, length,
  ltb,
}
use text.Mathlib.Text.{◌==◌ as str_eq}
use Prim.Native.String.{String}
use argocd_autoscaler.Text.{to_int32}
use argocd_autoscaler.Api.{ReplicaList}
use argocd_autoscaler.Controller.{Error, Meta, is_ready, Outcome, Pass, not_ready}
use argocd_autoscaler.Scaler.{x0y_mode, resolve_mode, container_found}
use argocd_autoscaler.Scaler.Scaling.{sent, scaled_found}
use argocd_autoscaler.Scaler.Objects.{found, PartitionProvider, Reconciler, Call}
use argocd_autoscaler.Scaler.Reconcile.{
  with_condition, report, refresh, record_event, scale_to, enforce, scale_down_first,
  scale_down_from, act, find_stateful_set, find_shard_manager, find_provider, check_paused, start,
  reconcile, is_true, is_paused_condition,
}
use argocd_autoscaler.Scaler.Rollout.{Cluster, Reach, next, pass, apply_all, world_of}

module _ (Q : Type 0) (m : Meta) (r : Reconciler) (wanted : ReplicaList Q) (cs : m.Conditions) where
  abbrev pub accepts : Call Q m → Option Error
  accepts x = none

  abbrev pub provider : PartitionProvider Q m.Conditions
  provider = record { conditions = cs; replicas = wanted }

  abbrev pub desired : ℕ
  desired = to_int32 (length wanted)

  -- The scaler is not paused, what it refers to is there and ready, and the stateful set has the
  -- container and a number of replicas.
  pub record IsWilling (c : Cluster Q m) : Type 0 where
    pub mode : resolve_mode c.scaler.spec.mode ≡ some x0y_mode
    pub kind : str_eq c.scaler.spec.replica_set_controller_kind "StatefulSet" ≡ true
    pub not_paused : is_true Q m c.scaler.spec.paused ≡ false
    pub manager_ready : is_ready m c.manager.conditions ≡ true
    pub container : container_found c.stateful_set.containers ≡ true
    pub asks : (k : ℕ) × (c.stateful_set.spec_replicas ≡ some k)

  abbrev pub effect : Pass (Call Q m) → Cluster Q m → Cluster Q m
  effect p c = apply_all Q m accepts p.calls c

  pub effect-record_event :
      (reason : String) (ns : List ℕ) (rest : Pass (Call Q m)) (c : Cluster Q m)
      → effect (record_event Q m r accepts reason ns rest) c ≡ effect rest c
  unfolding apply_all
  effect-record_event reason ns rest c = elim (Bool-cases r.has_recorder) [
    | inl e ↦ rw e refl
    | inr e ↦ rw e refl
  ]

  effect-refresh :
      (rest : Pass (Call Q m)) (c : Cluster Q m)
      → effect (refresh Q m r accepts rest) c ≡ effect rest c
  unfolding apply_all
  effect-refresh rest c = elim (Bool-cases r.has_api_reader) [
    | inl e ↦ rw e refl
    | inr e ↦ rw e refl
  ]

  abbrev pub said : String → Cluster Q m → Cluster Q m
  said reason c = record c {
    scaler = record (c.scaler) { status = (with_condition Q m (not_ready reason) c.scaler).status };
  }

  pub effect-report :
      (reason : String) (o : Outcome) (c : Cluster Q m)
      → effect (report Q m r accepts reason o c.scaler) c ≡ said reason c
  unfolding apply_all
  effect-report reason o c = refl

  abbrev pub asked : ℕ → Cluster Q m → Cluster Q m
  asked k c = record c { stateful_set = sent r.now k false c.stateful_set }

  pub effect-scale_to :
      (c : Cluster Q m)
      → container_found c.stateful_set.containers ≡ true
      → (k : ℕ) (on_error : Error → Pass (Call Q m)) (rest : Pass (Call Q m))
      → effect (scale_to Q m r accepts c.stateful_set k false on_error rest) c
        ≡ effect rest (asked k c)
  unfolding scale_to apply_all
  effect-scale_to c h k on_error rest =
      rw (scale_to, scaled_found r.now k false c.stateful_set h) (effect-refresh rest (asked k c))

  pub effect-enforce :
      (c : Cluster Q m)
      → container_found c.stateful_set.containers ≡ true
      → (k : ℕ)
      → effect (enforce Q m r accepts c.scaler c.stateful_set k) c
        ≡ said "EnforcingDesiredState" (asked k c)
  unfolding enforce apply_all
  effect-enforce c h k = effect-scale_to c h k _ _ ∙ effect-record_event _ _ _ _

  pub effect-scale_down_first :
      (c : Cluster Q m)
      → container_found c.stateful_set.containers ≡ true
      → (k : ℕ) → c.stateful_set.spec_replicas ≡ some k
      → ltb 0 k ≡ true
      → effect (scale_down_first Q m r accepts c.scaler c.stateful_set) c
        ≡ said "BeginningScalingToZero" (asked 0 c)
  unfolding scale_down_first scale_down_from apply_all
  effect-scale_down_first c h k e e' =
      ap (λ o. effect (scale_down_from Q m r accepts o c.scaler c.stateful_set) c) e
      ∙ rw e' (effect-scale_to c h 0 _ _ ∙ effect-record_event _ _ _ _)

  module _ (provider_ready : is_ready m cs ≡ true) where
    effect-reconcile :
        (c : Cluster Q m)
        → IsWilling c
        → effect (reconcile Q m r accepts (found c.scaler) (world_of Q m provider c)) c
          ≡ effect (act Q m r accepts x0y_mode provider c.manager c.scaler c.stateful_set) c
    unfolding reconcile start check_paused find_provider find_shard_manager find_stateful_set
    effect-reconcile c h =
        elim (Bool-cases (is_paused_condition Q m (m.find c.scaler.status.conditions))) [
          | inl e ↦
              rw (h.mode, h.not_paused, e, provider_ready, h.manager_ready, h.kind)
                (effect-record_event _ _ _ _)
          | inr e ↦ rw (h.mode, h.not_paused, e, provider_ready, h.manager_ready, h.kind) refl
        ]

    -- A pass is a step.
    pub pass_to :
        {b c d : Cluster Q m}
        → Reach Q m wanted b c
        → IsWilling c
        → effect (act Q m r accepts x0y_mode provider c.manager c.scaler c.stateful_set) c ≡ d
        → Reach Q m wanted b d
    pass_to {b} {c} {d} reached h e =
        subst (Reach Q m wanted b) (effect-reconcile c h ∙ e) (next reached (pass c r accepts cs))
