-- ===== src/Scaler/Guards.antt =====
-- What a pass has made sure of where it makes a call.
use argocd_autoscaler.Base.{
  ℕ, ◌≡◌, refl, ◌⊎◌, inl, inr, Bool, true, false, ◌||◌, not, Option, some, ◌==◌, length, All, arith,
  Bool-cases,
}
use Prim.Native.String.{String}
use argocd_autoscaler.Text.{to_int32}
use argocd_autoscaler.Api.{ReplicaList}
use argocd_autoscaler.Controller.{Error, Meta, IsMeta, is_ready, not_ready, Pass, failed}
use argocd_autoscaler.Controller.Calls.{try_call-All, finish-All, not_ready-set}
use argocd_autoscaler.Scaler.{StatefulSet, Mode, needs_enforcement}
use argocd_autoscaler.Scaler.Objects.{
  PartitionProvider, ShardManager, Reconciler, Scaler', Call, update_status, update_shard_manager,
  update_stateful_set, refresh_stateful_set, event, count_change,
}
use argocd_autoscaler.Scaler.Reconcile.{
  same_assignment, report, scale_to, enforce, settle, scale, await_shard_manager, update_manager,
  transition_pending, wants_restart,
}
use argocd_autoscaler.Scaler.Calls.{IsQuiet, report-All, record_event-All, scale_to-All}

-- The scaler, the shard manager and the stateful set have what the provider asks for.
pub record IsSettled (Q : Type 0) (m : Meta) (p : PartitionProvider Q m.Conditions)
    (sm : ShardManager Q m.Conditions) (s : Scaler' Q m) (sts : StatefulSet) : Type 0 where
  pub applied : same_assignment Q m p.replicas sm.status_replicas ≡ true
  pub recorded : same_assignment Q m s.status.replicas sm.status_replicas ≡ true
  pub configured : needs_enforcement sts (to_int32 (length p.replicas)) ≡ false
  pub running : sts.status_replicas ≡ to_int32 (length p.replicas)

not_ready-absurd :
    {m : Meta} {A : Type 0}
    → IsMeta m
    → (reason : String) (cs : m.Conditions) → is_ready m (m.set cs (not_ready reason)) ≡ true
    → A
not_ready-absurd {m = m} laws reason cs e = let e' = not_ready-set m laws cs reason in ground arith

module _ {Q : Type 0} {m : Meta} where
  -- What holds of the objects of a pass where it makes a call.
  unfoldable pub IsGuarded :
      Mode
      → PartitionProvider Q m.Conditions
      → ShardManager Q m.Conditions
      → Scaler' Q m
      → StatefulSet
      → Call Q m
      → Type 0
  IsGuarded mode p sm s sts (update_status s') =
      (is_ready m s'.status.conditions ≡ true → IsSettled Q m p sm s' sts)
      × (s'.status.replicas ≡ s.status.replicas
          ⊎ same_assignment Q m p.replicas sm.status_replicas ≡ true)
  IsGuarded mode p sm s sts (update_shard_manager rs) =
      rs ≡ p.replicas × (transition_pending Q m mode p s ≡ true → sts.status_replicas ≡ 0)
  IsGuarded mode p sm s sts (update_stateful_set t) =
      transition_pending Q m mode p s ≡ true
      → t.spec_replicas ≡ some 0
        ⊎ (sts.status_replicas ≡ 0 × same_assignment Q m p.replicas sm.status_replicas ≡ true)
  IsGuarded mode p sm s sts refresh_stateful_set = Unit
  IsGuarded mode p sm s sts (event reason numbers) = Unit
  IsGuarded mode p sm s sts count_change = Unit

  module _ (laws : IsMeta m) (r : Reconciler) (answer : Call Q m → Option Error) (mode : Mode)
      (p : PartitionProvider Q m.Conditions) (sm : ShardManager Q m.Conditions) (s : Scaler' Q m)
      (sts : StatefulSet) where
    abbrev Guarded : Call Q m → Type 0
    Guarded = IsGuarded mode p sm s sts

    abbrev IsPending : Type 0
    IsPending = transition_pending Q m mode p s ≡ true

    pub quiet : IsQuiet r answer Guarded s
    unfolding IsGuarded
    quiet = record {
      status = λ reason. (λ e. not_ready-absurd laws reason s.status.conditions e, inl refl);
      refreshed = tt;
      events = λ reason ns. tt;
      counted = tt;
    }

    abbrev CanScale : Type 0
    CanScale =
        IsPending
        → sts.status_replicas ≡ 0 × same_assignment Q m p.replicas sm.status_replicas ≡ true

    scale_to-Guarded :
        (k : ℕ) (restart : Bool) (reason : String) (rest : Pass (Call Q m))
        → CanScale
        → All Guarded rest.calls
        → All Guarded
            (scale_to Q m r answer sts k restart
              (λ x. report Q m r answer reason (failed x) s)
              rest).calls
    unfolding IsGuarded
    scale_to-Guarded k restart reason rest h =
        scale_to-All r answer Guarded s quiet sts k restart _ rest (λ t e pending. inr (h pending))
          (λ x. report-All r answer Guarded s quiet reason (failed x))

    pub enforce-Guarded : (k : ℕ) → CanScale → All Guarded (enforce Q m r answer s sts k).calls
    unfolding enforce
    enforce-Guarded k h = scale_to-Guarded k false "ErrorScaling" _ h (
        try_call-All Guarded answer _ _ _ (quiet.status _) (λ x. tt)
          (record_event-All r answer Guarded s quiet _ _ _ (quiet.counted, tt)))

    abbrev desired : ℕ
    desired = to_int32 (length p.replicas)

    abbrev IsApplied : Type 0
    IsApplied = same_assignment Q m p.replicas sm.status_replicas ≡ true

    settle-Guarded :
        CanScale
        → IsApplied
        → same_assignment Q m s.status.replicas sm.status_replicas ≡ true
        → All Guarded (settle Q m r answer s sts desired).calls
    unfolding settle IsGuarded
    settle-Guarded h applied recorded = elim (Bool-cases (needs_enforcement sts desired)) [
      | inl e ↦ rw e (enforce-Guarded desired h)
      | inr e ↦ elim (Bool-cases (sts.status_replicas == desired)) [
        | inl e' ↦
            rw (e, e')
              (finish-All Guarded answer _ _ (
                λ is_ready. record {
                  applied = applied;
                  recorded = recorded;
                  configured = e;
                  running = ground arith;
                },
                inl refl,
              ))
        | inr e' ↦ rw (e, e') (report-All r answer Guarded s quiet _ _)
      ]
    ]

    scale-Guarded :
        (spec : ReplicaList Q)
        → CanScale
        → IsApplied
        → All Guarded (scale Q m r answer mode spec sm s sts desired).calls
    unfolding scale IsGuarded
    scale-Guarded spec h applied =
        let begin = finish-All Guarded answer _ _ (
          λ e. not_ready-absurd laws "BeginningRSControllerScaling" s.status.conditions e,
          inr applied,
        ) in
        elim (Bool-cases (same_assignment Q m s.status.replicas sm.status_replicas)) [
          | inl e ↦ rw e (settle-Guarded h applied e)
          | inr e ↦
              elim (Bool-cases
                (wants_restart Q m mode s.spec.mode || not (sts.status_replicas == desired))) [
                  | inl e' ↦
                      rw (e, e')
                        (scale_to-Guarded desired _ "ErrorScaling" _ h
                          (record_event-All r answer Guarded s quiet _ _ _ (quiet.counted, begin)))
                  | inr e' ↦ rw (e, e') begin
                ]
        ]

    await-Guarded :
        (spec : ReplicaList Q)
        → (IsPending → sts.status_replicas ≡ 0)
        → All Guarded (await_shard_manager Q m r answer mode p spec sm s sts desired).calls
    unfolding await_shard_manager
    await-Guarded spec h = elim (Bool-cases (same_assignment Q m p.replicas sm.status_replicas)) [
      | inl e ↦ rw (await_shard_manager, e) (scale-Guarded spec (λ pending. (h pending, e)) e)
      | inr e ↦ rw (await_shard_manager, e) (report-All r answer Guarded s quiet _ _)
    ]

    pub update_manager-Guarded :
        (IsPending → sts.status_replicas ≡ 0)
        → All Guarded (update_manager Q m r answer mode p sm s sts desired).calls
    unfolding update_manager IsGuarded
    update_manager-Guarded h =
        elim (Bool-cases (not (same_assignment Q m p.replicas sm.spec_replicas))) [
          | inl e ↦ rw e (
              try_call-All Guarded answer (update_shard_manager p.replicas) _ _ (refl, h)
                (λ x. report-All r answer Guarded s quiet _ _) (await-Guarded _ h))
          | inr e ↦ rw e (await-Guarded _ h)
        ]
