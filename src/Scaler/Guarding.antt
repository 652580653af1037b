-- ===== src/Scaler/Guarding.antt =====
-- What a pass has made sure of where it makes a call, from the branch on the transition on.
use argocd_autoscaler.Base.{
  ℕ, ◌≡◌, inl, inr, false, ◌&&◌, Option, none, some, ltb, length, All, arith, Bool-cases,
}
use text.Mathlib.Text.{◌==◌ as str_eq}
use argocd_autoscaler.Text.{to_int32}
use argocd_autoscaler.Controller.{Error, Meta, IsMeta, is_ready, ok}
use argocd_autoscaler.Controller.Calls.{try_call-All}
use argocd_autoscaler.Scaler.{StatefulSet, Mode, resolve_mode, is_zero}
use argocd_autoscaler.Scaler.Objects.{
  found, PartitionProvider, ShardManager, Reconciler, Scaler', Call, World,
}
use argocd_autoscaler.Scaler.Reconcile.{
  scale_down_first, scale_down_from, transition_pending, act, find_stateful_set, find_shard_manager,
  find_provider, check_paused, reconcile, start, is_true, is_paused_condition,
}
use argocd_autoscaler.Scaler.Calls.{report-All, record_event-All, scale_to-All, scaled-replicas}
use argocd_autoscaler.Scaler.Guards.{IsGuarded, quiet, enforce-Guarded, update_manager-Guarded}

module _ {Q : Type 0} {m : Meta} where
  module _ (laws : IsMeta m) (r : Reconciler) (answer : Call Q m → Option Error) (mode : Mode)
      (p : PartitionProvider Q m.Conditions) (sm : ShardManager Q m.Conditions) (s : Scaler' Q m)
      (sts : StatefulSet) where
    abbrev Guarded : Call Q m → Type 0
    Guarded = IsGuarded mode p sm s sts

    scale_down_from-Guarded :
        (replicas : Option ℕ) → All Guarded (scale_down_from Q m r answer replicas s sts).calls
    unfolding scale_down_from IsGuarded
    scale_down_from-Guarded none = tt
    scale_down_from-Guarded (some k) = elim (Bool-cases (ltb 0 k)) [
      | inl e ↦ rw e (
          scale_to-All r answer Guarded s (quiet laws r answer mode p sm s sts) sts 0 false _ _
            (λ t e' pending. inl (scaled-replicas r.now 0 false sts t e'))
            (λ x. report-All r answer Guarded s (quiet laws r answer mode p sm s sts) _ _)
            (try_call-All Guarded answer _ _ _
              ((quiet laws r answer mode p sm s sts).status "BeginningScalingToZero") (λ x. tt)
              (record_event-All r answer Guarded s (quiet laws r answer mode p sm s sts) _ _ _ tt)))
      | inr e ↦ rw e (report-All r answer Guarded s (quiet laws r answer mode p sm s sts) _ _)
    ]

    act-Guarded : All Guarded (act Q m r answer mode p sm s sts).calls
    unfolding act scale_down_first
    act-Guarded = elim (Bool-cases (transition_pending Q m mode p s)) [
      | inl e ↦ elim (Bool-cases (ltb 0 sts.status_replicas)) [
        | inl e' ↦ rw (e, e') (scale_down_from-Guarded sts.spec_replicas)
        | inr e' ↦
            rw (e, e')
              (update_manager-Guarded laws r answer mode p sm s sts (λ pending. ground arith))
      ]
      | inr e ↦ elim (Bool-cases (ltb 0 (to_int32 (length p.replicas)) && is_zero sts)) [
        | inl e' ↦
            rw (e, e') (enforce-Guarded laws r answer mode p sm s sts _ (λ pending. ground arith))
        | inr e' ↦
            rw (e, e')
              (update_manager-Guarded laws r answer mode p sm s sts (λ pending. ground arith))
      ]
    ]

    abbrev world : World Q m
    world = record { provider = ok p; shard_manager = ok sm; stateful_set = ok sts }

    find_stateful_set-Guarded : All Guarded (find_stateful_set Q m r answer world mode p sm s).calls
    unfolding find_stateful_set
    find_stateful_set-Guarded =
        elim (Bool-cases (str_eq s.spec.replica_set_controller_kind "StatefulSet")) [
          | inl e ↦ rw e act-Guarded
          | inr e ↦ rw e (report-All r answer Guarded s (quiet laws r answer mode p sm s sts) _ _)
        ]

    find_shard_manager-Guarded : All Guarded (find_shard_manager Q m r answer world mode p s).calls
    unfolding find_shard_manager
    find_shard_manager-Guarded = elim (Bool-cases (is_ready m sm.conditions)) [
      | inl e ↦ rw e find_stateful_set-Guarded
      | inr e ↦ rw e (report-All r answer Guarded s (quiet laws r answer mode p sm s sts) _ _)
    ]

    find_provider-Guarded : All Guarded (find_provider Q m r answer world mode s).calls
    unfolding find_provider
    find_provider-Guarded = elim (Bool-cases (is_ready m p.conditions)) [
      | inl e ↦ rw e find_shard_manager-Guarded
      | inr e ↦ rw e (report-All r answer Guarded s (quiet laws r answer mode p sm s sts) _ _)
    ]

    check_paused-Guarded : All Guarded (check_paused Q m r answer world mode s).calls
    unfolding check_paused
    check_paused-Guarded =
        elim (Bool-cases (is_paused_condition Q m (m.find s.status.conditions))) [
          | inl e ↦ elim (Bool-cases (is_true Q m s.spec.paused)) [
            | inl e' ↦
                rw (e, e') (report-All r answer Guarded s (quiet laws r answer mode p sm s sts) _ _)
            | inr e' ↦
                rw (e, e')
                  (record_event-All r answer Guarded s (quiet laws r answer mode p sm s sts) _ _ _
                    find_provider-Guarded)
          ]
          | inr e ↦ elim (Bool-cases (is_true Q m s.spec.paused)) [
            | inl e' ↦
                rw (e, e')
                  (record_event-All r answer Guarded s (quiet laws r answer mode p sm s sts) _ _ _
                    (report-All r answer Guarded s (quiet laws r answer mode p sm s sts) _ _))
            | inr e' ↦ rw (e, e') find_provider-Guarded
          ]
        ]

  -- Where the mode resolves, every call of a pass is guarded, however the calls are answered.
  pub reconcile-IsGuarded :
      (laws : IsMeta m) (r : Reconciler) (answer : Call Q m → Option Error) (mode : Mode)
      (p : PartitionProvider Q m.Conditions) (sm : ShardManager Q m.Conditions) (s : Scaler' Q m)
      (sts : StatefulSet)
      → resolve_mode s.spec.mode ≡ some mode
      → All
          (IsGuarded mode p sm s sts)
          (reconcile Q m r answer
            (found s)
            record { provider = ok p; shard_manager = ok sm; stateful_set = ok sts }).calls
  unfolding reconcile start
  reconcile-IsGuarded laws r answer mode p sm s sts h =
      rw h (check_paused-Guarded laws r answer mode p sm s sts)
