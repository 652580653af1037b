-- ===== src/Scaler/Pausing.antt =====
-- A paused replica set scaler.
use argocd_autoscaler.Base.{
  ◌≡◌, refl, inl, inr, true, false, Option, some, [], ◌∷◌, All, Bool-cases,
}
use argocd_autoscaler.Controller.{Error, Meta, IsMeta, is_ready, not_ready}
use argocd_autoscaler.Controller.{requeue_after, global_rate_limit, finish-calls}
use argocd_autoscaler.Controller.Calls.{finish-All, not_ready-set}
use argocd_autoscaler.Scaler.{Mode, resolve_mode}
use argocd_autoscaler.Scaler.Objects.{
  found, Reconciler, Scaler', Call, World, update_status, update_shard_manager, update_stateful_set,
  refresh_stateful_set, event, count_change,
}
use argocd_autoscaler.Scaler.Reconcile.{
  with_condition, check_paused, reconcile, start, is_true, is_paused_condition,
}

module _ {Q : Type 0} {m : Meta} (laws : IsMeta m) (r : Reconciler)
    (answer : Call Q m → Option Error) (s : Scaler' Q m) (w : World Q m) where
  -- What a pass on a paused scaler may call.
  pub IsHarmless : Call Q m → Type 0
  IsHarmless (update_status s') =
      s'.status.replicas ≡ s.status.replicas × is_ready m s'.status.conditions ≡ false
  IsHarmless (update_shard_manager rs) = ⊥
  IsHarmless (update_stateful_set t) = ⊥
  IsHarmless refresh_stateful_set = ⊥
  IsHarmless (event reason numbers) = reason ≡ "Paused"
  IsHarmless count_change = ⊥

  abbrev paused : Scaler' Q m
  paused = with_condition Q m (not_ready "Paused") s

  paused-Harmless :
      (mode : Mode)
      → is_true Q m s.spec.paused ≡ true
      → All IsHarmless (check_paused Q m r answer w mode s).calls
  unfolding check_paused IsHarmless
  paused-Harmless mode h =
      let report =
        finish-All IsHarmless answer (update_status paused) (requeue_after global_rate_limit)
          (refl, not_ready-set m laws s.status.conditions "Paused") in
      elim (Bool-cases (is_paused_condition Q m (m.find s.status.conditions))) [
        | inl e ↦ rw (h, e) report
        | inr e ↦ elim (Bool-cases r.has_recorder) [
          | inl e' ↦ rw (h, e, e') (refl, report)
          | inr e' ↦ rw (h, e, e') report
        ]
      ]

  -- Where a condition that is set is the one that is found: whatever the pass reads and however its
  -- calls are answered, a pass on a paused scaler whose mode resolves only reports: it writes a status that is not ready and has the replicas of before, and
  -- records no other event than that it is paused. Once that status is stored, the next pass writes
  -- it again and records nothing.
  pub reconcile-IsHarmless :
      (mode : Mode)
      → resolve_mode s.spec.mode ≡ some mode
      → is_true Q m s.spec.paused ≡ true
      → All IsHarmless (reconcile Q m r answer (found s) w).calls
        × (reconcile Q m r answer (found paused) w).calls
          ≡ update_status (with_condition Q m (not_ready "Paused") paused) ∷ []
  unfolding reconcile start check_paused
  reconcile-IsHarmless mode h h' = (
    rw h (paused-Harmless mode h'),
    rw (h, check_paused, h', laws.find-set s.status.conditions (not_ready "Paused"))
        (finish-calls answer _ _),
  )
