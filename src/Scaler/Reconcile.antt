-- ===== src/Scaler/Reconcile.antt =====
-- The body of Reconcile, after the rate limit.
use argocd_autoscaler.Base.{
  ℕ, ◌*◌, Bool, false, ◌&&◌, ◌||◌, not, Option, none, some, List, [], ◌∷◌, ltb, ◌==◌, if◌then◌else◌,
  length,
}
use Prim.Native.String.{String}
use text.Mathlib.Text.{◌==◌ as str_eq}
use argocd_autoscaler.Text.{text_eq, to_int32}
use argocd_autoscaler.Api.{ReplicaList}
use argocd_autoscaler.Api.Serialize.{serialize_to_string}
use argocd_autoscaler.Controller.{
  Error, ok, err, Condition, Meta, is_ready, not_ready, ready, second, global_rate_limit, Outcome,
  done, requeue_after, failed, panicked, Pass, stop, emit, try_call, finish,
}
use argocd_autoscaler.Scaler.{
  StatefulSet, Modes, Mode, default_mode, x0y_mode, resolve_mode, scaled, is_zero,
  needs_enforcement,
}
use argocd_autoscaler.Scaler.Objects.{
  Got, found, not_found, get_failed, PartitionProvider, ShardManager, Reconciler, Scaler', Call,
  World, update_status, update_shard_manager, update_stateful_set, refresh_stateful_set, event,
  count_change,
}

module _ (Q : Type 0) (m : Meta) where
  abbrev pub with_condition : Condition → Scaler' Q m → Scaler' Q m
  with_condition c s = record s {
    status = record (s.status) { conditions = m.set s.status.conditions c };
  }

  abbrev pub same_assignment : ReplicaList Q → ReplicaList Q → Bool
  same_assignment rs ss = text_eq (serialize_to_string rs) (serialize_to_string ss)

  abbrev pub is_paused_condition : Option Condition → Bool
  is_paused_condition none = false
  is_paused_condition (some c) = str_eq c.reason "Paused"

  abbrev pub is_true : Option Bool → Bool
  is_true none = false
  is_true (some b) = b

  abbrev pub wants_restart : Mode → Option Modes → Bool
  wants_restart x0y_mode ms = false
  wants_restart default_mode none = false
  wants_restart default_mode (some ms) = elim ms.default [
    | none ↦ false
    | some d ↦ is_true d.rollout_restart
  ]

  -- Lines 342 to 344.
  abbrev pub transition_pending : Mode → PartitionProvider Q m.Conditions → Scaler' Q m → Bool
  transition_pending default_mode p s = false
  transition_pending x0y_mode p s = not (same_assignment p.replicas s.status.replicas)

  module _ (r : Reconciler) (answer : Call Q m → Option Error) where
    abbrev pub record_event : String → List ℕ → Pass (Call Q m) → Pass (Call Q m)
    record_event reason numbers rest =
        if r.has_recorder then emit (event reason numbers) rest else rest

    -- A status that is not ready, and the outcome if it is written.
    abbrev pub report : String → Outcome → Scaler' Q m → Pass (Call Q m)
    report reason o s = finish answer (update_status (with_condition (not_ready reason) s)) o

    -- ScaleTo. The object is read again after the update, whether or not it succeeds.
    abbrev pub refresh : Pass (Call Q m) → Pass (Call Q m)
    refresh rest = if r.has_api_reader then emit refresh_stateful_set rest else rest

    unfoldable pub scale_to :
        StatefulSet → ℕ → Bool → (Error → Pass (Call Q m)) → Pass (Call Q m) → Pass (Call Q m)
    scale_to sts replicas restart on_error rest = elim (scaled r.now replicas restart sts) [
      | none ↦ on_error "container argocd-application-controller not found in StatefulSet"
      | some sts' ↦
          try_call answer (update_stateful_set sts') (λ x. refresh (on_error x)) (refresh rest)
    ]

    -- EnforceRSControllerDesiredState
    unfoldable pub enforce : Scaler' Q m → StatefulSet → ℕ → Pass (Call Q m)
    enforce s sts desired =
        scale_to sts desired false (λ x. report "ErrorScaling" (failed x) s)
          (try_call answer (update_status (with_condition (not_ready "EnforcingDesiredState") s))
            (λ x. stop (failed x))
            (record_event "DesiredStateEnforced" (desired ∷ [])
              (emit count_change (stop (requeue_after (5 * second))))))

    -- Lines 532 to 566.
    unfoldable pub settle : Scaler' Q m → StatefulSet → ℕ → Pass (Call Q m)
    settle s sts desired =
        if needs_enforcement sts desired
        then enforce s sts desired
        else if not (sts.status_replicas == desired)
        then report "WaitingForRSControllerToScale" (requeue_after second) s
        else finish answer (update_status (with_condition ready s)) done

    -- Lines 518 to 529.
    abbrev pub begin_scaling : ReplicaList Q → Scaler' Q m → Pass (Call Q m)
    begin_scaling rs s =
        report "BeginningRSControllerScaling" (requeue_after (5 * second))
          (record s { status = record (s.status) { replicas = rs } })

    -- Lines 460 to 530; the spec of the shard manager is that after its update.
    unfoldable pub scale :
        Mode
        → ReplicaList Q
        → ShardManager Q m.Conditions
        → Scaler' Q m
        → StatefulSet
        → ℕ
        → Pass (Call Q m)
    scale mode spec_replicas sm s sts desired =
        let restart = wants_restart mode s.spec.mode in
        if not (same_assignment s.status.replicas sm.status_replicas)
        then (if restart || not (sts.status_replicas == desired)
            then scale_to sts desired restart (λ x. report "ErrorScaling" (failed x) s)
                (record_event "Scaled" (sts.status_replicas ∷ desired ∷ [])
                  (emit count_change (begin_scaling spec_replicas s)))
            else begin_scaling spec_replicas s)
        else settle s sts desired

    -- Lines 443 to 458.
    unfoldable pub await_shard_manager :
        Mode
        → PartitionProvider Q m.Conditions
        → ReplicaList Q
        → ShardManager Q m.Conditions
        → Scaler' Q m
        → StatefulSet
        → ℕ
        → Pass (Call Q m)
    await_shard_manager mode p spec_replicas sm s sts desired =
        if not (same_assignment p.replicas sm.status_replicas)
        then report "WaitingForShardManagerToApplyDesiredState" (requeue_after second) s
        else scale mode spec_replicas sm s sts desired

    -- Lines 415 to 441.
    unfoldable pub update_manager :
        Mode
        → PartitionProvider Q m.Conditions
        → ShardManager Q m.Conditions
        → Scaler' Q m
        → StatefulSet
        → ℕ
        → Pass (Call Q m)
    update_manager mode p sm s sts desired =
        if not (same_assignment p.replicas sm.spec_replicas)
        then try_call answer (update_shard_manager p.replicas)
            (λ x. report "ErrorUpdatingShardManager" (failed x) s)
            (await_shard_manager mode p p.replicas sm s sts desired)
        else await_shard_manager mode p sm.spec_replicas sm s sts desired

    -- Lines 347 to 407: a spec without replicas is dereferenced.
    unfoldable pub scale_down_from : Option ℕ → Scaler' Q m → StatefulSet → Pass (Call Q m)
    scale_down_from none s sts = stop panicked
    scale_down_from (some k) s sts =
        if ltb 0 k
        then scale_to sts 0 false (λ x. report "ErrorScalingToZero" (failed x) s)
            (try_call answer (update_status (with_condition (not_ready "BeginningScalingToZero") s))
              (λ x. stop (failed x))
              (record_event "ScaledToZero" [] (stop (requeue_after (5 * second)))))
        else report "WaitingForRSControllerToScaleToZero" (requeue_after second) s

    unfoldable pub scale_down_first : Scaler' Q m → StatefulSet → Pass (Call Q m)
    scale_down_first s sts = scale_down_from sts.spec_replicas s sts

    -- Lines 340 to 413.
    unfoldable pub act :
        Mode
        → PartitionProvider Q m.Conditions
        → ShardManager Q m.Conditions
        → Scaler' Q m
        → StatefulSet
        → Pass (Call Q m)
    act mode p sm s sts =
        let desired = to_int32 (length p.replicas) in
        let pending = transition_pending mode p s in
        if pending && ltb 0 sts.status_replicas
        then scale_down_first s sts
        else if not pending && ltb 0 desired && is_zero sts
        then enforce s sts desired
        else update_manager mode p sm s sts desired

    -- Lines 283 to 338.
    unfoldable pub find_stateful_set :
        World Q m
        → Mode
        → PartitionProvider Q m.Conditions
        → ShardManager Q m.Conditions
        → Scaler' Q m
        → Pass (Call Q m)
    find_stateful_set w mode p sm s =
        if str_eq s.spec.replica_set_controller_kind "StatefulSet"
        then elim w.stateful_set [
          | err x ↦ report "ErrorFindingStatefulSet" done s
          | ok sts ↦ act mode p sm s sts
        ]
        else report "UnsupportedReplicaSetControllerKind" done s

    -- Lines 238 to 281.
    unfoldable pub find_shard_manager :
        World Q m → Mode → PartitionProvider Q m.Conditions → Scaler' Q m → Pass (Call Q m)
    find_shard_manager w mode p s = elim w.shard_manager [
      | err x ↦ report "ErrorFindingShardManager" done s
      | ok sm ↦
          if is_ready m sm.conditions
          then find_stateful_set w mode p sm s
          else report "ShardManagerNotReady" done s
    ]

    -- Lines 193 to 236.
    unfoldable pub find_provider : World Q m → Mode → Scaler' Q m → Pass (Call Q m)
    find_provider w mode s = elim w.provider [
      | err x ↦ report "ErrorFindingPartitionProvider" done s
      | ok p ↦
          if is_ready m p.conditions
          then find_shard_manager w mode p s
          else report "PartitionProviderNotReady" done s
    ]

    -- Lines 168 to 191.
    unfoldable pub check_paused : World Q m → Mode → Scaler' Q m → Pass (Call Q m)
    check_paused w mode s =
        let was_paused = is_paused_condition (m.find s.status.conditions) in
        if is_true s.spec.paused
        then (let rest = report "Paused" (requeue_after global_rate_limit) s in
            if was_paused then rest else record_event "Paused" [] rest)
        else (let rest = find_provider w mode s in
            if was_paused then record_event "Resumed" [] rest else rest)

    -- Lines 135 to 166.
    unfoldable pub start : World Q m → Option Mode → Scaler' Q m → Pass (Call Q m)
    start w none s = report "ErrorResourceMalformedDuplicateModes" done s
    start w (some mode) s = check_paused w mode s

    -- Lines 125 to 166.
    unfoldable pub reconcile : Got (Scaler' Q m) → World Q m → Pass (Call Q m)
    reconcile not_found w = stop done
    reconcile (get_failed x) w = stop (failed x)
    reconcile (found s) w = start w (resolve_mode s.spec.mode) s
