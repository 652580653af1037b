-- ===== src/Evaluation/Hysteresis.antt =====
-- What a pass may write into the status of the evaluation.
use argocd_autoscaler.Base.{
  ℕ, ◌+◌, ◌≤◌, ◌≡◌, refl, subst, sym, ◌⊎◌, inl, inr, true, Option, some, none, List, [], ◌∷◌,
  length, ltb, if◌then◌else◌, All, arith, Bool-cases,
}
use argocd_autoscaler.Text.{Text, text_eq}
use argocd_autoscaler.Arithmetic.{Arithmetic}
use argocd_autoscaler.Api.{LoadIndex, ReplicaList}
use argocd_autoscaler.Controller.{
  Error, Result, ok, err, Condition, Meta, is_ready, ready, done, Pass, finish, finish-calls,
}
use argocd_autoscaler.Evaluation.{
  Tally, new_record, scale_up_stabilization_period, scale_down_stabilization_period,
  stabilization_period_for_projection,
}
use argocd_autoscaler.Evaluation.Reconcile.{
  found, Clock, PartitionProvider, Gauge, projected_shards, projected_replicas_total_load, shards,
  replicas_total_load, Evaluation', Call, update_status, delete_partial_match, set_shard, set_load,
  record_shards, record_replicas, record_gauges, with_condition, hash_of, expired, observe, project,
  top_hash, elect, conclude, evaluate, check_provider, find_provider, reconcile,
}

module _ (n : Arithmetic) (m : Meta) (sha256 : Text → Text) (order : List Tally → List Tally)
    (clock : Clock) where
  -- The replicas and the time of their election are as before.
  pub record Keeps (e e' : Evaluation' n m) : Type 0 where
    pub replicas : e'.status.replicas ≡ e.status.replicas
    pub time : e'.status.last_evaluation_timestamp ≡ e.status.last_evaluation_timestamp

  -- The period that has to pass before the replicas may be replaced by new ones: that for scaling
  -- down if there are fewer of them, that for scaling up if not.
  abbrev pub required_period : Evaluation' n m → ReplicaList n.Quantity → ℕ
  required_period e new =
      if ltb (length new) (length e.status.replicas)
      then scale_down_stabilization_period e
      else scale_up_stabilization_period e

  -- The projection is elected, and the history starts again with it.
  pub record Elects (e e' : Evaluation' n m) : Type 0 where
    pub replicas : e'.status.replicas ≡ e'.status.projection
    pub time : e'.status.last_evaluation_timestamp ≡ some clock.elected
    pub history :
        e'.status.history
        ≡ new_record (hash_of n m sha256 order clock e'.status.replicas) clock.renewed ∷ []
    pub due :
        (e.status.last_evaluation_timestamp ≡ none)
        ⊎ ((t : ℕ) × (e.status.last_evaluation_timestamp ≡ some t)
            × (t + required_period e e'.status.replicas ≤ clock.compared))

  abbrev pub IsAllowed : Evaluation' n m → Call n m → Type 0
  IsAllowed e (update_status e') = (e'.spec ≡ e.spec) × (Keeps e e' ⊎ Elects e e')
  IsAllowed e (delete_partial_match g) = Unit
  IsAllowed e (set_shard g s id) = Unit
  IsAllowed e (set_load g id x) = Unit

  -- Noting what was seen and projecting it leaves the elected replicas alone.
  abbrev IsEarlier : Evaluation' n m → Evaluation' n m → Type 0
  IsEarlier e e' = (e'.spec ≡ e.spec) × Keeps e e'

  project-IsEarlier :
      (desired : ReplicaList n.Quantity) (e : Evaluation' n m)
      → IsEarlier e
          (project n m sha256 order clock desired (observe n m sha256 order clock desired e))
  unfolding project observe
  project-IsEarlier desired e = ground arith

  expired-due :
      (last : Option ℕ) (period : ℕ)
      → expired n m sha256 order clock last period ≡ true
      → (last ≡ none) ⊎ ((t : ℕ) × (last ≡ some t) × (t + period ≤ clock.compared))
  expired-due none period h = inl refl
  expired-due (some t) period h = inr (t, refl, ground arith)

  required_period_lem :
      (e e' : Evaluation' n m)
      → IsEarlier e e'
      → stabilization_period_for_projection e' ≡ required_period e e'.status.projection
  unfolding stabilization_period_for_projection scale_up_stabilization_period
      scale_down_stabilization_period
  required_period_lem e e' h = rw (h.1.replicas, h.0)

  elect-IsAllowed :
      (c : Condition) (e e' : Evaluation' n m)
      → IsEarlier e e'
      → IsAllowed e (update_status (with_condition n m c (elect n m sha256 order clock e')))
  unfolding elect scale_down_stabilization_period scale_up_stabilization_period
  elect-IsAllowed c e e' h =
      let due =
        expired n m sha256 order clock e'.status.last_evaluation_timestamp
          (stabilization_period_for_projection e') in
      elim (Bool-cases due) [
        | inr early ↦ rw early (h.0, inl (record { replicas = h.1.replicas; time = h.1.time }))
        | inl late ↦ rw late (
          h.0,
          inr (record {
            replicas = refl;
            time = refl;
            history = refl;
            due =
                rw (← h.1.time, ← required_period_lem e e' h)
                  (expired-due e'.status.last_evaluation_timestamp
                    (stabilization_period_for_projection e') late);
          }),
        )
      ]

  module _ (e : Evaluation' n m) where
    record_shards-IsAllowed :
        (g : Gauge) (id : ℕ) (ls : List (LoadIndex n.Quantity)) (rest : Pass (Call n m))
        → All (IsAllowed e) rest.calls
        → All (IsAllowed e) (record_shards n m g id ls rest).calls
    unfolding record_shards
    record_shards-IsAllowed g id [] rest h = h
    record_shards-IsAllowed g id (l ∷ ls) rest h = (tt, record_shards-IsAllowed g id ls rest h)

    record_replicas-IsAllowed :
        (g h : Gauge) (rs : ReplicaList n.Quantity) (rest : Pass (Call n m))
        → All (IsAllowed e) rest.calls
        → All (IsAllowed e) (record_replicas n m g h rs rest).calls
    unfolding record_replicas
    record_replicas-IsAllowed g h [] rest a = a
    record_replicas-IsAllowed g h (r ∷ rs) rest a =
        record_shards-IsAllowed g r.id r.load_indexes _
          (tt, record_replicas-IsAllowed g h rs rest a)

    record_gauges-IsAllowed :
        (g h : Gauge) (rs : ReplicaList n.Quantity) (rest : Pass (Call n m))
        → All (IsAllowed e) rest.calls
        → All (IsAllowed e) (record_gauges n m g h rs rest).calls
    unfolding record_gauges
    record_gauges-IsAllowed g h rs rest a = (tt, (tt, record_replicas-IsAllowed g h rs rest a))

    module _ (answer : Call n m → Option Error) where
      finish-IsAllowed :
          (e' : Evaluation' n m)
          → IsAllowed e (update_status e')
          → All (IsAllowed e) (finish answer (update_status e') done).calls
      finish-IsAllowed e' a =
          subst (All (IsAllowed e)) (sym (finish-calls answer (update_status e') done)) (a, tt)

      conclude-IsAllowed :
          (e' : Evaluation' n m)
          → IsEarlier e e'
          → All (IsAllowed e) (conclude n m sha256 order clock answer e').calls
      unfolding conclude
      conclude-IsAllowed e' h =
          let elected = elect n m sha256 order clock e' in
          let last = finish answer (update_status (with_condition n m ready elected)) done in
          record_gauges-IsAllowed projected_shards projected_replicas_total_load
            e'.status.projection
            (record_gauges n m shards replicas_total_load elected.status.replicas last)
            (record_gauges-IsAllowed shards replicas_total_load elected.status.replicas last
              (finish-IsAllowed (with_condition n m ready elected) (elect-IsAllowed ready e e' h)))

      evaluate-IsAllowed :
          (desired : ReplicaList n.Quantity)
          → All (IsAllowed e) (evaluate n m sha256 order clock answer desired e).calls
      unfolding evaluate
      evaluate-IsAllowed desired =
          let e' =
            project n m sha256 order clock desired (observe n m sha256 order clock desired e) in
          let top = top_hash n m sha256 order clock e' in
          let h = project-IsEarlier desired e in
          elim (Bool-cases (text_eq top (hash_of n m sha256 order clock e'.status.projection))) [
            | inl known ↦ rw known (conclude-IsAllowed e' h)
            | inr unknown ↦ rw unknown (
                finish-IsAllowed _ (h.0, inl (record { replicas = h.1.replicas; time = h.1.time })))
          ]

      -- Every status that a pass of Reconcile writes, whichever way it goes, leaves the spec alone,
      -- and either leaves the elected replicas and the time of their election alone, or elects the
      -- projection, dates it and restarts the history with it. The latter happens only if nothing
      -- was elected before, or the required period has passed since: the period for scaling down
      -- if the new replicas are fewer, and the period for scaling up otherwise.
      pub reconcile-IsAllowed :
          (provider : Result (PartitionProvider n.Quantity m.Conditions))
          → All (IsAllowed e) (reconcile n m sha256 order clock answer (found e) provider).calls
      unfolding reconcile find_provider check_provider evaluate conclude
      reconcile-IsAllowed (err x) =
          finish-IsAllowed _ (refl, inl (record { replicas = refl; time = refl }))
      reconcile-IsAllowed (ok p) = elim (Bool-cases (is_ready m p.conditions)) [
        | inr unready ↦
            rw unready (finish-IsAllowed _ (refl, inl (record { replicas = refl; time = refl })))
        | inl good ↦ rw good (evaluate-IsAllowed p.replicas)
      ]
