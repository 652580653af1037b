-- ===== src/Scaler/Rollout/Orderly.antt =====
-- The invariant of a rollout in the mode X-0-Y, and what a pass makes of the cluster.
use argocd_autoscaler.Base.{
  ◌≡◌, refl, sym, ap, subst, ◌∙◌, ◌⊎◌, inl, inr, Bool, true, false, not, Bool-cases, Option, none,
  some, List, [], ◌∷◌, All, arith,
}
use argocd_autoscaler.Text.{text_eq}
use argocd_autoscaler.Text.Order.{text_eq→eq, text_eq_refl}
use argocd_autoscaler.Api.{ReplicaList}
use argocd_autoscaler.Api.Serialize.{serialize_to_string}
use argocd_autoscaler.Controller.{Error, Meta}
use argocd_autoscaler.Scaler.{x0y_mode, resolve_mode}
use argocd_autoscaler.Scaler.Objects.{
  PartitionProvider, Call, update_status, update_shard_manager, update_stateful_set,
  refresh_stateful_set, event, count_change,
}
use argocd_autoscaler.Scaler.Reconcile.{same_assignment, transition_pending}
use argocd_autoscaler.Scaler.Guards.{IsGuarded}
use argocd_autoscaler.Scaler.Rollout.{Cluster, apply, apply_if, apply_all}

module _ (Q : Type 0) (m : Meta) where
  abbrev pub Same : ReplicaList Q → ReplicaList Q → Type 0
  Same rs ss = same_assignment Q m rs ss ≡ true

  pub Same-refl : (rs : ReplicaList Q) → Same rs rs
  Same-refl rs = text_eq_refl (serialize_to_string rs)

  pub Same-sym : (rs ss : ReplicaList Q) → Same rs ss → Same ss rs
  Same-sym rs ss h =
      subst (λ t. text_eq t (serialize_to_string rs) ≡ true)
        (text_eq→eq (serialize_to_string rs) (serialize_to_string ss) h)
        (text_eq_refl (serialize_to_string rs))

  pub Same-trans : (rs ss ts : ReplicaList Q) → Same rs ss → Same ss ts → Same rs ts
  Same-trans rs ss ts h k =
      subst (λ t. text_eq t (serialize_to_string ts) ≡ true)
        (sym (text_eq→eq (serialize_to_string rs) (serialize_to_string ss) h)) k

  module _ (wanted : ReplicaList Q) where
    abbrev pub Pending : Cluster Q m → Type 0
    Pending c = same_assignment Q m wanted c.scaler.status.replicas ≡ false

    -- Nothing runs and nothing is asked to.
    pub record IsStopped (c : Cluster Q m) : Type 0 where
      pub asked : c.stateful_set.spec_replicas ≡ some 0
      pub running : c.stateful_set.status_replicas ≡ 0

    -- The shard manager has the assignment of its spec in its status, or nothing runs.
    abbrev pub IsExclusive : Cluster Q m → Type 0
    IsExclusive c = Same c.manager.spec_replicas c.manager.status_replicas ⊎ IsStopped c

    -- The invariant of a rollout.
    pub record IsOrderly (c : Cluster Q m) : Type 0 where
      pub mode : resolve_mode c.scaler.spec.mode ≡ some x0y_mode
      -- Once the scaler has recorded the assignment, the shard manager has it.
      pub recorded :
          same_assignment Q m wanted c.scaler.status.replicas ≡ true
          → Same wanted c.manager.spec_replicas × Same wanted c.manager.status_replicas
      pub exclusive :
          Same c.manager.spec_replicas c.manager.status_replicas
          ⊎ (IsStopped c × Same wanted c.manager.spec_replicas)
      -- Before the shard manager has it, no replica is about to start.
      pub starting :
          Same wanted c.manager.status_replicas
          ⊎ (c.stateful_set.status_replicas ≡ 0 → c.stateful_set.spec_replicas ≡ some 0)

    -- What a pass that starts in `c` has made of it.
    pub record HasPassed (c d : Cluster Q m) : Type 0 where
      pub spec : d.scaler.spec ≡ c.scaler.spec
      pub manager_status : d.manager.status_replicas ≡ c.manager.status_replicas
      pub running : d.stateful_set.status_replicas ≡ c.stateful_set.status_replicas
      pub recorded :
          (d.scaler.status.replicas ≡ c.scaler.status.replicas)
          ⊎ Same wanted c.manager.status_replicas
      pub assigned :
          (d.manager.spec_replicas ≡ c.manager.spec_replicas)
          ⊎ ((d.manager.spec_replicas ≡ wanted) × (Pending c → c.stateful_set.status_replicas ≡ 0))
      pub asked :
          (d.stateful_set.spec_replicas ≡ c.stateful_set.spec_replicas)
          ⊎ (d.stateful_set.spec_replicas ≡ some 0)
          ⊎ (Pending c → Same wanted c.manager.status_replicas)

    pub unchanged : (c : Cluster Q m) → HasPassed c c
    unchanged c = record {
      spec = refl;
      manager_status = refl;
      running = refl;
      recorded = inl refl;
      assigned = inl refl;
      asked = inl refl;
    }

    pending_lem : (b : Bool) → b ≡ false → not b ≡ true
    pending_lem true h = cc
    pending_lem false h = refl

    module _ (p : PartitionProvider Q m.Conditions) (same : p.replicas ≡ wanted)
        (c : Cluster Q m) where
      abbrev pub Guarded : Call Q m → Type 0
      Guarded = IsGuarded x0y_mode p c.manager c.scaler c.stateful_set

      abbrev is_pending : Pending c → transition_pending Q m x0y_mode p c.scaler ≡ true
      is_pending h =
          pending_lem (same_assignment Q m p.replicas c.scaler.status.replicas)
            (ap (λ rs. same_assignment Q m rs c.scaler.status.replicas) same ∙ h)

      wanted_lem : (rs : ReplicaList Q) → Same p.replicas rs → Same wanted rs
      wanted_lem rs = subst (λ l. Same l rs) same

      apply-HasPassed :
          (x : Call Q m) (d : Cluster Q m) → Guarded x → HasPassed c d → HasPassed c (apply Q m x d)
      unfolding IsGuarded
      apply-HasPassed (update_status s) d g h = record {
        spec = h.spec;
        manager_status = h.manager_status;
        running = h.running;
        recorded = elim g.1 [
          | inl e ↦ inl e
          | inr e ↦ inr (wanted_lem c.manager.status_replicas e)
        ];
        assigned = h.assigned;
        asked = h.asked;
      }
      apply-HasPassed (update_shard_manager rs) d g h = record {
        spec = h.spec;
        manager_status = h.manager_status;
        running = h.running;
        recorded = h.recorded;
        assigned = inr (g.0 ∙ same, λ pending. g.1 (is_pending pending));
        asked = h.asked;
      }
      apply-HasPassed (update_stateful_set t) d g h = record {
        spec = h.spec;
        manager_status = h.manager_status;
        running = h.running;
        recorded = h.recorded;
        assigned = h.assigned;
        asked = elim (Bool-cases (same_assignment Q m wanted c.scaler.status.replicas)) [
          | inl e ↦ inr (inr (λ pending. ground (arith, e, pending)))
          | inr e ↦ elim (g (is_pending e)) [
            | inl zero ↦ inr (inl zero)
            | inr applied ↦ inr (inr (λ pending. wanted_lem c.manager.status_replicas applied.1))
          ]
        ];
      }
      apply-HasPassed refresh_stateful_set d g h = h
      apply-HasPassed (event reason numbers) d g h = h
      apply-HasPassed count_change d g h = h

      pub apply_all-HasPassed :
          (answer : Call Q m → Option Error) (xs : List (Call Q m)) (d : Cluster Q m)
          → All Guarded xs
          → HasPassed c d
          → HasPassed c (apply_all Q m answer xs d)
      unfolding apply_all
      apply_all-HasPassed answer [] d g h = h
      apply_all-HasPassed answer (x ∷ xs) d g h =
          apply_all-HasPassed answer xs _ g.1 (one (answer x))
        where
          one : (o : Option Error) → HasPassed c (apply_if Q m o x d)
          one none = apply-HasPassed x d g.0 h
          one (some e) = h
