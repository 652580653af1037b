-- ===== src/Polling/Waiting.antt =====
-- When a poll is put off.
use argocd_autoscaler.Base.{
  ℕ, ◌+◌, ◌-◌, ◌<◌, ◌≡◌, refl, ap, ◌∙◌, Bool, true, false, ◌&&◌, Bool-cases, inl, inr, ◌⊎◌, Option,
  some, List, [], map, arith, lt→ltb,
}
use argocd_autoscaler.Text.{Text}
use argocd_autoscaler.Text.Sorted.{has}
use argocd_autoscaler.Text.Sets.{sorted_set_same, same_sorted_set}
use argocd_autoscaler.Arithmetic.{Arithmetic}
use argocd_autoscaler.Api.{Shard}
use argocd_autoscaler.Controller.{Error, Meta, is_ready, requeue_after, Pass, stop}
use argocd_autoscaler.Controller as Controller
use argocd_autoscaler.LoadIndexing.Reconcile.{found}
use argocd_autoscaler.Polling.{PollError, Prometheus}
use argocd_autoscaler.Polling.Reconcile.{
  PrometheusPoll, ShardsProvider, Call, has_duplicate, is_unchanged, poll_now, check_period,
  check_provider, find_provider, reconcile,
}

module _ (n : Arithmetic) (m : Meta) where
  -- The values in the status are those of the shards and of the metrics that there are now.
  pub record IsCurrent (s : PrometheusPoll n m) (shards : List Shard) : Type 0 where
    pub shards_same :
        (uid : Text)
        → has uid (map (λ x. x.shard.uid) s.status.values) ≡ has uid (map (λ h. h.uid) shards)
    pub metrics_same :
        (id : Text)
        → has id (map (λ x. x.id) s.status.values) ≡ has id (map (λ x. x.id) s.spec.metrics)

  and-true : (a b : Bool) → a && b ≡ true → (a ≡ true) × (b ≡ true)
  and-true true true h = (refl, refl)
  and-true true false h = cc
  and-true false b h = cc

  unchanged-IsCurrent :
      (s : PrometheusPoll n m) (shards : List Shard)
      → is_unchanged n m s shards ≡ true
      → IsCurrent s shards
  unfolding is_unchanged
  unchanged-IsCurrent s shards h =
      let (a, b) = and-true _ _ h in
      record { shards_same = sorted_set_same _ _ a; metrics_same = sorted_set_same _ _ b }

  IsCurrent-unchanged :
      (s : PrometheusPoll n m) (shards : List Shard)
      → IsCurrent s shards
      → is_unchanged n m s shards ≡ true
  unfolding is_unchanged
  IsCurrent-unchanged s shards h =
      rw (same_sorted_set _ _ h.shards_same, same_sorted_set _ _ h.metrics_same) refl

  module _ (api : Prometheus n.Float) (message : PollError → Error) (now later : ℕ)
      (answer : Call n m → Option Error) where
    reconcile_lem :
        (s : PrometheusPoll n m) (p : ShardsProvider n m) (last : ℕ)
        → has_duplicate n m s.spec.metrics [] ≡ false
        → is_ready m p.conditions ≡ true
        → s.status.last_polling_time ≡ some last
        → reconcile n m api message now later answer (found s) (Controller.ok p)
          ≡ check_period n m api message now later answer (some last) s p.shards
    unfolding reconcile find_provider check_provider
    reconcile_lem s p last d r l =
        rw (d, r) (ap (λ o. check_period n m api message now later answer o s p.shards) l)

    -- A resource without a metric ID that is there twice, whose shard manager is ready, and which was
    -- polled less than a period ago: either the values in its status are those of exactly the shards
    -- and the metric IDs that there are now, and the pass makes no call and comes back when the
    -- period is over, whatever the conditions of the resource say; or they are not, and it polls.
    pub reconcile_waits :
        (s : PrometheusPoll n m) (p : ShardsProvider n m) (last : ℕ)
        → has_duplicate n m s.spec.metrics [] ≡ false
        → is_ready m p.conditions ≡ true
        → s.status.last_polling_time ≡ some last
        → now < last + s.spec.period
        → (IsCurrent s p.shards
            × (reconcile n m api message now later answer (found s) (Controller.ok p)
                ≡ stop (requeue_after (last + s.spec.period - now))))
          ⊎ ((¬ IsCurrent s p.shards)
              × (reconcile n m api message now later answer (found s) (Controller.ok p)
                  ≡ poll_now n m api message now later answer s p.shards))
    unfolding check_period
    reconcile_waits s p last d r l h =
        let same = reconcile_lem s p last d r l in
        elim (Bool-cases (is_unchanged n m s p.shards)) [
          | inl e ↦ inl (
            unchanged-IsCurrent s p.shards e,
            same ∙ rw (lt→ltb now (last + s.spec.period) h, e) refl,
          )
          | inr e ↦ inr (
            λ c. ground (arith, IsCurrent-unchanged s p.shards c, e),
            same ∙ rw (lt→ltb now (last + s.spec.period) h, e) refl,
          )
        ]
