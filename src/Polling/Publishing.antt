-- ===== src/Polling/Publishing.antt =====
-- What the poll's resource publishes.
use argocd_autoscaler.Base.{
  ◌≡◌, refl, true, false, Bool-cases, inl, inr, Option, none, some, List, [], ◌∷◌, All, Pairwise,
  arith, ℕ, ◌+◌, ◌&&◌, ltb,
}
use argocd_autoscaler.Arithmetic.{Arithmetic}
use argocd_autoscaler.Controller.{Error, Meta, IsMeta, is_ready, not_ready, Pass}
use argocd_autoscaler.Controller as Controller
use argocd_autoscaler.Controller.Calls.{finish-All, not_ready-set}
use argocd_autoscaler.LoadIndexing.{Metric}
use argocd_autoscaler.LoadIndexing.Reconcile.{found}
use argocd_autoscaler.Polling.{PollError, Polled, Prometheus, poll}
use argocd_autoscaler.Polling as Polling
use argocd_autoscaler.Polling.Pairs.{pairs, Gives, Accounts, poll-Accounts}
use argocd_autoscaler.Polling.Reconcile.{
  PrometheusPoll, ShardsProvider, Call, delete_values, set_value, update_status, has_duplicate,
  is_unchanged, with_condition, record_values, report, publish, poll_now, check_period,
  check_provider, find_provider, reconcile,
}
use Prim.Native.String.{String}

module _ (n : Arithmetic) (m : Meta) (api : Prometheus n.Float) where
  -- A ready status has the values of a poll of all metrics and shards.
  pub record IsPoll (later : ℕ) (p : ShardsProvider n m) (s s' : PrometheusPoll n m) : Type 0 where
    pub provider_ready : is_ready m p.conditions ≡ true
    pub distinct : has_duplicate n m s.spec.metrics [] ≡ false
    pub values : Pairwise (Gives n api) (pairs n api 0 s.spec.metrics p.shards) s'.status.values
    pub dated : s'.status.last_polling_time ≡ some later

  unfoldable pub IsPolling : ℕ → ShardsProvider n m → PrometheusPoll n m → Call n m → Type 0
  IsPolling later p s delete_values = Unit
  IsPolling later p s (set_value labels value) = Unit
  IsPolling later p s (update_status s') =
      is_ready m s'.status.conditions ≡ true → IsPoll later p s s'

  module _ (message : PollError → Error) (now later : ℕ) (answer : Call n m → Option Error)
      (laws : IsMeta m) (p : ShardsProvider n m) (s : PrometheusPoll n m)
      (connects : api.connects s.spec.address ≡ some tt) where
    abbrev Polling' : Call n m → Type 0
    Polling' = IsPolling later p s

    update_lem :
        (reason : String) → Polling' (update_status (with_condition n m (not_ready reason) s))
    unfolding IsPolling
    update_lem reason e = let e' = not_ready-set m laws s.status.conditions reason in ground arith

    report-Polling :
        (reason : String) → All Polling' (report n m api message now later answer reason s).calls
    report-Polling reason = finish-All Polling' answer _ _ (update_lem reason)

    record_values-Polling :
        (xs : List (Metric n)) (rest : Pass (Call n m))
        → All Polling' rest.calls
        → All Polling' (record_values n m xs rest).calls
    unfolding record_values IsPolling
    record_values-Polling [] rest h = h
    record_values-Polling (x ∷ xs) rest h = (tt, record_values-Polling xs rest h)

    publish-Polling :
        (o : Polled (List (Metric n)))
        → has_duplicate n m s.spec.metrics [] ≡ false
        → is_ready m p.conditions ≡ true
        → Accounts n api (pairs n api 0 s.spec.metrics p.shards) o
        → All Polling' (publish n m api message now later answer s o).calls
    unfolding publish IsPolling
    publish-Polling (Polling.err e) d r a =
        finish-All Polling' answer _ _ (update_lem "PollingError")
    publish-Polling (Polling.ok xs) d r a = (
      tt,
      record_values-Polling xs _ (
          finish-All Polling' answer _ _
            (λ is_ready. record { provider_ready = r; distinct = d; values = a; dated = refl })),
    )

    poll_now-Polling :
        has_duplicate n m s.spec.metrics [] ≡ false
        → is_ready m p.conditions ≡ true
        → All Polling' (poll_now n m api message now later answer s p.shards).calls
    poll_now-Polling d r =
        publish-Polling _ d r (poll-Accounts n api s.spec.address s.spec.metrics p.shards connects)

    check_period-Polling :
        (last : Option ℕ)
        → has_duplicate n m s.spec.metrics [] ≡ false
        → is_ready m p.conditions ≡ true
        → All Polling' (check_period n m api message now later answer last s p.shards).calls
    unfolding check_period
    check_period-Polling none d r = poll_now-Polling d r
    check_period-Polling (some last) d r =
        elim (Bool-cases (ltb now (last + s.spec.period) && is_unchanged n m s p.shards)) [
          | inl e ↦ rw e tt
          | inr e ↦ rw e (poll_now-Polling d r)
        ]

    check_provider-Polling :
        has_duplicate n m s.spec.metrics [] ≡ false
        → All Polling' (check_provider n m api message now later answer s p).calls
    unfolding check_provider
    check_provider-Polling d = elim (Bool-cases (is_ready m p.conditions)) [
      | inl r ↦ rw r (check_period-Polling s.status.last_polling_time d r)
      | inr r ↦ rw r (report-Polling "ShardManagerNotReady")
    ]

    -- Where there is a client for the address and a condition that is set is the one that is found,
    -- whatever the API server and Prometheus answer: a ready status that a pass writes is dated with
    -- the time of the poll and has one value for each pair of a metric and a shard of the shard
    -- manager, which the query of the pair gives; the shard manager was ready; and no two metrics
    -- have the same ID.
    pub reconcile-IsPolling :
        All
          (IsPolling later p s)
          (reconcile n m api message now later answer (found s) (Controller.ok p)).calls
    unfolding reconcile find_provider
    reconcile-IsPolling = elim (Bool-cases (has_duplicate n m s.spec.metrics [])) [
      | inl d ↦ rw d (report-Polling "MalformedResource")
      | inr d ↦ rw d (check_provider-Polling d)
    ]
