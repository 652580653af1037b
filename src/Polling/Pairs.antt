-- ===== src/Polling/Pairs.antt =====
-- What Poll returns: one value for each pair of a metric and a shard.
use argocd_autoscaler.Base.{
  ℕ, suc, ◌+◌, ◌≡◌, refl, ap, sym, subst, ◌∙◌, some, List, [], ◌∷◌, ◌++◌, Pairwise, length,
}
use mathlib.Core.Path.{ap₂}
use argocd_autoscaler.Text.{Text}
use argocd_autoscaler.Arithmetic.{Arithmetic}
use argocd_autoscaler.Api.{Shard}
use argocd_autoscaler.LoadIndexing.{Metric}
use argocd_autoscaler.Polling.{
  PrometheusMetric, PollError, Polled, ok, err, ◌>>=◌, Prometheus, poll_one, poll_shards,
  poll_metrics, poll,
}

module _ (n : Arithmetic) (api : Prometheus n.Float) where
  -- A query of a poll: its number, its metric and its shard.
  abbrev pub Pair : Type 0
  Pair = ℕ × PrometheusMetric n.Quantity × Shard

  abbrev pub pairs_with : ℕ → PrometheusMetric n.Quantity → List Shard → List Pair
  pairs_with k m [] = []
  pairs_with k m (s ∷ ss) = (k, m, s) ∷ pairs_with (suc k) m ss

  -- All pairs, the metrics outermost, numbered in this order.
  abbrev pub pairs : ℕ → List (PrometheusMetric n.Quantity) → List Shard → List Pair
  pairs k [] ss = []
  pairs k (m ∷ ms) ss = pairs_with k m ss ++ pairs (k + length ss) ms ss

  -- The value of a pair, or the first error of a list of pairs.
  abbrev pub value_of : Pair → Polled (Metric n)
  value_of p = poll_one n api p.0 p.1 p.2

  abbrev pub each : List Pair → Polled (List (Metric n))
  each [] = ok []
  each (p ∷ ps) = value_of p >>= λ x. each ps >>= λ xs. ok (x ∷ xs)

  append_lem :
      (a : Polled (Metric n)) (b c : Polled (List (Metric n)))
      → (a >>= λ x. (b >>= λ xs. c >>= λ ys. ok (xs ++ ys)) >>= λ zs. ok (x ∷ zs))
        ≡ ((a >>= λ x. b >>= λ xs. ok (x ∷ xs)) >>= λ xs. c >>= λ ys. ok (xs ++ ys))
  append_lem (err e) b c = refl
  append_lem (ok x) (err e) c = refl
  append_lem (ok x) (ok xs) (err e) = refl
  append_lem (ok x) (ok xs) (ok ys) = refl

  nothing_before : (o : Polled (List (Metric n))) → o ≡ (o >>= λ ys. ok ys)
  nothing_before (ok x) = refl
  nothing_before (err e) = refl

  each-append :
      (ps qs : List Pair) → each (ps ++ qs) ≡ (each ps >>= λ xs. each qs >>= λ ys. ok (xs ++ ys))
  each-append [] qs = nothing_before (each qs)
  each-append (p ∷ ps) qs =
      ap (λ o. value_of p >>= λ x. o >>= λ xs. ok (x ∷ xs)) (each-append ps qs)
      ∙ append_lem (value_of p) (each ps) (each qs)

  poll_shards_lem :
      (k : ℕ) (m : PrometheusMetric n.Quantity) (ss : List Shard)
      → poll_shards n api k m ss ≡ each (pairs_with k m ss)
  unfolding poll_shards
  poll_shards_lem k m [] = refl
  poll_shards_lem k m (s ∷ ss) =
      ap (λ o. poll_one n api k m s >>= λ x. o >>= λ xs. ok (x ∷ xs)) (poll_shards_lem (suc k) m ss)

  poll_metrics_lem :
      (k : ℕ) (ms : List (PrometheusMetric n.Quantity)) (ss : List Shard)
      → poll_metrics n api k ms ss ≡ each (pairs k ms ss)
  unfolding poll_metrics
  poll_metrics_lem k [] ss = refl
  poll_metrics_lem k (m ∷ ms) ss =
      ap₂ (λ a b. a >>= λ xs. b >>= λ ys. ok (xs ++ ys)) (poll_shards_lem k m ss)
        (poll_metrics_lem (k + length ss) ms ss)
      ∙ sym (each-append (pairs_with k m ss) (pairs (k + length ss) ms ss))

  abbrev pub Gives : Pair → Metric n → Type 0
  Gives p y = value_of p ≡ ok y

  -- The first pair of a list that fails, and its error.
  pub record FailsFirst (ps : List Pair) (e : PollError) : Type 0 where
    pub before : List Pair
    pub failing : Pair
    pub after : List Pair
    pub split : ps ≡ before ++ failing ∷ after
    pub values : List (Metric n)
    pub earlier : Pairwise Gives before values
    pub fails : value_of failing ≡ err e

  -- What the outcome of going through a list of pairs says of them.
  abbrev pub Accounts : List Pair → Polled (List (Metric n)) → Type 0
  Accounts ps (ok ys) = Pairwise Gives ps ys
  Accounts ps (err e) = FailsFirst ps e

  Accounts-cons :
      (p : Pair) (ps : List Pair) (a : Polled (Metric n)) (b : Polled (List (Metric n)))
      → value_of p ≡ a
      → Accounts ps b
      → Accounts (p ∷ ps) (a >>= λ x. b >>= λ xs. ok (x ∷ xs))
  Accounts-cons p ps (err e) b h k = record {
    before = [];
    failing = p;
    after = ps;
    split = refl;
    values = [];
    earlier = tt;
    fails = h;
  }
  Accounts-cons p ps (ok x) (ok xs) h k = (h, k)
  Accounts-cons p ps (ok x) (err e) h k = record {
    before = p ∷ k.before;
    failing = k.failing;
    after = k.after;
    split = ap (λ l. p ∷ l) k.split;
    values = x ∷ k.values;
    earlier = (h, k.earlier);
    fails = k.fails;
  }

  each-Accounts : (ps : List Pair) → Accounts ps (each ps)
  each-Accounts [] = tt
  each-Accounts (p ∷ ps) = Accounts-cons p ps (value_of p) (each ps) refl (each-Accounts ps)

  poll_lem :
      (address : Text) (ms : List (PrometheusMetric n.Quantity)) (ss : List Shard)
      → api.connects address ≡ some tt
      → poll n api address ms ss ≡ each (pairs 0 ms ss)
  unfolding poll
  poll_lem address ms ss h = rw h (poll_metrics_lem 0 ms ss)

  pub poll-Accounts :
      (address : Text) (ms : List (PrometheusMetric n.Quantity)) (ss : List Shard)
      → api.connects address ≡ some tt
      → Accounts (pairs 0 ms ss) (poll n api address ms ss)
  poll-Accounts address ms ss h =
      subst (Accounts (pairs 0 ms ss)) (sym (poll_lem address ms ss h))
        (each-Accounts (pairs 0 ms ss))
