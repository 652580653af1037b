-- ===== src/Polling.antt =====
-- The Prometheus poller: pollers/prometheus, with PrometheusMetric of
-- api/autoscaler/v1alpha1/prometheuspoll_types.go. The client of Prometheus, text/template and sprig
-- are a record that the definitions take as a parameter.
pub mod Pairs
pub mod Causes
pub mod Reconcile
pub mod Waiting
pub mod Publishing
pub mod Uids
use argocd_autoscaler.Base.{ℕ, zero, suc, ◌+◌, Option, none, some, List, [], ◌∷◌, ◌++◌, length}
use argocd_autoscaler.Text.{Text}
use argocd_autoscaler.Arithmetic.{Arithmetic}
use argocd_autoscaler.Api.{Shard, MetricValue}
use argocd_autoscaler.LoadIndexing.{Metric}

pub record PrometheusMetric (Q : Type 0) : Type 0 where
  pub id : Text
  pub query : Text
  pub no_data : Option Q

-- The errors that Poll returns; the texts that go with them are left out.
pub data PollError : Type 0 where
  no_client : PollError
  malformed_template : PollError
  template_failed : PollError
  query_failed : Text → PollError
  unexpected_type : Text → PollError
  had_no_data : Text → PollError
  not_one_sample : ℕ → Text → PollError
  malformed_value : PollError

pub data Polled (A : Type 0) : Type 0 where
  ok : A → Polled A
  err : PollError → Polled A

infixl 5 ◌>>=◌
abbrev pub ◌>>=◌ : {A B : Type 0} → Polled A → (A → Polled B) → Polled B
ok x >>= f = f x
err e >>= f = err e

abbrev pub or_error : {A : Type 0} → PollError → Option A → Polled A
or_error e none = err e
or_error e (some x) = ok x

-- What Query answers: an error, a result that is no vector, or the values of a vector's samples.
pub data Answer (Float : Type 0) : Type 0 where
  failure : Answer Float
  other : Answer Float
  vector : List Float → Answer Float

pub record Prometheus (Float : Type 0) : Type 1 where
  pub Template : Type 0
  pub connects : Text → Option (Unit {0})  -- api.NewClient at an address; `none` is its error
  pub parse_template : Text → Text → Option Template  -- of the name of a template, and its text
  pub execute : Template → Shard → Option Text  -- with the map of the shard's fields
  pub answer : ℕ → Text → Answer Float  -- to a query, which is the n-th of this poll

module _ (n : Arithmetic) (api : Prometheus n.Float) where
  -- Lines 88 to 119.
  abbrev pub sample_value : PrometheusMetric n.Quantity → Text → Answer n.Float → Polled n.Float
  sample_value m query failure = err (query_failed query)
  sample_value m query other = err (unexpected_type query)
  sample_value m query (vector []) =
      or_error (had_no_data query) m.no_data >>= λ q. ok (n.as_float q)
  sample_value m query (vector (x ∷ [])) = ok x
  sample_value m query (vector (x ∷ y ∷ xs)) = err (not_one_sample (suc (suc (length xs))) query)

  -- Lines 121 to 134.
  abbrev pub metric_value : PrometheusMetric n.Quantity → Shard → Text → n.Float → Polled (Metric n)
  metric_value m s query x = or_error malformed_value (n.parse (n.format x)) >>= λ q.
      ok (record { id = m.id; shard = s; query = query; value = q; display_value = n.format x })

  -- The body of the loops, lines 65 to 134.
  unfoldable pub poll_one : ℕ → PrometheusMetric n.Quantity → Shard → Polled (Metric n)
  poll_one k m s = do
    template ← or_error malformed_template (api.parse_template m.id m.query)
    query ← or_error template_failed (api.execute template s)
    x ← sample_value m query (api.answer k query)
    metric_value m s query x

  -- Lines 64 to 135; the number is that of the next query.
  unfoldable pub poll_shards :
      ℕ → PrometheusMetric n.Quantity → List Shard → Polled (List (Metric n))
  unfolding poll_one
  poll_shards k m [] = ok []
  poll_shards k m (s ∷ ss) = poll_one k m s >>= λ x. poll_shards (suc k) m ss >>= λ xs. ok (x ∷ xs)

  -- Lines 62 to 138.
  unfoldable pub poll_metrics :
      ℕ → List (PrometheusMetric n.Quantity) → List Shard → Polled (List (Metric n))
  unfolding poll_shards
  poll_metrics k [] ss = ok []
  poll_metrics k (m ∷ ms) ss =
      poll_shards k m ss >>= λ xs. poll_metrics (k + length ss) ms ss >>= λ ys. ok (xs ++ ys)

  -- PollerImpl.Poll
  unfoldable pub poll :
      Text → List (PrometheusMetric n.Quantity) → List Shard → Polled (List (Metric n))
  unfolding poll_metrics
  poll address ms ss = or_error no_client (api.connects address) >>= λ c. poll_metrics 0 ms ss
