-- ===== src/Examples/Polls.antt =====
-- A poll of two metrics of two shards. The n-th query gives n + 1, and one of a metric without data
-- gives nothing.
use Prim.Native.String.{String}
use argocd_autoscaler.Base.{
  ℕ, suc, ◌≡◌, refl, false, Option, none, some, List, [], ◌∷◌, ◌++◌, All, arith, ◌⊎◌,
}
use argocd_autoscaler.Text.{Text, text_eq, bytes, decimal, parse_number}
use argocd_autoscaler.Arithmetic.{whole}
use argocd_autoscaler.Api.{Shard}
use argocd_autoscaler.Controller.{last_condition, ready, Error, requeue_after, stop}
use argocd_autoscaler.Controller as Controller
use argocd_autoscaler.LoadIndexing.{Metric}
use argocd_autoscaler.LoadIndexing.Reconcile.{found}
use argocd_autoscaler.Polling.{PrometheusMetric, PollError, Prometheus, vector, ok, poll}
use argocd_autoscaler.Polling.Pairs.{pairs}
use argocd_autoscaler.Polling.Causes.{IsOutcome, poll-IsOutcome}
use argocd_autoscaler.Polling.Reconcile.{
  PrometheusPoll, ShardsProvider, Call, has_duplicate, poll_now, with_condition, reconcile,
}
use argocd_autoscaler.Polling.Waiting.{IsCurrent, reconcile_waits}
use argocd_autoscaler.Polling.Publishing.{IsPolling, reconcile-IsPolling}
use argocd_autoscaler.Examples.Shards.{shard}

abbrev pub counting : Prometheus ℕ
counting = record {
  Template = Text;
  connects = λ address. some tt;
  parse_template = λ name text. some text;
  execute = λ template s. some (template ++ s.uid);
  answer = λ k query. vector (suc k ∷ []);
}

abbrev asked : String → PrometheusMetric ℕ
asked id = record { id = bytes id; query = bytes "sum "; no_data = none }

abbrev pub shards : List Shard
shards = shard "a" ∷ shard "b" ∷ []

abbrev pub unpolled : PrometheusPoll whole last_condition
unpolled = record {
  spec = record { period = 60; address = bytes "http"; metrics = asked "cpu" ∷ asked "apps" ∷ [] };
  status = record { conditions = none; values = []; last_polling_time = none };
}

abbrev manager : ShardsProvider whole last_condition
manager = record { conditions = some ready; shards = shards }

abbrev pub value_of_shard : String → String → ℕ → String → Metric whole
value_of_shard id s k text = record {
  id = bytes id;
  shard = shard s;
  query = bytes "sum " ++ bytes s;
  value = k;
  display_value = bytes text;
}

abbrev pub values : List (Metric whole)
values =
    value_of_shard "cpu" "a" 1 "1"
    ∷ value_of_shard "cpu" "b" 2 "2"
    ∷ value_of_shard "apps" "a" 3 "3"
    ∷ value_of_shard "apps" "b" 4 "4"
    ∷ []

abbrev answers : Call whole last_condition → Option Error
answers c = none

abbrev message : PollError → Error
message e = "poll"

pub poll-values : poll whole counting (bytes "http") unpolled.spec.metrics shards ≡ ok values
unfolding poll decimal parse_number
poll-values = refl

distinct_ids : has_duplicate whole last_condition unpolled.spec.metrics [] ≡ false
unfolding has_duplicate text_eq
distinct_ids = refl

poll-IsOutcome_example :
    IsOutcome whole counting
      (pairs whole counting 0 unpolled.spec.metrics shards)
      (poll whole counting (bytes "http") unpolled.spec.metrics shards)
poll-IsOutcome_example =
    poll-IsOutcome whole counting (bytes "http") unpolled.spec.metrics shards refl

abbrev polled : PrometheusPoll whole last_condition
polled = with_condition whole last_condition ready (record unpolled {
  status = record (unpolled.status) { values = values; last_polling_time = some 100 };
})

reconcile_waits_example :
    (IsCurrent whole last_condition polled shards
      × (reconcile whole last_condition counting message 130 131 answers
            (found polled)
            (Controller.ok manager)
          ≡ stop (requeue_after 30)))
    ⊎ ((¬ IsCurrent whole last_condition polled shards)
        × (reconcile whole last_condition counting message 130 131 answers
              (found polled)
              (Controller.ok manager)
            ≡ poll_now whole last_condition counting message 130 131 answers polled shards))
reconcile_waits_example =
    reconcile_waits whole last_condition counting message 130 131 answers polled manager 100
      distinct_ids refl refl (omega arith)

reconcile-IsPolling_example :
    All
      (IsPolling whole last_condition counting 101 manager unpolled)
      (reconcile whole last_condition counting message 100 101 answers
        (found unpolled)
        (Controller.ok manager)).calls
reconcile-IsPolling_example =
    reconcile-IsPolling whole last_condition counting message 100 101 answers
      (record { find-set = λ cs c. refl }) manager unpolled refl
