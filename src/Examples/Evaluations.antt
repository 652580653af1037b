-- ===== src/Examples/Evaluations.antt =====
-- The evaluation of a partition, and the rate limit.
use Prim.Native.String.{String}
use argocd_autoscaler.Base.{
  ℕ, ◌≤◌, ◌<◌, ◌+◌, ◌≡◌, refl, Option, none, some, List, [], ◌∷◌, All, arith, ◌-◌,
}
use mathlib.Core.List.Permᴰ
use argocd_autoscaler.Text.{Text, bytes, text_eq}
use argocd_autoscaler.Arithmetic.{whole}
use argocd_autoscaler.Controller.{
  Condition, last_condition, ok, not_ready, ready, Error, requeue_after, global_rate_limit,
}
use argocd_autoscaler.Controller.RateLimit.{
  LastReconciled, Readings, admitted, limited, admit, passes, store_time, admit_spaces,
}
use argocd_autoscaler.Evaluation.{
  HistoricalRecord, Tally, top_seen, tally_from, history_retention_period,
}
use argocd_autoscaler.Evaluation.Reconcile.{
  Clock, Call, Evaluation', PartitionProvider, found, reconcile, update_status, with_condition,
}
use argocd_autoscaler.Evaluation.History.{OneEach, has_hash, observe-OneEach}
use argocd_autoscaler.Evaluation.Reconcile.{observe, project, elect}
use argocd_autoscaler.Evaluation.Winner.{MostSeen, top_seen-MostSeen}
use argocd_autoscaler.Evaluation.Hysteresis.{IsAllowed, reconcile-IsAllowed}
use argocd_autoscaler.Evaluation.Retention.{never_elects}
use argocd_autoscaler.Examples.Shards.{parts}

abbrev seen : String → ℕ → ℕ → HistoricalRecord
seen h t k = record { timestamp = t; replicas_hash = bytes h; seen_times = k }

abbrev history : List HistoricalRecord
history = seen "x" 5 2 ∷ seen "y" 6 3 ∷ seen "z" 7 3 ∷ []

abbrev walk : List Tally → List Tally
walk ts = ts

-- Not sha256, but one that has no empty hash.
abbrev hash : Text → Text
hash s = b'#' ∷ s

abbrev clock : Clock
clock = record { seen = 8; trimmed = λ i. 8 + i; compared = 20; elected = 21; renewed = 22 }

abbrev evaluation : ℕ → Evaluation' whole last_condition
evaluation period = record {
  spec = record {
    stabilization_period = period;
    scale_up_stabilization_period = none;
    scale_down_stabilization_period = none;
  };
  status = record {
    conditions = none;
    replicas = [];
    history = history;
    last_evaluation_timestamp = some 2;
    projection = [];
  };
}

abbrev provider : PartitionProvider ℕ (Option Condition)
provider = record { conditions = some ready; replicas = parts }

abbrev accepts : Call whole last_condition → Option Error
accepts c = none

history-OneEach : OneEach history
unfolding has_hash text_eq
history-OneEach = (refl, (refl, (refl, tt)))

abbrev noted : Evaluation' whole last_condition
noted =
    project whole last_condition hash walk clock parts
      (observe whole last_condition hash walk clock parts (evaluation 10))

observe-OneEach_example :
    OneEach noted.status.history
    × OneEach (elect whole last_condition hash walk clock noted).status.history
observe-OneEach_example =
    observe-OneEach whole last_condition hash walk clock parts (evaluation 10) history-OneEach

top_seen-MostSeen_example : MostSeen history (top_seen (walk (tally_from history [])))
top_seen-MostSeen_example =
    top_seen-MostSeen walk (λ ts. Permᴰ.refl ts) history (λ e. ground (arith, e)) history-OneEach
      ((omega arith, omega arith), ((omega arith, omega arith), ((omega arith, omega arith), tt)))

reconcile-IsAllowed_example :
    All
      (IsAllowed whole last_condition hash walk clock (evaluation 10))
      (reconcile whole last_condition hash walk clock accepts
        (found (evaluation 10))
        (ok provider)).calls
reconcile-IsAllowed_example =
    reconcile-IsAllowed whole last_condition hash walk clock (evaluation 10) accepts (ok provider)

never_elects_example :
    (reconcile whole last_condition hash walk clock accepts
      (found (evaluation 0))
      (ok provider)).calls
    ≡ update_status (
        with_condition whole last_condition
          (not_ready "AwaitingNewProjection")
          (record (evaluation 0) { status = record ((evaluation 0).status) { history = [] } }))
      ∷ []
unfolding history_retention_period
never_elects_example =
    never_elects whole last_condition hash walk clock accepts (evaluation 0) provider
      (λ ts. Permᴰ.refl ts) (λ s e. ground (arith, e)) refl (λ i. omega arith)
      (omega arith, (omega arith, (omega arith, tt))) refl

abbrev readings : ℕ → Readings
readings t = record { tested = t; requeued = t + 1; stored = t + 2 }

abbrev after_first : LastReconciled
after_first = store_time (bytes "a") 12 []

abbrev between : List (Text × Readings)
between = (bytes "b", readings 50) ∷ []

admit_spaces_example :
    (100 < 12 + global_rate_limit
      → admit (bytes "a") (readings 100) (passes between after_first)
        ≡ limited (requeue_after (12 + global_rate_limit - 101)))
    × (12 + global_rate_limit ≤ 100
        → admit (bytes "a") (readings 100) (passes between after_first)
          ≡ admitted (store_time (bytes "a") 102 (passes between after_first)))
unfolding admit text_eq
admit_spaces_example =
    admit_spaces (bytes "a") (readings 10) (readings 100) between [] after_first refl (refl, tt)
