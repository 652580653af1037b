-- ===== src/LoadIndexing.antt =====
-- The weighted p-norm load index: loadindexers/weightedpnorm. A Go map is an association list with
-- one entry for each key; the order in which a map is walked is a parameter.

pub mod Groups
pub mod Indexes
pub mod Reconcile
pub mod Publishing
use argocd_autoscaler.Base.{
  ℕ, zero, suc, Bool, true, false, ◌&&◌, Option, none, some, List, [], ◌∷◌, ◌++◌, if◌then◌else◌,
  length, ◌==◌,
}
use argocd_autoscaler.Text.{Text, text_eq}
use argocd_autoscaler.Arithmetic.{Arithmetic}
use argocd_autoscaler.Api.{Shard, MetricValue, LoadIndex}
use argocd_autoscaler.Maps.{find_key, alter}
use argocd_autoscaler.Grouping.{appended, kept}

pub record Weight (Q : Type 0) : Type 0 where
  pub id : Text
  pub weight : Q

module _ {A : Type 0} where
  abbrev pub is_single : Option (List A) → Bool
  is_single none = false
  is_single (some xs) = length xs == 1

abbrev pub zero_shard : Shard
zero_shard = record { uid = []; id = []; namespace = []; name = []; server = [] }

abbrev pub shard_or_zero : Option Shard → Shard
shard_or_zero none = zero_shard
shard_or_zero (some s) = s

module _ (n : Arithmetic) where
  abbrev pub Metric : Type 0
  Metric = MetricValue n.Quantity

  abbrev pub ById : Type 0
  ById = List (Text × List Metric)

  pub record Grouped : Type 0 where
    pub metrics_by_shard_by_id : List (Text × ById)
    pub metrics_by_shard : List (Text × List Metric)
    pub shards_by_uid : List (Text × Shard)

  abbrev pub noted : Metric → Option ById → ById
  noted x none = alter x.id (appended x) []
  noted x (some g) = alter x.id (appended x) g

  -- Lines 45 to 58.
  unfoldable pub group : Metric → Grouped → Grouped
  group x g = record {
    metrics_by_shard_by_id = alter x.shard.uid (noted x) g.metrics_by_shard_by_id;
    metrics_by_shard = alter x.shard.uid (appended x) g.metrics_by_shard;
    shards_by_uid = alter x.shard.uid (kept x.shard) g.shards_by_uid;
  }

  -- Lines 44 to 59.
  unfoldable pub group_all : List Metric → Grouped → Grouped
  group_all [] g = g
  group_all (x ∷ xs) g = group_all xs (group x g)

  abbrev pub nothing_grouped : Grouped
  nothing_grouped = record {
    metrics_by_shard_by_id = [];
    metrics_by_shard = [];
    shards_by_uid = [];
  }

  abbrev pub Weights : Type 0
  Weights = List (Text × Weight n.Quantity)

  -- Lines 61 to 65, and 60 to 66.
  unfoldable pub has_each : ById → Weights → Bool
  unfolding find_key
  has_each g [] = true
  has_each g ((id, w) ∷ ws) = is_single (find_key id g) && has_each g ws

  unfoldable pub all_have_each : List (Text × ById) → Weights → Bool
  unfolding has_each
  all_have_each [] ws = true
  all_have_each ((uid, g) ∷ gs) ws = has_each g ws && all_have_each gs ws

  -- LoadIndexerImpl.loadIndex; `p` is float64(p).
  abbrev add_term : n.Float → Option (Weight n.Quantity) → Metric → n.Float → n.Float
  add_term p none x sum = sum
  add_term p (some w) x sum = n.add sum (n.mul (n.as_float w.weight) (n.pow (n.as_float x.value) p))

  unfoldable pub sum_terms : n.Float → Weights → List Metric → n.Float → n.Float
  unfolding find_key
  sum_terms p ws [] sum = sum
  sum_terms p ws (x ∷ xs) sum = sum_terms p ws xs (add_term p (find_key x.id ws) x sum)

  unfoldable pub load_index : n.Float → Weights → List Metric → n.Float
  unfolding sum_terms
  load_index p ws xs = n.pow (sum_terms p ws xs (n.of_nat 0)) (n.div (n.of_nat 1) p)

  -- Lines 70 to 84; `none` is the error of ParseQuantity.
  abbrev pub indexed : Shard → Text → Option n.Quantity → Option (LoadIndex n.Quantity)
  indexed s text none = none
  indexed s text (some q) = some (record { shard = s; value = q; display_value = text })

  unfoldable pub index_one :
      n.Float → Weights → List (Text × Shard) → Text → List Metric → Option (LoadIndex n.Quantity)
  unfolding load_index find_key
  index_one p ws shards uid xs =
      let text = n.format (load_index p ws xs) in
      indexed (shard_or_zero (find_key uid shards)) text (n.parse text)

  abbrev and_index :
      Option (LoadIndex n.Quantity)
      → Option (List (LoadIndex n.Quantity))
      → Option (List (LoadIndex n.Quantity))
  and_index none ls = none
  and_index (some l) none = none
  and_index (some l) (some ls) = some (l ∷ ls)

  -- Lines 68 to 87.
  unfoldable pub index_all :
      n.Float
      → Weights
      → List (Text × Shard)
      → List (Text × List Metric)
      → Option (List (LoadIndex n.Quantity))
  unfolding index_one
  index_all p ws shards [] = some []
  index_all p ws shards ((uid, xs) ∷ es) =
      and_index (index_one p ws shards uid xs) (index_all p ws shards es)

  -- LoadIndexerImpl.Calculate; `order` is the order in which metricsByShard is walked.
  module _ (order : List (Text × List Metric) → List (Text × List Metric)) where
    unfoldable pub calculate :
        n.Float → Weights → List Metric → Option (List (LoadIndex n.Quantity))
    unfolding group_all group all_have_each index_all
    calculate p ws values =
        let g = group_all values nothing_grouped in
        if all_have_each g.metrics_by_shard_by_id ws
        then index_all p ws g.shards_by_uid (order g.metrics_by_shard)
        else none
