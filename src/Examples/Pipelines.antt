-- ===== src/Examples/Pipelines.antt =====
-- The poll of two metrics of two shards, taken through the other stages.
use Prim.Native.String.{String}
use argocd_autoscaler.Base.{ℕ, ◌≡◌, refl, some, List, [], ◌∷◌, length, map, ◌&&◌, ltb}
use mathlib.Core.List.Permᴰ
use argocd_autoscaler.Text.{Text, text_eq, bytes, decimal, parse_number}
use argocd_autoscaler.Arithmetic.{whole, whole-IsOrdered}
use argocd_autoscaler.Sorting.{insertion_sort}
use argocd_autoscaler.Api.{LoadIndex, Replica, ReplicaList}
use argocd_autoscaler.ShardManager.{replica_of, is_known, index_replicas}
use argocd_autoscaler.Maps.{alter}
use argocd_autoscaler.Grouping.{select_by}
use argocd_autoscaler.Grouping.Rearranging.{bit}
use argocd_autoscaler.Polling.Uids.{filled}
use argocd_autoscaler.Text.Sorted.{has}
use argocd_autoscaler.LoadIndexing.{Metric, calculate}
use argocd_autoscaler.Outcomes.{returned}
use argocd_autoscaler.Normalizing.{normalize}
use argocd_autoscaler.Partition.{partition, in_cluster_condition, sort_shards, place_all, search}
use argocd_autoscaler.Partition.Conservation.{shards_of}
use argocd_autoscaler.Pipeline.{placed_once}
use argocd_autoscaler.Examples.Loads.{walk, weights}
use argocd_autoscaler.Examples.Shards.{sort, sort-IsSort, weighing, replica}
use argocd_autoscaler.Examples.Polls.{
  value_of_shard, counting, shards, unpolled, values, poll-values,
}

abbrev come_to : Metric whole → ℕ → String → Metric whole
come_to x k text = record x { value = k; display_value = bytes text }

abbrev normals : List (Metric whole)
normals =
    come_to (value_of_shard "cpu" "a" 0 "0") 3 "0"
    ∷ come_to (value_of_shard "cpu" "b" 0 "0") 4 "1"
    ∷ come_to (value_of_shard "apps" "a" 0 "0") 3 "0"
    ∷ come_to (value_of_shard "apps" "b" 0 "0") 4 "1"
    ∷ []

abbrev indexes : List (LoadIndex ℕ)
indexes = weighing "a" 12 ∷ weighing "b" 16 ∷ []

abbrev replicas : ReplicaList ℕ
replicas = replica 0 (weighing "b" 16 ∷ []) 16 ∷ replica 1 (weighing "a" 12 ∷ []) 12 ∷ []

values-normals : normalize whole (insertion_sort ltb) walk (some 3) values ≡ returned normals
unfolding normalize text_eq decimal parse_number alter insertion_sort
values-normals = refl

normals-indexes : calculate whole walk 1 weights normals ≡ some indexes
unfolding calculate text_eq decimal parse_number alter
normals-indexes = refl

indexes-replicas : partition whole sort indexes 0 ≡ returned replicas
unfolding partition insertion_sort decimal in_cluster_condition sort_shards place_all search text_eq
    parse_number
indexes-replicas = refl

placed_once_example :
    ((uid : Text)
      → length (select_by (λ l. l.shard.uid) uid (shards_of whole replicas))
        ≡ bit (filled unpolled.spec.metrics && has uid (map (λ s. s.uid) shards)))
    × (known : List (Text × Replica ℕ)) × (index_replicas replicas [] ≡ some known)
    × ((uid : Text)
        → is_known (replica_of uid known)
          ≡ filled unpolled.spec.metrics && has uid (map (λ s. s.uid) shards))
placed_once_example =
    placed_once whole counting (insertion_sort ltb) walk (λ es. Permᴰ.refl es) walk
      (λ es. Permᴰ.refl es) sort sort-IsSort whole-IsOrdered (bytes "http") unpolled.spec.metrics
      shards (some 3) 1 weights 0 values normals indexes replicas refl poll-values values-normals
      normals-indexes indexes-replicas
