-- ===== src/Examples/Shards.antt =====
-- Shards and their partition.
use Prim.Native.String.{String}
use argocd_autoscaler.Base.{
  ℕ, ◌≡◌, refl, List, [], ◌∷◌, Perm, arith, false, ◌≢◌, subst, Bool-cases, inl, inr, zero, suc,
  ◌++◌,
}
use argocd_autoscaler.Text.{Text, text_eq, bytes, decimal, parse_number}
use argocd_autoscaler.Text.Order.{text_eq→eq}
use argocd_autoscaler.Arithmetic.{whole, whole-IsOrdered, whole-IsExact}
use argocd_autoscaler.Sorting.{insertion_sort, insertion_sort-IsSort, IsSort}
use argocd_autoscaler.Api.{Shard, LoadIndex, Replica, ReplicaList}
use argocd_autoscaler.Api.Serialize.{serialize_to_string, assigned, assignments}
use argocd_autoscaler.Api.Serialize.Canonical.{serialize_to_string-canonical}
use argocd_autoscaler.Outcomes.{returned}
use argocd_autoscaler.Partition.{
  heavier, partition, select, place_all, search, in_cluster_first, in_cluster_condition,
  condition_at, sort_shards,
}
use argocd_autoscaler.Partition.Conservation.{shards_of, partition-perm}
use argocd_autoscaler.Partition.Packing.{IsPacked, partition-IsPacked}
use argocd_autoscaler.Partition.Shape.{IsPartition, partition-IsPartition}
use argocd_autoscaler.Partition.Selecting.{Selects, select-Selects}
use argocd_autoscaler.Partition.Total.{IsExplained, partition-IsExplained}
use argocd_autoscaler.Partition.Search.{in_cluster_missed, in_cluster_last_first}

abbrev pub shard : String → Shard
shard s = record {
  uid = bytes s;
  id = bytes s;
  namespace = bytes "argocd";
  name = bytes s;
  server = bytes "https";
}

abbrev pub weighing : String → ℕ → LoadIndex ℕ
weighing s k = record { shard = shard s; value = k; display_value = decimal k }

abbrev pub clusters : List (LoadIndex ℕ)
clusters = weighing "a" 2 ∷ weighing "b" 5 ∷ weighing "in-cluster" 1 ∷ weighing "c" 2 ∷ []

abbrev pub sort : List (LoadIndex ℕ) → List (LoadIndex ℕ)
sort = insertion_sort (heavier whole)

abbrev pub replica : ℕ → List (LoadIndex ℕ) → ℕ → Replica ℕ
replica id ls k = record {
  id = id;
  load_indexes = ls;
  total_load = k;
  total_load_display_value = decimal k;
}

abbrev pub parts : ReplicaList ℕ
parts =
    replica 0 (weighing "in-cluster" 1 ∷ weighing "a" 2 ∷ []) 3
    ∷ replica 1 (weighing "b" 5 ∷ []) 5
    ∷ replica 2 (weighing "c" 2 ∷ []) 2
    ∷ []

pub sort-IsSort : IsSort (heavier whole) sort
sort-IsSort =
    insertion_sort-IsSort (heavier whole)
      record { asymm = λ x y h. ground arith; cotrans = λ x y z h k. ground arith }

clusters-parts : partition whole sort clusters 0 ≡ returned parts
unfolding partition insertion_sort decimal in_cluster_condition sort_shards place_all search text_eq
    parse_number
clusters-parts = refl

partition-perm_example : Perm (shards_of whole parts) clusters
partition-perm_example =
    partition-perm whole sort sort-IsSort whole-IsOrdered clusters 0 clusters-parts

partition-IsPacked_example :
    IsPacked whole whole-IsExact 0 (sort_shards whole sort clusters).1 parts
partition-IsPacked_example =
    partition-IsPacked whole whole-IsExact sort sort-IsSort clusters 0
      (refl, (refl, (refl, (refl, tt)))) clusters-parts

partition-IsPartition_example : IsPartition whole 0 4 parts
partition-IsPartition_example =
    partition-IsPartition whole sort sort-IsSort whole-IsOrdered clusters 0 (omega arith)
      clusters-parts

select-Selects_example :
    Selects whole 0 5 (weighing "d" 1) parts (select whole 0 5 (weighing "d" 1) parts)
select-Selects_example = select-Selects whole 0 5 (weighing "d" 1) whole-IsOrdered parts

partition-IsExplained_example : IsExplained whole (partition whole sort clusters 2)
partition-IsExplained_example = partition-IsExplained whole sort clusters 2

abbrev in_cluster_heaviest : List (LoadIndex ℕ)
in_cluster_heaviest = weighing "in-cluster" 9 ∷ weighing "b" 5 ∷ weighing "a" 2 ∷ []

not_in_cluster : (i : ℕ) → i ≢ 0 → condition_at whole in_cluster_heaviest i ≡ false
unfolding in_cluster_condition text_eq
not_in_cluster zero differs = absurd (differs refl)
not_in_cluster (suc zero) differs = refl
not_in_cluster (suc (suc zero)) differs = refl
not_in_cluster (suc (suc (suc i))) differs = refl

in_cluster_missed_example : in_cluster_first whole in_cluster_heaviest ≡ in_cluster_heaviest
in_cluster_missed_example =
    in_cluster_missed whole in_cluster_heaviest 0 (omega arith) not_in_cluster

abbrev others : List (LoadIndex ℕ)
others = weighing "b" 5 ∷ weighing "a" 2 ∷ []

in_cluster_last_first_example :
    in_cluster_first whole (others ++ weighing "in-cluster" 1 ∷ [])
    ≡ weighing "in-cluster" 1 ∷ others
unfolding in_cluster_condition text_eq
in_cluster_last_first_example =
    in_cluster_last_first whole others (weighing "in-cluster" 1) (refl, (refl, tt)) refl

-- The same assignment in another order, with other loads.
abbrev in_order : ReplicaList ℕ
in_order = replica 0 (weighing "a" 2 ∷ []) 2 ∷ replica 1 (weighing "b" 5 ∷ []) 5 ∷ []

abbrev in_reverse : ReplicaList ℕ
in_reverse = replica 1 (weighing "b" 7 ∷ []) 7 ∷ replica 0 (weighing "a" 3 ∷ []) 3 ∷ []

same_assigned :
    (uid : Text) → assigned uid (assignments in_order) ≡ assigned uid (assignments in_reverse)
unfolding assigned assignments text_eq
same_assigned uid = elim (Bool-cases (text_eq (bytes "a") uid)) [
  | inl e ↦
      subst (λ u. assigned u (assignments in_order) ≡ assigned u (assignments in_reverse))
        (text_eq→eq (bytes "a") uid e) refl
  | inr e ↦ simp e
]

serialize_to_string-canonical_example :
    serialize_to_string in_order ≡ serialize_to_string in_reverse
serialize_to_string-canonical_example =
    serialize_to_string-canonical in_order in_reverse same_assigned
