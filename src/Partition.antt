-- ===== src/Partition.antt =====
-- partitioners/longestprocessingtime: the shards, heaviest first, are put into the least loaded
-- replica that still has room below the load of the heaviest shard.
-- `sort` is `sort.Sort`, of which only what its documentation says is assumed; a `max` that is not
-- positive is 0.
pub mod Search
pub mod Selecting
pub mod Stepping
pub mod Conservation
pub mod Shape
pub mod Packing
pub mod Total
pub mod Reconcile
pub mod Publishing
use argocd_autoscaler.Base.{
  ℕ, zero, suc, ◌+◌, ◌-◌, ◌/◌, ◌%◌, Bool, true, false, ◌&&◌, ◌||◌, Option, none, some, List, [],
  ◌∷◌, ◌++◌, ltb, leb, if◌then◌else◌, length, get_elem?, erase_at,
}
use mathlib.Core.Option
use argocd_autoscaler.Text.{Text, bytes, text_eq, int32_mod}
use argocd_autoscaler.Arithmetic.{Arithmetic}
use argocd_autoscaler.Outcomes.{Outcome, returned, panicked, or_fail, ◌>>=◌}
use argocd_autoscaler.Api.{LoadIndex, Replica, ReplicaList}

abbrev pub in_cluster_shard_name : Text
in_cluster_shard_name = bytes "in-cluster"

-- `sort.Search`: `i` and `j` enclose the answer; the fuel is their distance, which halves.
unfoldable pub search_between : ℕ → ℕ → ℕ → (ℕ → Bool) → ℕ
search_between zero i j f = i
search_between (suc fuel) i j f =
    let h = (i + j) / 2 in
    let right = search_between fuel (h + 1) j f in
    let left = search_between fuel i h f in if ltb i j then (if f h then left else right) else i

unfoldable pub search : ℕ → (ℕ → Bool) → ℕ
unfolding search_between
search n f = search_between n 0 n f

module _ (n : Arithmetic) where
  abbrev pub load : LoadIndex n.Quantity → n.Float
  load l = n.as_float l.value

  abbrev pub total : Replica n.Quantity → n.Float
  total r = n.as_float r.total_load

  -- LoadIndexesDesc.Less
  abbrev pub heavier : LoadIndex n.Quantity → LoadIndex n.Quantity → Bool
  heavier a b = n.lt (load b) (load a)

  unfoldable pub in_cluster_condition : LoadIndex n.Quantity → Bool
  in_cluster_condition l = text_eq l.shard.name in_cluster_shard_name

  abbrev pub condition_at : List (LoadIndex n.Quantity) → ℕ → Bool
  condition_at ls i = elim (get_elem? ls i) [ none ↦ false | some l ↦ in_cluster_condition l ]

  abbrev pub biggest_load : List (LoadIndex n.Quantity) → n.Float
  biggest_load [] = n.of_nat 0
  biggest_load (l ∷ ls) = load l

  abbrev pub in_cluster_index : List (LoadIndex n.Quantity) → ℕ
  in_cluster_index ls = search (length ls) (condition_at ls)

  -- What `Sort` does once the shards are in order. The index is tested against the length, then
  -- the element there against the condition.
  unfoldable pub in_cluster_first : List (LoadIndex n.Quantity) → List (LoadIndex n.Quantity)
  in_cluster_first ls = elim (get_elem? ls (in_cluster_index ls)) [
    | none ↦ ls
    | some l ↦ if in_cluster_condition l then l ∷ erase_at ls (in_cluster_index ls) else ls
  ]

  -- The replica found so far, -1 being `none`, and its load.
  pub record Selection : Type 0 where
    pub index : Option ℕ
    pub min_load : n.Float

  abbrev pub is_unset : Option ℕ → Bool
  is_unset none = true
  is_unset (some i) = false

  abbrev pub is_full : ℕ → Replica n.Quantity → Bool
  is_full max r = ltb 0 max && leb max (length r.load_indexes)

  -- The shard fits into the replica.
  abbrev pub has_room : n.Float → LoadIndex n.Quantity → Replica n.Quantity → Bool
  has_room bucket_size shard r = n.lt (n.add (total r) (load shard)) bucket_size

  -- One round of the inner loop.
  unfoldable pub consider :
      ℕ → n.Float → LoadIndex n.Quantity → ℕ → Replica n.Quantity → Selection → Selection
  consider max bucket_size shard i r s =
      if is_full max r
      then s
      else if is_unset s.index || n.lt (total r) s.min_load
      then (if has_room bucket_size shard r
          then record { index = some i; min_load = total r }
          else s)
      else s

  unfoldable pub select_from :
      ℕ → n.Float → LoadIndex n.Quantity → ℕ → ReplicaList n.Quantity → Selection → Selection
  unfolding consider
  select_from max bucket_size shard i [] s = s
  select_from max bucket_size shard i (r ∷ rs) s =
      select_from max bucket_size shard (suc i) rs (consider max bucket_size shard i r s)

  unfoldable pub select : ℕ → n.Float → LoadIndex n.Quantity → ReplicaList n.Quantity → Option ℕ
  unfolding select_from
  select max bucket_size shard rs =
      (select_from max bucket_size shard 0 rs
        (record { index = none; min_load = n.of_nat 0 })).index

  -- `replicaCount++` and `replicaCount - 1` on int32.
  unfoldable pub new_replica : ℕ → LoadIndex n.Quantity → Replica n.Quantity
  new_replica replica_count shard = record {
    id = ((replica_count + 1) % int32_mod + int32_mod - 1) % int32_mod;
    load_indexes = shard ∷ [];
    total_load = shard.value;
    total_load_display_value = n.format (load shard);
  }

  abbrev with_total :
      Replica n.Quantity → LoadIndex n.Quantity → Text → n.Quantity → Replica n.Quantity
  with_total r shard text q = record r {
    load_indexes = r.load_indexes ++ shard ∷ [];
    total_load = q;
    total_load_display_value = text;
  }

  unfoldable pub extend_replica :
      LoadIndex n.Quantity → Replica n.Quantity → Outcome (Replica n.Quantity)
  extend_replica shard r =
      let text = n.format (n.add (total r) (load shard)) in
      or_fail (n.parse text) >>= λ q. returned (with_total r shard text q)

  -- An index out of range panics.
  unfoldable pub extend_at :
      LoadIndex n.Quantity → ℕ → ReplicaList n.Quantity → Outcome (ReplicaList n.Quantity)
  unfolding extend_replica
  extend_at shard i [] = panicked
  extend_at shard zero (r ∷ rs) = extend_replica shard r >>= λ r'. returned (r' ∷ rs)
  extend_at shard (suc i) (r ∷ rs) = extend_at shard i rs >>= λ rs'. returned (r ∷ rs')

  pub record Progress : Type 0 where
    pub replica_count : ℕ  -- int32
    pub replicas : ReplicaList n.Quantity

  abbrev pub open_replica : LoadIndex n.Quantity → Progress → Progress
  open_replica shard p = record {
    replica_count = (p.replica_count + 1) % int32_mod;
    replicas = p.replicas ++ new_replica p.replica_count shard ∷ [];
  }

  -- One round of the outer loop.
  unfoldable pub place : ℕ → n.Float → LoadIndex n.Quantity → Progress → Outcome Progress
  unfolding select new_replica extend_at
  place max bucket_size shard p = elim (select max bucket_size shard p.replicas) [
    | none ↦ returned (open_replica shard p)
    | some i ↦ extend_at shard i p.replicas >>= λ rs. returned (record p { replicas = rs })
  ]

  unfoldable pub place_all : ℕ → n.Float → List (LoadIndex n.Quantity) → Progress → Outcome Progress
  unfolding place
  place_all max bucket_size [] p = returned p
  place_all max bucket_size (s ∷ ss) p =
      place max bucket_size s p >>= λ p'. place_all max bucket_size ss p'

  abbrev pub no_replicas : Progress
  no_replicas = record { replica_count = 0; replicas = [] }

  module _ (sort : List (LoadIndex n.Quantity) → List (LoadIndex n.Quantity)) where
    -- PartitionerImpl.Sort: the order of the shards, and the load of the heaviest.
    unfoldable pub sort_shards : List (LoadIndex n.Quantity) → List (LoadIndex n.Quantity) × n.Float
    unfolding in_cluster_first
    sort_shards [] = ([], n.of_nat 0)
    sort_shards (l ∷ ls) =
        let sorted = sort (l ∷ ls) in (in_cluster_first sorted, biggest_load sorted)

    -- PartitionerImpl.Partition
    unfoldable pub partition : List (LoadIndex n.Quantity) → ℕ → Outcome (ReplicaList n.Quantity)
    unfolding sort_shards place_all
    partition [] max = returned []
    partition (l ∷ ls) max =
        let (sorted, bucket_size) = sort_shards (l ∷ ls) in
        place_all max bucket_size sorted no_replicas >>= λ p. returned p.replicas
