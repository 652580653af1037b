-- ===== src/Pipeline.antt =====
-- The stages one after another: Poll of pollers/prometheus, Normalize of normalizers/robustscaling,
-- Calculate of loadindexers/weightedpnorm, Partition of partitioners/longestprocessingtime, and the
-- loop of the shard manager over the replicas of its spec.
use argocd_autoscaler.Base.{
  ℕ, ◌≡◌, refl, ap, sym, subst, ◌∙◌, ◌&&◌, Option, none, some, List, [], ◌∷◌, ◌++◌, map, Pairwise,
  length,
}
use mathlib.Core.Path.{ap₂}
use mathlib.Core.List.{Permᴰ, map-append, append-nil}
use mathlib.Core.List.Perm
use argocd_autoscaler.Text.{Text}
use argocd_autoscaler.Text.Sorted.{has}
use argocd_autoscaler.Arithmetic.{Arithmetic, IsOrdered}
use argocd_autoscaler.Sorting.{IsSort}
use argocd_autoscaler.Api.{Shard, LoadIndex, Replica, ReplicaList}
use argocd_autoscaler.Grouping.{select_by}
use argocd_autoscaler.Grouping.Rearranging.{
  all_groups, group_by-perm, all_groups-Permᴰ, bit, has_key-perm, count-perm, present-select_by,
}
use argocd_autoscaler.LoadIndexing.{Metric, ById, Weights, calculate}
use argocd_autoscaler.LoadIndexing.Indexes.{calculate-Indexes}
use argocd_autoscaler.Outcomes.{returned}
use argocd_autoscaler.Normalizing.{
  compute_median, compute_iqr, sorted_values, normalize_group, normalize_groups, group_by_id, shift,
  normalize,
}
use argocd_autoscaler.Outcomes.{>>=-eq_returned, returned_inj}
use argocd_autoscaler.Normalizing.Order.{IsScaled, scale_all-IsScaled}
use argocd_autoscaler.Normalizing.Offset.{IsShifted, shift_all-IsShifted}
use argocd_autoscaler.Polling.{PrometheusMetric, Prometheus, ok, poll}
use argocd_autoscaler.Polling.Pairs.{pairs, Accounts, poll-Accounts}
use argocd_autoscaler.Polling.Uids.{filled, uids_lem, pairs_uids}
use argocd_autoscaler.ShardManager.{replica_of, is_known, index_replicas}
use argocd_autoscaler.ShardManager.Indexing.{index_replicas-known}
use argocd_autoscaler.Partition.{heavier, partition}
use argocd_autoscaler.Partition.Conservation.{shards_of, partition-perm}

module _ (n : Arithmetic) where
  abbrev uid_of : Metric n → Text
  uid_of x = x.shard.uid

  abbrev uids : List (Metric n) → List Text
  uids xs = map uid_of xs

  -- Lists with the same shards at the same places.
  scaled_uids :
      (median iqr : n.Float) (xs ys : List (Metric n))
      → Pairwise (IsScaled n median iqr) xs ys
      → uids ys ≡ uids xs
  scaled_uids median iqr [] [] h = refl
  scaled_uids median iqr [] (y ∷ ys) h = absurd h
  scaled_uids median iqr (x ∷ xs) [] h = absurd h
  scaled_uids median iqr (x ∷ xs) (y ∷ ys) h =
      ap₂ ◌∷◌ (ap (λ s. s.uid) h.0.same_shard) (scaled_uids median iqr xs ys h.1)

  shifted_uids :
      (offset : n.Float) (xs ys : List (Metric n))
      → Pairwise (IsShifted n offset) xs ys
      → uids ys ≡ uids xs
  shifted_uids offset [] [] h = refl
  shifted_uids offset [] (y ∷ ys) h = absurd h
  shifted_uids offset (x ∷ xs) [] h = absurd h
  shifted_uids offset (x ∷ xs) (y ∷ ys) h =
      ap₂ ◌∷◌ (ap (λ s. s.uid) h.0.same_shard) (shifted_uids offset xs ys h.1)

  shift-uids :
      (e : Option n.Float) (zs ys : List (Metric n))
      → shift n e zs ≡ returned ys
      → uids ys ≡ uids zs
  unfolding shift
  shift-uids none zs ys h = ap uids (sym (returned_inj h))
  shift-uids (some e) zs ys h = shifted_uids _ zs ys (shift_all-IsShifted n _ zs ys h)

  module _ (sort : List n.Float → List n.Float) where
    normalize_group-uids :
        (xs ys : List (Metric n)) → normalize_group n sort xs ≡ returned ys → uids ys ≡ uids xs
    unfolding normalize_group
    normalize_group-uids xs ys h =
        let (median, m, h') = >>=-eq_returned (compute_median n (sorted_values n sort xs)) _ h in
        let (iqr, i, h'') = >>=-eq_returned (compute_iqr n (sorted_values n sort xs)) _ h' in
        scaled_uids median iqr xs ys (scale_all-IsScaled n median iqr xs ys h'')

    normalize_groups-uids :
        (es : ById n) (ys : List (Metric n))
        → normalize_groups n sort es ≡ returned ys
        → uids ys ≡ uids (all_groups es)
    unfolding normalize_groups
    normalize_groups-uids [] ys h = ap uids (sym (returned_inj h))
    normalize_groups-uids ((id, xs) ∷ es) ys h =
        let (us, first, h') = >>=-eq_returned (normalize_group n sort xs) _ h in
        let (vs, rest, same) = >>=-eq_returned (normalize_groups n sort es) _ h' in
        ap uids (sym (returned_inj same))
        ∙ map-append uid_of us vs
        ∙ ap₂ ◌++◌ (normalize_group-uids xs us first) (normalize_groups-uids es vs rest)
        ∙ sym (map-append uid_of xs (all_groups es))

    -- Normalize keeps the shards.
    normalize-uids :
        (order : ById n → ById n)
        → ((es : ById n) → Permᴰ (order es) es)
        → (e : Option n.Float) (xs ys : List (Metric n)) → normalize n sort order e xs ≡ returned ys
        → (uid : Text) → has uid (uids ys) ≡ has uid (uids xs)
    unfolding normalize
    normalize-uids order rearranges e xs ys h uid =
        let groups = group_by_id n xs in
        let (zs, normalized, shifted) =
          >>=-eq_returned (normalize_groups n sort (order groups)) (shift n e) h in
        let walked =
          Perm.trans (all_groups-Permᴰ (rearranges groups)) (group_by-perm (λ x. x.id) xs []) in
        ap (has uid) (shift-uids e zs ys shifted)
        ∙ ap (has uid) (normalize_groups-uids (order groups) zs normalized)
        ∙ has_key-perm uid_of uid walked
        ∙ ap (λ l. has uid (uids l)) (append-nil xs)

  module _ (api : Prometheus n.Float) (sort : List n.Float → List n.Float) (order : ById n → ById n)
      (rearranges : (es : ById n) → Permᴰ (order es) es)
      (walk : List (Text × List (Metric n)) → List (Text × List (Metric n)))
      (walks : (es : List (Text × List (Metric n))) → Permᴰ (walk es) es)
      (sort_shards : List (LoadIndex n.Quantity) → List (LoadIndex n.Quantity)) where
    polled_uids :
        (address : Text) (ms : List (PrometheusMetric n.Quantity)) (ss : List Shard)
        (xs : List (Metric n))
        → api.connects address ≡ some tt
        → poll n api address ms ss ≡ ok xs
        → (uid : Text) → has uid (uids xs) ≡ filled ms && has uid (map (λ s. s.uid) ss)
    polled_uids address ms ss xs c e uid =
        ap (has uid) (
          uids_lem n api (pairs n api 0 ms ss) xs
            (subst (Accounts n api (pairs n api 0 ms ss)) e (poll-Accounts n api address ms ss c)))
        ∙ pairs_uids n api 0 ms ss uid

    -- Where `sort.Sort` sorts, `<` on loads is an order and there is a client for the address: if the
    -- shards of the shard manager are polled, and the metrics are normalized, with or without an
    -- offset, made into load indexes and partitioned, each stage with what the one before it returned,
    -- then the replicas hold exactly one load index for each UID of the shards that were polled, if
    -- there is a metric, and none for any other UID, whatever the order in which the maps are walked,
    -- the weights and the limit of shards for a replica. A shard manager with these replicas in its
    -- spec does not refuse them for a shard that is there twice, and it knows a replica for exactly
    -- the same UIDs.
    pub placed_once :
        IsSort (heavier n) sort_shards
        → IsOrdered n
        → (address : Text) (ms : List (PrometheusMetric n.Quantity)) (ss : List Shard)
          (e : Option n.Float) (p : n.Float) (ws : Weights n) (max : ℕ) (xs ys : List (Metric n))
          (ls : List (LoadIndex n.Quantity)) (rs : ReplicaList n.Quantity)
        → api.connects address ≡ some tt
        → poll n api address ms ss ≡ ok xs
        → normalize n sort order e xs ≡ returned ys
        → calculate n walk p ws ys ≡ some ls
        → partition n sort_shards ls max ≡ returned rs
        → ((uid : Text)
            → length (select_by (λ l. l.shard.uid) uid (shards_of n rs))
              ≡ bit (filled ms && has uid (map (λ s. s.uid) ss)))
          × (known : List (Text × Replica n.Quantity)) × (index_replicas rs [] ≡ some known)
          × ((uid : Text)
              → is_known (replica_of uid known) ≡ filled ms && has uid (map (λ s. s.uid) ss))
    placed_once sorting laws address ms ss e p ws max xs ys ls rs c polled normalized indexed
          parted =
        let once : (uid : Text)
            → length (select_by (λ l. l.shard.uid) uid (shards_of n rs))
              ≡ bit (filled ms && has uid (map (λ s. s.uid) ss)) =
          λ uid.
            count-perm (λ l. l.shard.uid) uid
              (partition-perm n sort_shards sorting laws ls max parted)
            ∙ (calculate-Indexes n p ws ys walk walks indexed).1 uid
            ∙ present-select_by uid_of uid ys
            ∙ ap bit (
                normalize-uids sort order rearranges e xs ys normalized uid
                ∙ polled_uids address ms ss xs c polled uid) in
        let (known, taken, knows) =
          index_replicas-known n rs (λ uid. filled ms && has uid (map (λ s. s.uid) ss)) once in
        (once, known, taken, knows)
