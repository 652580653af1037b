-- ===== src/Partition/Packing.antt =====
-- How well the loads are spread, where sums of loads are exact.
use argocd_autoscaler.Base.{
  ℕ, ◌≡◌, true, false, List, [], ◌∷◌, ◌++◌, ◌⊎◌, inl, inr, All, All-append, All-map, All-perm,
  arith,
}
use mathlib.Core.Bool.{Bool-set}
use mathlib.Core.List.Perm
use argocd_autoscaler.Outcomes.{
  returned, or_fail, map-eq_returned, returned_inj, or_fail-eq_returned,
}
use argocd_autoscaler.Arithmetic.{Arithmetic, IsExact}
use argocd_autoscaler.Api.{LoadIndex, Replica, ReplicaList}
use argocd_autoscaler.Sorting.{IsSort, IsOrderedBy}
use argocd_autoscaler.Partition.Conservation.{in_cluster_first-perm}
use argocd_autoscaler.Partition.Selecting.{IsOpen, NoneOpen}
use argocd_autoscaler.Partition.Stepping.{Extends, here, there, Step, opens, extends, place_all_inv}
use argocd_autoscaler.Partition.{
  Progress, load, total, is_full, heavier, new_replica, extend_replica, place_all, no_replicas,
  biggest_load, in_cluster_first, sort_shards, partition,
}

module _ (n : Arithmetic) where
  -- The first load is no more than the second.
  abbrev pub AtMost : n.Float → n.Float → Type 0
  AtMost x y = n.lt y x ≡ false

  AtMost-prop : (x y : n.Float) → IsProp (AtMost x y)
  AtMost-prop x y = Bool-set (n.lt y x) false

  module _ (max : ℕ) (bucket_size : n.Float) where
    abbrev pub WithinBucket : Replica n.Quantity → Type 0
    WithinBucket r = AtMost (total n r) bucket_size

    -- Two replicas, the second opened later, that could not have been one.
    abbrev pub IsApart : Replica n.Quantity → Replica n.Quantity → Type 0
    IsApart r r' = (is_full n max r ≡ true) ⊎ (AtMost bucket_size (n.add (total n r) (total n r')))

    abbrev pub AllApart : ReplicaList n.Quantity → Type 0
    AllApart [] = Unit
    AllApart (r ∷ rs) = All (IsApart r) rs × AllApart rs

    AllApart-append :
        (rs : ReplicaList n.Quantity) (s : Replica n.Quantity)
        → AllApart rs
        → All (λ r. IsApart r s) rs
        → AllApart (rs ++ s ∷ [])
    AllApart-append [] s h k = (tt, tt)
    AllApart-append (r ∷ rs) s h k =
        (All-append (IsApart r) rs (s ∷ []) h.0 (k.0, tt), AllApart-append rs s h.1 k.1)

module _ (n : Arithmetic) (laws : IsExact n) where
  extend_replica-total :
      (l : LoadIndex n.Quantity) (r : Replica n.Quantity) {r' : Replica n.Quantity}
      → extend_replica n l r ≡ returned r'
      → total n r' ≡ n.add (total n r) (load n l)
  unfolding extend_replica
  extend_replica-total l r e =
      let sum = n.add (total n r) (load n l) in
      let (q, parsed, e') = map-eq_returned _ (or_fail (n.parse (n.format sum))) e in
      rw (← e') (laws.parse-format sum q (or_fail-eq_returned _ parsed))

  abbrev pub Nonnegative : LoadIndex n.Quantity → Type 0
  Nonnegative l = AtMost n (n.of_nat 0) (load n l)

  -- Making a summand no less keeps a sum at or above a bound.
  add_keeps_left :
      (b x x' y : n.Float) → AtMost n x x' → AtMost n b (n.add x y) → AtMost n b (n.add x' y)
  add_keeps_left b x x' y h k =
      laws.lt_cotrans _ _ _ (laws.add_mono x' x y y h (laws.ordered.lt_irrefl y)) k

  add_keeps_right :
      (b x y y' : n.Float) → AtMost n y y' → AtMost n b (n.add x y) → AtMost n b (n.add x y')
  add_keeps_right b x y y' h k =
      laws.lt_cotrans _ _ _ (laws.add_mono x x y' y (laws.ordered.lt_irrefl x) h) k

  module _ (max : ℕ) (bucket_size : n.Float) where
    -- What a step keeps of the loads, given that no shard is heavier than the bucket.
    pub record IsPacked (rs : ReplicaList n.Quantity) : Type 0 where
      pub within : All (WithinBucket n max bucket_size) rs
      pub apart : AllApart n max bucket_size rs

    extend_replica-within :
        (l : LoadIndex n.Quantity) (r : Replica n.Quantity) {r' : Replica n.Quantity}
        → IsOpen n max bucket_size l r
        → extend_replica n l r ≡ returned r'
        → WithinBucket n max bucket_size r'
    extend_replica-within l r open_r e = rw (extend_replica-total l r e) (
        ground (
          arith,
          open_r.room,
          laws.ordered.lt_irrefl bucket_size,
          laws.ordered.lt_trans bucket_size (n.add (total n r) (load n l)) bucket_size,
        ))

    -- A replica that takes a shard stays apart from those after it, and from those before it.
    IsApart-first :
        (l : LoadIndex n.Quantity) (r s : Replica n.Quantity) {r' : Replica n.Quantity}
        → Nonnegative l
        → IsOpen n max bucket_size l r
        → extend_replica n l r ≡ returned r'
        → IsApart n max bucket_size r s
        → IsApart n max bucket_size r' s
    IsApart-first l r s positive open_r e (inl full) = absurd (ground (arith, open_r.not_full))
    IsApart-first l r s positive open_r e (inr a) = inr (
        rw (extend_replica-total l r e) (
          add_keeps_left bucket_size (total n r) _ (total n s)
            (laws.add_grows (total n r) (load n l) positive) a))

    IsApart-second :
        (l : LoadIndex n.Quantity) (r s : Replica n.Quantity) {r' : Replica n.Quantity}
        → Nonnegative l
        → extend_replica n l r ≡ returned r'
        → IsApart n max bucket_size s r
        → IsApart n max bucket_size s r'
    IsApart-second l r s positive e (inl full) = inl full
    IsApart-second l r s positive e (inr a) = inr (
        rw (extend_replica-total l r e) (
          add_keeps_right bucket_size (total n s) (total n r) _
            (laws.add_grows (total n r) (load n l) positive) a))

    Extends-IsApart_from :
        (s : Replica n.Quantity) (l : LoadIndex n.Quantity) {rs rs' : ReplicaList n.Quantity}
        → Nonnegative l
        → Extends n max bucket_size l rs rs'
        → All (IsApart n max bucket_size s) rs
        → All (IsApart n max bucket_size s) rs'
    Extends-IsApart_from s l positive (here {r = r} rs open_r e) h =
        (IsApart-second l r s positive e h.0, h.1)
    Extends-IsApart_from s l positive (there r x) h = (h.0, Extends-IsApart_from s l positive x h.1)

    Extends-apart :
        (l : LoadIndex n.Quantity) {rs rs' : ReplicaList n.Quantity}
        → Nonnegative l
        → Extends n max bucket_size l rs rs'
        → AllApart n max bucket_size rs
        → AllApart n max bucket_size rs'
    Extends-apart l positive (here {r = r} rs open_r e) h =
        (All-map rs (λ s. IsApart-first l r s positive open_r e) h.0, h.1)
    Extends-apart l positive (there r x) h =
        (Extends-IsApart_from r l positive x h.0, Extends-apart l positive x h.1)

    Extends-within :
        (l : LoadIndex n.Quantity) {rs rs' : ReplicaList n.Quantity}
        → Extends n max bucket_size l rs rs'
        → All (WithinBucket n max bucket_size) rs
        → All (WithinBucket n max bucket_size) rs'
    Extends-within l (here {r = r} rs open_r e) h = (extend_replica-within l r open_r e, h.1)
    Extends-within l (there r x) h = (h.0, Extends-within l x h.1)

    -- A new replica is apart from the others, since none of them had room.
    new_replica-IsApart :
        (count : ℕ) (l : LoadIndex n.Quantity) (rs : ReplicaList n.Quantity)
        → NoneOpen n max bucket_size l rs
        → All (λ r. IsApart n max bucket_size r (new_replica n count l)) rs
    unfolding new_replica
    new_replica-IsApart count l rs h = All-map rs (λ r none_open. ground (arith, none_open)) h

    Step-IsPacked :
        (l : LoadIndex n.Quantity) (p : Progress n) {p' : Progress n}
        → AtMost n (load n l) bucket_size
        → Nonnegative l
        → Step n max bucket_size l p p'
        → IsPacked p.replicas
        → IsPacked p'.replicas
    Step-IsPacked l p light positive (opens none_open) h = record {
      within =
          All-append (WithinBucket n max bucket_size) p.replicas _ h.within
            (unfold new_replica in light, tt);
      apart =
          AllApart-append n max bucket_size p.replicas _ h.apart
            (new_replica-IsApart p.replica_count l p.replicas none_open);
    }
    Step-IsPacked l p light positive (extends x) h = record {
      within = Extends-within l x h.within;
      apart = Extends-apart l positive x h.apart;
    }

    place_all-IsPacked :
        (ls : List (LoadIndex n.Quantity)) {p : Progress n}
        → All (λ l. AtMost n (load n l) bucket_size) ls
        → All Nonnegative ls
        → place_all n max bucket_size ls (no_replicas n) ≡ returned p
        → IsPacked p.replicas
    place_all-IsPacked ls light positive e =
        (place_all_inv n max bucket_size laws.ordered
          (λ rest q.
            All (λ l. AtMost n (load n l) bucket_size) rest
            × All Nonnegative rest
            × IsPacked q.replicas)
          (λ l rest q q' step h. (h.0.1, h.1.1, Step-IsPacked l q h.0.0 h.1.0 step h.2)) ls
          (no_replicas n) (light, positive, record { within = tt; apart = tt }) e).2

  module _ (sort : List (LoadIndex n.Quantity) → List (LoadIndex n.Quantity)) where
    biggest_load-bounds :
        (ls : List (LoadIndex n.Quantity))
        → IsOrderedBy (heavier n) ls
        → All (λ l. AtMost n (load n l) (biggest_load n ls)) ls
    biggest_load-bounds [] h = tt
    biggest_load-bounds (l ∷ ls) h = (laws.ordered.lt_irrefl (load n l), h.0)

    -- Where no load is negative, sums of loads are exact and `sort.Sort` sorts: if `Partition`
    -- succeeds, it loads no replica beyond the heaviest shard, which is the bucket size that `Sort`
    -- returns; and of any two replicas, the earlier holds as many shards as the limit allows, or the
    -- two together carry at least the bucket size, so that no merging of two replicas below the
    -- limit would have kept within it strictly.
    pub partition-IsPacked :
        IsSort (heavier n) sort
        → (ls : List (LoadIndex n.Quantity)) (max : ℕ) {rs : ReplicaList n.Quantity}
        → All Nonnegative ls
        → partition n sort ls max ≡ returned rs
        → IsPacked max (sort_shards n sort ls).1 rs
    unfolding partition
    partition-IsPacked sorting [] max positive e =
        rw (← returned_inj e) (record { within = tt; apart = tt })
    partition-IsPacked sorting (l ∷ ls) max positive e =
        let sorted = sort (l ∷ ls) in
        let (p, placed, e') =
          map-eq_returned (λ q. q.replicas)
            (place_all n max (biggest_load n sorted) (in_cluster_first n sorted) (no_replicas n))
            e in
        rw (← e') (
          place_all-IsPacked max (biggest_load n sorted) (in_cluster_first n sorted)
            (All-perm (λ s. AtMost n (load n s) (biggest_load n sorted))
              (λ s. AtMost-prop n (load n s) (biggest_load n sorted))
              (Perm.symm (in_cluster_first-perm n sorted))
              (biggest_load-bounds sorted (sorting.orders (l ∷ ls))))
            (All-perm Nonnegative (λ s. AtMost-prop n (n.of_nat 0) (load n s))
              (Perm.trans (Perm.symm (sorting.permutes (l ∷ ls)))
                (Perm.symm (in_cluster_first-perm n sorted)))
              positive)
            placed)
