-- ===== src/Partition/Shape.antt =====
-- The replicas of a partition: their sizes and their IDs.
use argocd_autoscaler.Base.{
  ℕ, suc, ◌+◌, ◌≤◌, ◌<◌, ◌≡◌, refl, List, [], ◌∷◌, ◌++◌, length, length-append, length-perm, All,
  All-append, arith,
}
use argocd_autoscaler.Outcomes.{returned, map-eq_returned, returned_inj}
use argocd_autoscaler.Arithmetic.{Arithmetic, IsOrdered}
use argocd_autoscaler.Api.{LoadIndex, Replica, ReplicaList}
use argocd_autoscaler.Sorting.{IsSort}
use argocd_autoscaler.Partition.Conservation.{in_cluster_first-perm}
use argocd_autoscaler.Partition.Selecting.{IsOpen}
use argocd_autoscaler.Partition.Stepping.{Extends, here, there, Step, opens, extends, place_all_inv}
use argocd_autoscaler.Partition.{
  Progress, heavier, new_replica, extend_replica, place_all, no_replicas, biggest_load,
  in_cluster_first, partition,
}

module _ (n : Arithmetic) where
  pub record IsFilled (max : ℕ) (r : Replica n.Quantity) : Type 0 where
    pub nonempty : 0 < length r.load_indexes
    pub limited : 0 < max → length r.load_indexes ≤ max

  -- The IDs count up from `k`.
  abbrev pub NumberedFrom : ℕ → ReplicaList n.Quantity → Type 0
  NumberedFrom k [] = Unit
  NumberedFrom k (r ∷ rs) = (r.id ≡ k) × NumberedFrom (suc k) rs

  extend_replica-IsFilled :
      (max : ℕ) (bucket_size : n.Float) (l : LoadIndex n.Quantity) (r : Replica n.Quantity)
      {r' : Replica n.Quantity}
      → IsOpen n max bucket_size l r
      → extend_replica n l r ≡ returned r'
      → IsFilled max r'
  unfolding extend_replica
  extend_replica-IsFilled max bucket_size l r open_r e =
      ground (arith, length-append r.load_indexes (l ∷ []), open_r.not_full)

  extend_replica-id :
      (l : LoadIndex n.Quantity) (r : Replica n.Quantity) {r' : Replica n.Quantity}
      → extend_replica n l r ≡ returned r'
      → r'.id ≡ r.id
  unfolding extend_replica
  extend_replica-id l r e = ground arith

  new_replica-IsFilled :
      (max count : ℕ) (l : LoadIndex n.Quantity) → IsFilled max (new_replica n count l)
  unfolding new_replica
  new_replica-IsFilled max count l = ground arith

  NumberedFrom-append :
      (k : ℕ) (rs : ReplicaList n.Quantity) (r : Replica n.Quantity)
      → NumberedFrom k rs
      → r.id ≡ k + length rs
      → NumberedFrom k (rs ++ r ∷ [])
  NumberedFrom-append k [] r h e = (omega arith, tt)
  NumberedFrom-append k (x ∷ rs) r h e = (h.0, NumberedFrom-append (suc k) rs r h.1 (omega arith))

  -- A partition: no replica is empty or holds more than `max` shards, if there is a limit, the
  -- IDs are the places in the list, and there are at most `bound` replicas.
  pub record IsPartition (max bound : ℕ) (rs : ReplicaList n.Quantity) : Type 0 where
    pub filled : All (IsFilled max) rs
    pub numbered : NumberedFrom 0 rs
    pub bounded : length rs ≤ bound

  module _ (max bound : ℕ) (bucket_size : n.Float) where
    -- What a step keeps: the shape, the counter, and the count of shards placed.
    record IsShaped (left : ℕ) (p : Progress n) : Type 0 where
      filled : All (IsFilled max) p.replicas
      numbered : NumberedFrom 0 p.replicas
      counted : p.replica_count ≡ length p.replicas
      small : length p.replicas + left ≤ bound

    Extends-IsFilled :
        (l : LoadIndex n.Quantity) {rs rs' : ReplicaList n.Quantity}
        → Extends n max bucket_size l rs rs'
        → All (IsFilled max) rs
        → All (IsFilled max) rs'
    Extends-IsFilled l (here {r = r} rs open_r e) h =
        (extend_replica-IsFilled max bucket_size l r open_r e, h.1)
    Extends-IsFilled l (there r x) h = (h.0, Extends-IsFilled l x h.1)

    Extends-numbered :
        (l : LoadIndex n.Quantity) (k : ℕ) {rs rs' : ReplicaList n.Quantity}
        → Extends n max bucket_size l rs rs'
        → NumberedFrom k rs
        → NumberedFrom k rs'
    Extends-numbered l k (here {r = r} rs open_r e) h =
        (ground (arith, extend_replica-id l r e, h.0), h.1)
    Extends-numbered l k (there r x) h = (h.0, Extends-numbered l (suc k) x h.1)

    Extends-length :
        (l : LoadIndex n.Quantity) {rs rs' : ReplicaList n.Quantity}
        → Extends n max bucket_size l rs rs'
        → length rs' ≡ length rs
    Extends-length l (here rs open_r e) = refl
    Extends-length l (there r x) = omega (arith, Extends-length l x)

    Step-IsShaped :
        (left : ℕ) (l : LoadIndex n.Quantity) (p : Progress n) {p' : Progress n}
        → bound < 2147483648
        → Step n max bucket_size l p p'
        → IsShaped (suc left) p
        → IsShaped left p'
    Step-IsShaped left l p b (opens _) h = record {
      filled =
          All-append (IsFilled max) p.replicas _ h.filled
            (new_replica-IsFilled max p.replica_count l, tt);
      numbered =
          NumberedFrom-append 0 p.replicas _ h.numbered (unfold new_replica in omega (arith));
      counted = omega (arith, length-append p.replicas (new_replica n p.replica_count l ∷ []));
      small = omega (arith, length-append p.replicas (new_replica n p.replica_count l ∷ []));
    }
    Step-IsShaped left l p b (extends x) h = record {
      filled = Extends-IsFilled l x h.filled;
      numbered = Extends-numbered l 0 x h.numbered;
      counted = omega (arith, Extends-length l x);
      small = omega (arith, Extends-length l x);
    }

    place_all-IsPartition :
        IsOrdered n
        → bound < 2147483648
        → (ls : List (LoadIndex n.Quantity)) {p : Progress n} → length ls ≤ bound
        → place_all n max bucket_size ls (no_replicas n) ≡ returned p
        → IsPartition max bound p.replicas
    place_all-IsPartition laws b ls {p} h e = record {
      filled = shaped.filled;
      numbered = shaped.numbered;
      bounded = omega (arith, shaped.small);
    }
      where
        shaped : IsShaped 0 p
        shaped =
            place_all_inv n max bucket_size laws (λ rest q. IsShaped (length rest) q)
              (λ l rest q q' step s. Step-IsShaped (length rest) l q b step s) ls (no_replicas n)
              (record { filled = tt; numbered = tt; counted = refl; small = omega arith }) e

  module _ (sort : List (LoadIndex n.Quantity) → List (LoadIndex n.Quantity)) where
    -- Where `sort.Sort` sorts, `<` on loads is an order and there are fewer shards than an int32
    -- counts: if `Partition` succeeds, it numbers its replicas from 0 in their order, leaves none of
    -- them empty, fills none beyond a positive `max`, and makes at most as many replicas as there
    -- are shards.
    pub partition-IsPartition :
        IsSort (heavier n) sort
        → IsOrdered n
        → (ls : List (LoadIndex n.Quantity)) (max : ℕ) {rs : ReplicaList n.Quantity}
        → length ls < 2147483648
        → partition n sort ls max ≡ returned rs
        → IsPartition max (length ls) rs
    unfolding partition
    partition-IsPartition sorting laws [] max h e =
        rw (← returned_inj e) (record { filled = tt; numbered = tt; bounded = omega arith })
    partition-IsPartition sorting laws (l ∷ ls) max h e =
        let sorted = sort (l ∷ ls) in
        let (p, placed, e') =
          map-eq_returned (λ q. q.replicas)
            (place_all n max (biggest_load n sorted) (in_cluster_first n sorted) (no_replicas n))
            e in
        rw (← e') (
          place_all-IsPartition max (length (l ∷ ls)) (biggest_load n sorted) laws h
            (in_cluster_first n sorted)
            (omega (
              arith,
              length-perm (in_cluster_first-perm n sorted),
              length-perm (sorting.permutes (l ∷ ls)),
            ))
            placed)
