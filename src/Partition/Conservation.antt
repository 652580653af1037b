-- ===== src/Partition/Conservation.antt =====
-- The shards that come in, and those of the replicas.
use argocd_autoscaler.Base.{
  ℕ, ◌≡◌, refl, List, [], ◌∷◌, ◌++◌, Perm, get_elem?, Bool-cases, Option-cases, inl, inr,
  erase_at-perm, arith,
}
use mathlib.Core.List.{perm_middle, append-nil, append_assoc}
use mathlib.Core.List.Perm
use argocd_autoscaler.Sorting.{IsSort}
use argocd_autoscaler.Outcomes.{returned, map-eq_returned, returned_inj}
use argocd_autoscaler.Arithmetic.{Arithmetic, IsOrdered}
use argocd_autoscaler.Api.{LoadIndex, Replica, ReplicaList}
use argocd_autoscaler.Partition.Stepping.{Extends, here, there, Step, opens, extends, place_all_inv}
use argocd_autoscaler.Partition.{
  Progress, heavier, new_replica, extend_replica, biggest_load, place_all, no_replicas,
  open_replica, in_cluster_condition, in_cluster_index, in_cluster_first, partition,
}

module _ (n : Arithmetic) where
  -- The shards of all replicas, one after another.
  abbrev pub shards_of : ReplicaList n.Quantity → List (LoadIndex n.Quantity)
  shards_of [] = []
  shards_of (r ∷ rs) = r.load_indexes ++ shards_of rs

  shards_of-append :
      (rs ss : ReplicaList n.Quantity) → shards_of (rs ++ ss) ≡ shards_of rs ++ shards_of ss
  shards_of-append [] ss = refl
  shards_of-append (r ∷ rs) ss =
      rw (shards_of-append rs ss, append_assoc r.load_indexes (shards_of rs) (shards_of ss))

  extend_replica-shards :
      (l : LoadIndex n.Quantity) (r : Replica n.Quantity) {r' : Replica n.Quantity}
      → extend_replica n l r ≡ returned r'
      → r'.load_indexes ≡ r.load_indexes ++ l ∷ []
  unfolding extend_replica
  extend_replica-shards l r h = ground arith

  open_replica-perm :
      (l : LoadIndex n.Quantity) (p : Progress n)
      → Perm (shards_of (open_replica n l p).replicas) (l ∷ shards_of p.replicas)
  unfolding new_replica
  open_replica-perm l p =
      rw shards_of-append
        (rw (append-nil (shards_of p.replicas)) at (perm_middle {a = l} (shards_of p.replicas) []))

  module _ (max : ℕ) (bucket_size : n.Float) where
    Extends-perm :
        (l : LoadIndex n.Quantity) {rs rs' : ReplicaList n.Quantity}
        → Extends n max bucket_size l rs rs'
        → Perm (shards_of rs') (l ∷ shards_of rs)
    Extends-perm l (here {r = r} rs open_r e) =
        rw (extend_replica-shards l r e, append_assoc r.load_indexes (l ∷ []) (shards_of rs))
          (perm_middle r.load_indexes (shards_of rs))
    Extends-perm l (there r {rs = rs} x) =
        Perm.trans (Perm.append_left r.load_indexes (Extends-perm l x))
          (perm_middle r.load_indexes (shards_of rs))

    Step-perm :
        (l : LoadIndex n.Quantity) (p : Progress n) {p' : Progress n}
        → Step n max bucket_size l p p'
        → Perm (shards_of p'.replicas) (l ∷ shards_of p.replicas)
    Step-perm l p (opens _) = open_replica-perm l p
    Step-perm l p (extends x) = Extends-perm l x

    place_all-perm :
        IsOrdered n
        → (ls : List (LoadIndex n.Quantity)) {p : Progress n}
        → place_all n max bucket_size ls (no_replicas n) ≡ returned p
        → Perm (shards_of p.replicas) ls
    place_all-perm laws ls {p} e = rw (append-nil (shards_of p.replicas)) at (
        place_all_inv n max bucket_size laws (λ rest q. Perm (shards_of q.replicas ++ rest) ls)
          (λ l rest q q' step h.
            Perm.trans
              (Perm.trans (Perm.append_right rest (Step-perm l q step))
                (Perm.symm (perm_middle (shards_of q.replicas) rest)))
              h)
          ls (no_replicas n) (Perm.refl ls) e)

  pub in_cluster_first-perm : (ls : List (LoadIndex n.Quantity)) → Perm (in_cluster_first n ls) ls
  unfolding in_cluster_first
  in_cluster_first-perm ls = elim (Option-cases (get_elem? ls (in_cluster_index n ls))) [
    | inl e ↦ rw (e, in_cluster_first) (Perm.refl ls)
    | inr (l, e) ↦ elim (Bool-cases (in_cluster_condition n l)) [
      | inl hit ↦ rw (e, in_cluster_first) (rw hit (erase_at-perm ls (in_cluster_index n ls) e))
      | inr miss ↦ rw (e, in_cluster_first) (rw miss (Perm.refl ls))
    ]
  ]

  module _ (sort : List (LoadIndex n.Quantity) → List (LoadIndex n.Quantity)) where
    -- Where `sort.Sort` sorts and `<` on loads is an order, whatever it does with shards of equal
    -- load, and whatever the limit: if `Partition`
    -- succeeds, its replicas hold exactly the shards that came in, each one once.
    pub partition-perm :
        IsSort (heavier n) sort
        → IsOrdered n
        → (ls : List (LoadIndex n.Quantity)) (max : ℕ) {rs : ReplicaList n.Quantity}
        → partition n sort ls max ≡ returned rs
        → Perm (shards_of rs) ls
    unfolding partition
    partition-perm sorting laws [] max e = rw (← returned_inj e) (Perm.refl [])
    partition-perm sorting laws (l ∷ ls) max e =
        let sorted = sort (l ∷ ls) in
        let (p, placed, e') =
          map-eq_returned (λ q. q.replicas)
            (place_all n max (biggest_load n sorted) (in_cluster_first n sorted) (no_replicas n))
            e in
        rw (← e') (
          Perm.trans (place_all-perm max (biggest_load n sorted) laws _ placed)
            (Perm.trans (in_cluster_first-perm sorted) (sorting.permutes (l ∷ ls))))
