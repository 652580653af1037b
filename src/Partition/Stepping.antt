-- ===== src/Partition/Stepping.antt =====
-- A round of the outer loop as a step relation, and the induction over the loop.
use argocd_autoscaler.Base.{
  ℕ, zero, suc, ◌≡◌, refl, sym, subst, Option, none, some, List, [], ◌∷◌, get_elem?, some_inj,
}
use argocd_autoscaler.Outcomes.{returned, >>=-eq_returned, map-eq_returned, returned_inj}
use argocd_autoscaler.Arithmetic.{Arithmetic, IsOrdered}
use argocd_autoscaler.Api.{LoadIndex, Replica, ReplicaList}
use argocd_autoscaler.Partition.{
  Progress, select, extend_replica, extend_at, open_replica, place, place_all,
}
use argocd_autoscaler.Partition.Selecting.{IsOpen, NoneOpen, Selects, select-Selects}

module _ (n : Arithmetic) (max : ℕ) (bucket_size : n.Float) where
  -- One open replica takes the shard.
  pub data Extends (l : LoadIndex n.Quantity)
      : ReplicaList n.Quantity → ReplicaList n.Quantity → Type 0 where
    here :
        {r r' : Replica n.Quantity} (rs : ReplicaList n.Quantity)
        → IsOpen n max bucket_size l r
        → extend_replica n l r ≡ returned r'
        → Extends l (r ∷ rs) (r' ∷ rs)
    there :
        (r : Replica n.Quantity) {rs rs' : ReplicaList n.Quantity}
        → Extends l rs rs'
        → Extends l (r ∷ rs) (r ∷ rs')

  -- A round opens a replica, if no open replica has room, or extends one.
  pub data Step (l : LoadIndex n.Quantity) (p : Progress n) : Progress n → Type 0 where
    opens : NoneOpen n max bucket_size l p.replicas → Step l p (open_replica n l p)
    extends :
        {rs : ReplicaList n.Quantity}
        → Extends l p.replicas rs
        → Step l p (record p { replicas = rs })

  extend_at-Extends :
      (l : LoadIndex n.Quantity) (i : ℕ) (rs : ReplicaList n.Quantity)
      {rs' : ReplicaList n.Quantity} (r : Replica n.Quantity)
      → get_elem? rs i ≡ some r
      → IsOpen n max bucket_size l r
      → extend_at n l i rs ≡ returned rs'
      → Extends l rs rs'
  unfolding extend_at
  extend_at-Extends l i [] r at open_r h = cc
  extend_at-Extends l zero (x ∷ rs) {rs'} r at open_r h =
      let (r', e, e') = map-eq_returned (λ y. y ∷ rs) (extend_replica n l x) h in
      subst (Extends l (x ∷ rs)) e'
        (here rs (subst (IsOpen n max bucket_size l) (some_inj (sym at)) open_r) e)
  extend_at-Extends l (suc i) (x ∷ rs) {rs'} r at open_r h =
      let (ys, e, e') = map-eq_returned (◌∷◌ x) (extend_at n l i rs) h in
      subst (Extends l (x ∷ rs)) e' (there x (extend_at-Extends l i rs r at open_r e))

  module _ (laws : IsOrdered n) where
    -- Each round of the outer loop is a step.
    pub place-Step :
        (l : LoadIndex n.Quantity) (p : Progress n) {p' : Progress n}
        → place n max bucket_size l p ≡ returned p'
        → Step l p p'
    unfolding place
    place-Step l p {p'} h =
        go (select n max bucket_size l p.replicas) refl
          (select-Selects n max bucket_size l laws p.replicas)
      where
        go :
            (o : Option ℕ)
            → select n max bucket_size l p.replicas ≡ o
            → Selects n max bucket_size l p.replicas o
            → Step l p p'
        go none e s = subst (Step l p) (returned_inj (rw (e, place) at h)) (opens s)
        go (some i) e (r, at, open_r, _) =
            let (rs, taken, e') =
              map-eq_returned (λ rs. record p { replicas = rs }) (extend_at n l i p.replicas)
                (rw (e, place) at h) in
            subst (Step l p) e' (extends (extend_at-Extends l i p.replicas r at open_r taken))

    -- A property of what is left and of what is done holds at the end if each step keeps it.
    pub place_all_inv :
        (P : List (LoadIndex n.Quantity) → Progress n → Type 0)
        → ((l : LoadIndex n.Quantity) (ls : List (LoadIndex n.Quantity)) (p p' : Progress n)
            → Step l p p'
            → P (l ∷ ls) p
            → P ls p')
        → (ls : List (LoadIndex n.Quantity)) (p : Progress n) {p' : Progress n} → P ls p
        → place_all n max bucket_size ls p ≡ returned p'
        → P [] p'
    unfolding place_all
    place_all_inv P keep [] p h e = subst (P []) (returned_inj e) h
    place_all_inv P keep (l ∷ ls) p h e =
        let (q, placed, e') =
          >>=-eq_returned (place n max bucket_size l p) (place_all n max bucket_size ls) e in
        place_all_inv P keep ls q (keep l ls p q (place-Step l p placed) h) e'
