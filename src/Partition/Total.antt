-- ===== src/Partition/Total.antt =====
-- What `Partition` comes to on every input.
use argocd_autoscaler.Base.{
  ℕ, zero, suc, ◌≡◌, ap, sym, ◌∙◌, none, some, List, [], ◌∷◌, ◌<◌, get_elem?-lt_length, length,
  arith, some_inj, Option-cases, inl, inr,
}
use argocd_autoscaler.Outcomes.{Outcome, returned, failed, panicked, ◌>>=◌}
use argocd_autoscaler.Arithmetic.{Arithmetic}
use argocd_autoscaler.Api.{LoadIndex, Replica, ReplicaList}
use argocd_autoscaler.Partition.{
  Progress, Selection, select, select_from, total, load, extend_replica, extend_at, place,
  place_all, no_replicas, biggest_load, in_cluster_first, partition,
}
use argocd_autoscaler.Partition.Selecting.{Found, select_from-Found}

module _ (n : Arithmetic) where
  -- A call that does not panic, and fails only where ParseQuantity does not read what FormatFloat
  -- writes.
  abbrev pub IsExplained : {A : Type 0} → Outcome A → Type 0
  IsExplained (returned x) = Unit
  IsExplained failed = (x : n.Float) × (n.parse (n.format x) ≡ none)
  IsExplained panicked = ⊥

  >>=-IsExplained :
      {A B : Type 0} (o : Outcome A) (f : A → Outcome B)
      → IsExplained o
      → ((x : A) → IsExplained (f x))
      → IsExplained (o >>= f)
  >>=-IsExplained (returned x) f h k = k x
  >>=-IsExplained failed f h k = h
  >>=-IsExplained panicked f h k = absurd h

  extend_replica-IsExplained :
      (l : LoadIndex n.Quantity) (r : Replica n.Quantity) → IsExplained (extend_replica n l r)
  unfolding extend_replica
  extend_replica-IsExplained l r =
      let sum = n.add (total n r) (load n l) in
      elim (Option-cases (n.parse (n.format sum))) [ inl e ↦ rw e (sum, e) | inr (q, e) ↦ rw e tt ]

  -- An index of a replica is not out of range.
  extend_at-IsExplained :
      (l : LoadIndex n.Quantity) (i : ℕ) (rs : ReplicaList n.Quantity)
      → i < length rs
      → IsExplained (extend_at n l i rs)
  unfolding extend_at
  extend_at-IsExplained l i [] h = absurd (ground (arith, h))
  extend_at-IsExplained l zero (r ∷ rs) h =
      >>=-IsExplained (extend_replica n l r) _ (extend_replica-IsExplained l r) (λ r'. tt)
  extend_at-IsExplained l (suc i) (r ∷ rs) h =
      >>=-IsExplained (extend_at n l i rs) _ (extend_at-IsExplained l i rs (omega arith))
        (λ rs'. tt)

  select-lt_length :
      (max : ℕ) (bucket_size : n.Float) (l : LoadIndex n.Quantity) (rs : ReplicaList n.Quantity)
      (i : ℕ)
      → select n max bucket_size l rs ≡ some i
      → i < length rs
  unfolding select
  select-lt_length max bucket_size l rs i h =
      within (select_from n max bucket_size l 0 rs nothing) h
        (select_from-Found n max bucket_size l 0 rs nothing)
    where
      nothing : Selection n
      nothing = record { index = none; min_load = n.of_nat 0 }

      within :
          (t : Selection n)
          → t.index ≡ some i
          → Found n max bucket_size l 0 rs nothing t
          → i < length rs
      within t e (inl same) = cc (ap (λ u. u.index) same, e)
      within t e (inr (k, r, at, open_r, same)) =
          let here : k ≡ i = omega (arith, some_inj (sym (ap (λ u. u.index) same) ∙ e)) in
          omega (arith, here, get_elem?-lt_length rs k at)

  place-IsExplained :
      (max : ℕ) (bucket_size : n.Float) (l : LoadIndex n.Quantity) (p : Progress n)
      → IsExplained (place n max bucket_size l p)
  unfolding place
  place-IsExplained max bucket_size l p =
      elim (Option-cases (select n max bucket_size l p.replicas)) [
        | inl e ↦ rw (e, place) tt
        | inr (i, e) ↦
            rw (e, place)
              (>>=-IsExplained (extend_at n l i p.replicas) _
                (extend_at-IsExplained l i p.replicas
                  (select-lt_length max bucket_size l p.replicas i e))
                (λ rs. tt))
      ]

  place_all-IsExplained :
      (max : ℕ) (bucket_size : n.Float) (ls : List (LoadIndex n.Quantity)) (p : Progress n)
      → IsExplained (place_all n max bucket_size ls p)
  unfolding place_all
  place_all-IsExplained max bucket_size [] p = tt
  place_all-IsExplained max bucket_size (l ∷ ls) p =
      >>=-IsExplained (place n max bucket_size l p) _ (place-IsExplained max bucket_size l p)
        (place_all-IsExplained max bucket_size ls)

  -- On every input, in whatever order `sort.Sort` leaves the shards and whatever the limit, `Partition`
  -- does not panic, since the index of a selected replica is in range; and where it returns an error, there
  -- is a number that FormatFloat writes as a text that ParseQuantity does not read.
  pub partition-IsExplained :
      (sort : List (LoadIndex n.Quantity) → List (LoadIndex n.Quantity))
      (ls : List (LoadIndex n.Quantity)) (max : ℕ)
      → IsExplained (partition n sort ls max)
  unfolding partition
  partition-IsExplained sort [] max = tt
  partition-IsExplained sort (l ∷ ls) max =
      let sorted = sort (l ∷ ls) in
      >>=-IsExplained
        (place_all n max (biggest_load n sorted) (in_cluster_first n sorted) (no_replicas n)) _
        (place_all-IsExplained max (biggest_load n sorted) (in_cluster_first n sorted)
          (no_replicas n))
        (λ p. tt)
