-- ===== src/Partition/Selecting.antt =====
-- The inner loop of `Partition`: which replica it selects.
use argocd_autoscaler.Base.{
  ℕ, suc, ◌+◌, ◌≡◌, refl, ap, true, false, ◌||◌, Option, none, some, [], ◌∷◌, get_elem?, Bool-cases,
  inl, inr, ◌⊎◌, All, All-map, arith,
}
use argocd_autoscaler.Arithmetic.{Arithmetic, IsOrdered}
use argocd_autoscaler.Api.{LoadIndex, Replica, ReplicaList}
use argocd_autoscaler.Partition.{
  Selection, total, is_full, has_room, is_unset, consider, select_from, select,
}

module _ (n : Arithmetic) (max : ℕ) (bucket_size : n.Float) (l : LoadIndex n.Quantity) where
  -- The replica may take the shard.
  pub record IsOpen (r : Replica n.Quantity) : Type 0 where
    pub not_full : is_full n max r ≡ false
    pub room : has_room n bucket_size l r ≡ true

  abbrev pub NoneOpen : ReplicaList n.Quantity → Type 0
  NoneOpen = All (λ r. is_full n max r ≡ false → has_room n bucket_size l r ≡ false)

  -- No replica that may take the shard has less load than `m`.
  abbrev pub IsLeast : n.Float → ReplicaList n.Quantity → Type 0
  IsLeast m = All (λ r. IsOpen r → n.lt (total n r) m ≡ false)

  -- The outcome of a round: the replica is passed over, or it is taken.
  data Considered (i : ℕ) (r : Replica n.Quantity) (s : Selection n) : Selection n → Type 0 where
    passed :
        (is_full n max r ≡ false
          → has_room n bucket_size l r ≡ true
          → (is_unset n s.index ≡ false) × (n.lt (total n r) s.min_load ≡ false))
        → Considered i r s s
    taken :
        IsOpen r
        → is_unset n s.index || n.lt (total n r) s.min_load ≡ true
        → Considered i r s (record { index = some i; min_load = total n r })

  consider-Considered :
      (i : ℕ) (r : Replica n.Quantity) (s : Selection n)
      → Considered i r s (consider n max bucket_size l i r s)
  unfolding consider
  consider-Considered i r s = elim (Bool-cases (is_full n max r)) [
    | inl full ↦ rw full (passed (λ h. absurd (ground arith)))
    | inr space ↦ elim (Bool-cases (is_unset n s.index || n.lt (total n r) s.min_load)) [
      | inr worse ↦ rw (space, worse) (passed (λ _ _. ground arith))
      | inl better ↦ elim (Bool-cases (has_room n bucket_size l r)) [
        | inl fits ↦
            rw (space, better, fits) (taken (record { not_full = space; room = fits }) better)
        | inr tight ↦ rw (space, better, tight) (passed (λ _ h. absurd (ground arith)))
      ]
    ]
  ]

  -- A selection that has a replica, and a later one with a replica of no more load.
  abbrev Improves : Selection n → Selection n → Type 0
  Improves s t =
      (is_unset n t.index ≡ false)
      × ((t.min_load ≡ s.min_load) ⊎ (n.lt t.min_load s.min_load ≡ true))

  -- What the loop has found came from before, or is a replica of the list.
  abbrev pub Found : ℕ → ReplicaList n.Quantity → Selection n → Selection n → Type 0
  Found i rs s t =
      (t ≡ s)
      ⊎ ((k : ℕ) × (r : Replica n.Quantity) × (get_elem? rs k ≡ some r)
          × IsOpen r
          × (t ≡ record { index = some (i + k); min_load = total n r }))

  Found-cons :
      (i : ℕ) (r : Replica n.Quantity) (rs : ReplicaList n.Quantity) (s s' t : Selection n)
      → Considered i r s s'
      → Found (suc i) rs s' t
      → Found i (r ∷ rs) s t
  Found-cons i r rs s s' t c (inr (k, r', at, open_r, e)) =
      inr (suc k, r', at, open_r, ground arith)
  Found-cons i r rs s s' t (passed _) (inl e) = inl e
  Found-cons i r rs s s' t (taken open_r _) (inl e) = inr (0, r, refl, open_r, ground arith)

  pub select_from-Found :
      (i : ℕ) (rs : ReplicaList n.Quantity) (s : Selection n)
      → Found i rs s (select_from n max bucket_size l i rs s)
  unfolding select_from
  select_from-Found i [] s = inl refl
  select_from-Found i (r ∷ rs) s =
      let s' = consider n max bucket_size l i r s in
      Found-cons i r rs s s' _ (consider-Considered i r s) (select_from-Found (suc i) rs s')

  abbrev Beats : Selection n → Replica n.Quantity → Type 0
  Beats t r = IsOpen r → (is_unset n t.index ≡ false) × (n.lt (total n r) t.min_load ≡ false)

  -- What the selection says of the replicas.
  abbrev pub Selects : ReplicaList n.Quantity → Option ℕ → Type 0
  Selects rs none = NoneOpen rs
  Selects rs (some i) =
      (r : Replica n.Quantity) × (get_elem? rs i ≡ some r) × IsOpen r × IsLeast (total n r) rs

  module _ (laws : IsOrdered n) where
    Improves-cons :
        (i : ℕ) (r : Replica n.Quantity) (s s' t : Selection n)
        → Considered i r s s'
        → is_unset n s.index ≡ false
        → (is_unset n s'.index ≡ false → Improves s' t)
        → Improves s t
    Improves-cons i r s s' t (passed _) set rest = rest set
    Improves-cons i r s s' t (taken _ better) set rest =
        ground (arith, rest refl, laws.lt_trans t.min_load (total n r) s.min_load)

    select_from-Improves :
        (i : ℕ) (rs : ReplicaList n.Quantity) (s : Selection n)
        → is_unset n s.index ≡ false
        → Improves s (select_from n max bucket_size l i rs s)
    unfolding select_from
    select_from-Improves i [] s set = (set, inl refl)
    select_from-Improves i (r ∷ rs) s set =
        let s' = consider n max bucket_size l i r s in
        Improves-cons i r s s' _ (consider-Considered i r s) set
          (select_from-Improves (suc i) rs s')

    Improves-not_below :
        (x : n.Float) (s t : Selection n)
        → Improves s t
        → n.lt x s.min_load ≡ false
        → n.lt x t.min_load ≡ false
    Improves-not_below x s t h k = ground (arith, laws.lt_trans x t.min_load s.min_load)

    Beats-head :
        (i : ℕ) (r : Replica n.Quantity) (s s' t : Selection n)
        → Considered i r s s'
        → (is_unset n s'.index ≡ false → Improves s' t)
        → Beats t r
    Beats-head i r s s' t (passed f) rest open_r =
        let (set, above) = f open_r.not_full open_r.room in
        ((rest set).0, Improves-not_below (total n r) s t (rest set) above)
    Beats-head i r s s' t (taken _ _) rest open_r = (
      (rest refl).0,
      Improves-not_below (total n r) s' t (rest refl) (laws.lt_irrefl (total n r)),
    )

    select_from-Beats :
        (i : ℕ) (rs : ReplicaList n.Quantity) (s : Selection n)
        → All (Beats (select_from n max bucket_size l i rs s)) rs
    unfolding select_from
    select_from-Beats i [] s = tt
    select_from-Beats i (r ∷ rs) s =
        let s' = consider n max bucket_size l i r s in
        (
          Beats-head i r s s' _ (consider-Considered i r s) (select_from-Improves (suc i) rs s'),
          select_from-Beats (suc i) rs s',
        )

    select-Found :
        (rs : ReplicaList n.Quantity) (s t : Selection n)
        → s.index ≡ none
        → Found 0 rs s t
        → All (Beats t) rs
        → Selects rs t.index
    select-Found rs s t e (inl same) beats =
        rw (same, e)
          (All-map {P = Beats t} rs
            (λ r beat not_full. elim (Bool-cases (has_room n bucket_size l r)) [
              | inr tight ↦ tight
              | inl fits ↦ ground (arith, beat (record { not_full = not_full; room = fits }))
            ])
            beats)
    select-Found rs s t e (inr (k, r, at, open_r, found)) beats =
        let zero_add : 0 + k ≡ k = omega arith in
        rw (ap (λ u. u.index) found, zero_add)
          (r, at, open_r, All-map {P = Beats t} rs (λ r' beat o. ground (arith, beat o)) beats)

    -- Where `<` on loads is an order, the inner loop selects a replica of least load among those that are below the limit and
    -- have room for the shard, and it selects none only if there is no such replica.
    pub select-Selects : (rs : ReplicaList n.Quantity) → Selects rs (select n max bucket_size l rs)
    unfolding select
    select-Selects rs =
        let s : Selection n = record { index = none; min_load = n.of_nat 0 } in
        select-Found rs s _ refl (select_from-Found 0 rs s) (select_from-Beats 0 rs s)
