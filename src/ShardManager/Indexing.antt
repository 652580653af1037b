-- ===== src/ShardManager/Indexing.antt =====
-- When the shard manager takes the replicas of its spec: each shard once.
use argocd_autoscaler.Base.{
  ℕ, ◌+◌, ◌≤◌, ◌≡◌, refl, ap, ◌∙◌, subst, Bool, some, List, [], ◌∷◌, ◌++◌, arith, Bool-cases, inl,
  inr, length, ◌>>=◌, length-append, true, false,
}
use argocd_autoscaler.Text.{Text, text_eq}
use argocd_autoscaler.Text.Order.{text_eq_refl, text_eq→eq}
use argocd_autoscaler.Arithmetic.{Arithmetic}
use argocd_autoscaler.Api.{LoadIndex, Replica, ReplicaList}
use argocd_autoscaler.Grouping.{select_by, select_by-append}
use argocd_autoscaler.Grouping.Rearranging.{bit}
use argocd_autoscaler.ShardManager.{replica_of, is_known, index_shards, index_replicas}
use argocd_autoscaler.Partition.Conservation.{shards_of}

module _ (n : Arithmetic) where
  abbrev Known : Type 0
  Known = List (Text × Replica n.Quantity)

  abbrev pub uid_of : LoadIndex n.Quantity → Text
  uid_of l = l.shard.uid

  -- How often a UID is known, and how often it is among load indexes.
  abbrev pub times : Text → Known → ℕ
  times uid known = bit (is_known (replica_of uid known))

  abbrev pub among : Text → List (LoadIndex n.Quantity) → ℕ
  among uid ls = length (select_by uid_of uid ls)

  abbrev Adds : Known → List (LoadIndex n.Quantity) → Known → Type 0
  Adds known ls known' = (uid : Text) → times uid known' ≡ times uid known + among uid ls

  among_nil : (uid : Text) → among uid [] ≡ 0
  unfolding select_by
  among_nil uid = refl

  -- A shard that is among the load indexes is not known yet if it is there once.
  fresh :
      (l : LoadIndex n.Quantity) (ls : List (LoadIndex n.Quantity)) (known : Known)
      → times (uid_of l) known + among (uid_of l) (l ∷ ls) ≤ 1
      → is_known (replica_of (uid_of l) known) ≡ false
  unfolding select_by
  fresh l ls known h = elim (Bool-cases (is_known (replica_of (uid_of l) known))) [
    | inl e ↦ absurd (omega (arith, rw (e, text_eq_refl (uid_of l)) at h))
    | inr e ↦ e
  ]

  moved :
      (r : Replica n.Quantity) (l : LoadIndex n.Quantity) (ls : List (LoadIndex n.Quantity))
      (known : Known)
      → is_known (replica_of (uid_of l) known) ≡ false
      → (uid : Text)
      → times uid ((uid_of l, r) ∷ known) + among uid ls ≡ times uid known + among uid (l ∷ ls)
  unfolding select_by replica_of
  moved r l ls known h uid = elim (Bool-cases (text_eq (uid_of l) uid)) [
    | inl e ↦
        let new : times uid known ≡ 0 =
          ap bit
            (subst (λ k. is_known (replica_of k known) ≡ false) (text_eq→eq (uid_of l) uid e) h) in
        rw e (omega (arith, new))
    | inr e ↦ rw e refl
  ]

  index_shards_total :
      (r : Replica n.Quantity) (ls : List (LoadIndex n.Quantity)) (known : Known)
      → ((uid : Text) → times uid known + among uid ls ≤ 1)
      → (known' : Known) × (index_shards r ls known ≡ some known') × Adds known ls known'
  unfolding index_shards
  index_shards_total r [] known h = (known, refl, λ uid. omega (arith, among_nil uid))
  index_shards_total r (l ∷ ls) known h =
      let new = fresh l ls known (h (uid_of l)) in
      let (known', e, adds) =
        index_shards_total r ls ((uid_of l, r) ∷ known)
          (λ uid. omega (arith, h uid, moved r l ls known new uid)) in
      (known', rw new e, λ uid. omega (arith, adds uid, moved r l ls known new uid))

  index_replicas_total :
      (rs : ReplicaList n.Quantity) (known : Known)
      → ((uid : Text) → times uid known + among uid (shards_of n rs) ≤ 1)
      → (known' : Known) × (index_replicas rs known ≡ some known')
        × Adds known (shards_of n rs) known'
  unfolding index_replicas
  index_replicas_total [] known h = (known, refl, λ uid. omega (arith, among_nil uid))
  index_replicas_total (r ∷ rs) known h =
      let split : (uid : Text)
          → among uid (r.load_indexes ++ shards_of n rs)
            ≡ among uid r.load_indexes + among uid (shards_of n rs) =
        λ uid.
          ap length (select_by-append uid_of uid r.load_indexes (shards_of n rs))
          ∙ length-append (select_by uid_of uid r.load_indexes)
              (select_by uid_of uid (shards_of n rs)) in
      let (known', e, adds) =
        index_shards_total r r.load_indexes known (λ uid. omega (arith, h uid, split uid)) in
      let (known'', e', adds') =
        index_replicas_total rs known' (λ uid. omega (arith, h uid, split uid, adds uid)) in
      (
        known'',
        ap (λ o. o >>= index_replicas rs) e ∙ e',
        λ uid. omega (arith, split uid, adds uid, adds' uid),
      )

  bit_inj : (b c : Bool) → bit b ≡ bit c → b ≡ c
  bit_inj true true h = refl
  bit_inj true false h = absurd (omega (arith, h))
  bit_inj false true h = absurd (omega (arith, h))
  bit_inj false false h = refl

  -- Replicas that hold the UIDs of a set once each, and no other, are taken, and a replica is known
  -- for these UIDs then.
  pub index_replicas-known :
      (rs : ReplicaList n.Quantity) (wanted : Text → Bool)
      → ((uid : Text) → among uid (shards_of n rs) ≡ bit (wanted uid))
      → (known : Known) × (index_replicas rs [] ≡ some known)
        × ((uid : Text) → is_known (replica_of uid known) ≡ wanted uid)
  unfolding replica_of
  index_replicas-known rs wanted h =
      let none_yet : (uid : Text) → times uid [] ≡ 0 = λ uid. refl in
      let (known, e, adds) =
        index_replicas_total rs [] (λ uid. omega (arith, none_yet uid, h uid, one (wanted uid))) in
      (
        known,
        e,
        λ uid.
            bit_inj (is_known (replica_of uid known)) (wanted uid)
              (omega (arith, none_yet uid, adds uid, h uid)),
      )
    where
      one : (b : Bool) → bit b ≤ 1
      one true = omega arith
      one false = omega arith
