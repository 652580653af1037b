-- ===== src/ShardManager/Assignment.antt =====
-- The replicas by shard, against the assignments that `SerializeToString` compares.
use argocd_autoscaler.Base.{
  ℕ, ◌<◌, ◌≡◌, refl, ap, sym, ◌∙◌, Option, some, List, [], ◌∷◌, arith, Bool-cases, Option-cases,
  inl, inr, if◌then◌else◌, All, some_inj, subst, ◌>>=◌,
}
use mathlib.Core.Option
use argocd_autoscaler.Text.{Text, text_eq, int32_mod}
use argocd_autoscaler.Api.{LoadIndex, Replica, ReplicaList}
use argocd_autoscaler.Api.Serialize.{
  Assignments, assign, assigned, assign_load_indexes, assign_replicas, assignments,
}
use argocd_autoscaler.Text.Order.{text_eq→eq, text_eq_refl}
use argocd_autoscaler.ShardManager.{replica_of, index_shards, index_replicas}
use argocd_autoscaler.ShardManager.Writing.{AreInt32}

assigned-assign :
    (k j : Text) (v : ℕ) (m : Assignments)
    → assigned j (assign k v m) ≡ (if text_eq k j then some v else assigned j m)
unfolding assigned assign
assigned-assign k j v [] = refl
assigned-assign k j v ((i, w) ∷ m) =
    ground (
      arith,
      text_eq→eq i k,
      text_eq→eq k j,
      text_eq→eq i j,
      text_eq_refl k,
      assigned-assign k j v m,
    )

module _ {Q : Type 0} where
  abbrev id_of : Option (Replica Q) → Option ℕ
  id_of = Option.map (λ r. r.id)

  abbrev Agrees : List (Text × Replica Q) → Assignments → Type 0
  Agrees known m = (uid : Text) → id_of (replica_of uid known) ≡ assigned uid m

  cons-Agrees :
      (k : Text) (r : Replica Q) (known : List (Text × Replica Q)) (m : Assignments)
      → Agrees known m
      → Agrees ((k, r) ∷ known) (assign k r.id m)
  unfolding replica_of
  cons-Agrees k r known m h uid =
      rw (assigned-assign k uid r.id m)
        (elim (Bool-cases (text_eq k uid)) [ inl e ↦ rw e refl | inr e ↦ rw e (h uid) ])

  index_shards-Agrees :
      (r : Replica Q) (ls : List (LoadIndex Q)) (known known' : List (Text × Replica Q))
      (m : Assignments)
      → Agrees known m
      → index_shards r ls known ≡ some known'
      → Agrees known' (assign_load_indexes r.id ls m)
  unfolding index_shards assign_load_indexes
  index_shards-Agrees r [] known known' m h e =
      λ uid. ap (λ o. id_of (replica_of uid o)) (sym (some_inj e)) ∙ h uid
  index_shards-Agrees r (l ∷ ls) known known' m h e =
      index_shards-Agrees r ls ((l.shard.uid, r) ∷ known) known' (assign l.shard.uid r.id m)
        (cons-Agrees l.shard.uid r known m h) (ground (arith, e))

  index_replicas-Agrees :
      (rs : ReplicaList Q) (known known' : List (Text × Replica Q)) (m : Assignments)
      → Agrees known m
      → index_replicas rs known ≡ some known'
      → Agrees known' (assign_replicas rs m)
  unfolding index_replicas assign_replicas
  index_replicas-Agrees [] known known' m h e =
      λ uid. ap (λ o. id_of (replica_of uid o)) (sym (some_inj e)) ∙ h uid
  index_replicas-Agrees (r ∷ rs) known known' m h e =
      elim (Option-cases (index_shards r r.load_indexes known)) [
        | inl e' ↦ ground (arith, e, e')
        | inr (k, e') ↦
            index_replicas-Agrees rs k known' (assign_load_indexes r.id r.load_indexes m)
              (index_shards-Agrees r r.load_indexes known k m h e')
              (sym (ap (λ o. o >>= index_replicas rs) e') ∙ e)
      ]

  -- The numbers of replicas are int32.
  cons-AreInt32 :
      (k : Text) (r : Replica Q) (known : List (Text × Replica Q))
      → r.id < int32_mod
      → AreInt32 known
      → AreInt32 ((k, r) ∷ known)
  unfolding replica_of AreInt32
  cons-AreInt32 k r known b h uid q e = elim (Bool-cases (text_eq k uid)) [
    | inl e' ↦
        subst (λ x. x.id < int32_mod)
          (some_inj (ap (λ t. if t then some r else replica_of uid known) (sym e') ∙ e)) b
    | inr e' ↦ h uid q (ap (λ t. if t then some r else replica_of uid known) (sym e') ∙ e)
  ]

  index_shards-AreInt32 :
      (r : Replica Q) (ls : List (LoadIndex Q)) (known known' : List (Text × Replica Q))
      → r.id < int32_mod
      → AreInt32 known
      → index_shards r ls known ≡ some known'
      → AreInt32 known'
  unfolding index_shards
  index_shards-AreInt32 r [] known known' b h e = subst AreInt32 (some_inj e) h
  index_shards-AreInt32 r (l ∷ ls) known known' b h e =
      index_shards-AreInt32 r ls ((l.shard.uid, r) ∷ known) known' b
        (cons-AreInt32 l.shard.uid r known b h) (ground (arith, e))

  index_replicas-AreInt32 :
      (rs : ReplicaList Q) (known known' : List (Text × Replica Q))
      → All (λ r. r.id < int32_mod) rs
      → AreInt32 known
      → index_replicas rs known ≡ some known'
      → AreInt32 known'
  unfolding index_replicas
  index_replicas-AreInt32 [] known known' b h e = subst AreInt32 (some_inj e) h
  index_replicas-AreInt32 (r ∷ rs) known known' b h e =
      elim (Option-cases (index_shards r r.load_indexes known)) [
        | inl e' ↦ ground (arith, e, e')
        | inr (k, e') ↦
            index_replicas-AreInt32 rs k known' b.1
              (index_shards-AreInt32 r r.load_indexes known k b.0 h e')
              (sym (ap (λ o. o >>= index_replicas rs) e') ∙ e)
      ]

  -- Where no shard is in the replicas twice, the manager reads off them, for each shard UID, the
  -- number that `SerializeToString` writes for it; and the numbers are int32 if those of the
  -- replicas are.
  pub index_replicas-assignments :
      (rs : ReplicaList Q) (known : List (Text × Replica Q))
      → index_replicas rs [] ≡ some known
      → ((uid : Text)
          → Option.map (λ r. r.id) (replica_of uid known) ≡ assigned uid (assignments rs))
        × (All (λ r. r.id < int32_mod) rs → AreInt32 known)
  unfolding assignments replica_of assigned AreInt32
  index_replicas-assignments rs known e = (
    index_replicas-Agrees rs [] known [] (λ uid. refl) e,
    λ b. index_replicas-AreInt32 rs [] known b (λ uid r e'. ground (arith, e')) e,
  )
