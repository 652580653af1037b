-- ===== src/Api/Serialize/Canonical.antt =====
-- What the serialisation depends on.
use argocd_autoscaler.Base.{
  ℕ, List, [], ◌∷◌, Option, none, some, Bool, true, false, ◌||◌, ◌≡◌, refl, sym, ◌∙◌, ap, subst,
  arith, Bool-cases, inl, inr,
}
use mathlib.Core.Path.{fun_ext}
use argocd_autoscaler.Text.{Text, text_eq}
use argocd_autoscaler.Text.Order.{text_eq→eq, text_eq_sym}
use argocd_autoscaler.Text.Sorted.{
  sort_texts, has, Distinct, has-sort_texts, Ascending-unique, sort_texts-Ascending,
}
use argocd_autoscaler.Api.{LoadIndex, ReplicaList}
use argocd_autoscaler.Api.Serialize.{
  Assignments, assign, assigned, keys, assign_load_indexes, assign_replicas, assignments,
  serialize_item, serialize_assignments, serialize_to_string,
}

abbrev is_some : Option ℕ → Bool
is_some none = false
is_some (some v) = true

has-keys : (k : Text) (m : Assignments) → has k (keys m) ≡ is_some (assigned k m)
unfolding has assigned
has-keys k [] = refl
has-keys k ((j, w) ∷ m) = ground (arith, has-keys k m)

has-assign :
    (k i : Text) (v : ℕ) (m : Assignments)
    → has i (keys (assign k v m)) ≡ text_eq k i || has i (keys m)
unfolding has assign
has-assign k i v [] = refl
has-assign k i v ((j, w) ∷ m) = ground (arith, has-assign k i v m, text_eq→eq j k)

assign-Distinct :
    (k : Text) (v : ℕ) (m : Assignments) → Distinct (keys m) → Distinct (keys (assign k v m))
unfolding assign has
assign-Distinct k v [] d = (refl, tt)
assign-Distinct k v ((j, w) ∷ m) d = elim (Bool-cases (text_eq j k)) [
  | inl e ↦ rw e (subst (λ i. Distinct (i ∷ keys m)) (text_eq→eq j k e) d)
  | inr e ↦ rw e (has-assign k j v m ∙ ground (arith, text_eq_sym j k), assign-Distinct k v m d.1)
]

module _ {Q : Type 0} where
  assign_load_indexes-Distinct :
      (id : ℕ) (ls : List (LoadIndex Q)) (m : Assignments)
      → Distinct (keys m)
      → Distinct (keys (assign_load_indexes id ls m))
  unfolding assign_load_indexes
  assign_load_indexes-Distinct id [] m d = d
  assign_load_indexes-Distinct id (l ∷ ls) m d =
      assign_load_indexes-Distinct id ls _ (assign-Distinct l.shard.uid id m d)

  assign_replicas-Distinct :
      (rs : ReplicaList Q) (m : Assignments)
      → Distinct (keys m)
      → Distinct (keys (assign_replicas rs m))
  unfolding assign_replicas
  assign_replicas-Distinct [] m d = d
  assign_replicas-Distinct (r ∷ rs) m d =
      assign_replicas-Distinct rs _ (assign_load_indexes-Distinct r.id r.load_indexes m d)

  assignments-Distinct : (rs : ReplicaList Q) → Distinct (keys (assignments rs))
  unfolding assignments
  assignments-Distinct rs = assign_replicas-Distinct rs [] tt

serialize_assignments-canonical :
    (m n : Assignments)
    → Distinct (keys m)
    → Distinct (keys n)
    → ((k : Text) → assigned k m ≡ assigned k n)
    → serialize_assignments m ≡ serialize_assignments n
unfolding serialize_assignments serialize_item
serialize_assignments-canonical m n d e same = rw (sorted, fun_ext items) refl
  where
    items : (k : Text) → serialize_item m k ≡ serialize_item n k
    items k = rw (same k)

    sorted : sort_texts (keys m) ≡ sort_texts (keys n)
    sorted =
        Ascending-unique (sort_texts (keys m)) (sort_texts (keys n))
          (sort_texts-Ascending (keys m) d) (sort_texts-Ascending (keys n) e)
          (λ k.
            has-sort_texts k (keys m)
            ∙ has-keys k m
            ∙ ap is_some (same k)
            ∙ sym (has-keys k n)
            ∙ sym (has-sort_texts k (keys n)))

-- Two replica lists that assign every shard UID to the same replica ID are serialised alike,
-- whatever the order of replicas and shards, the loads and the other fields.
pub serialize_to_string-canonical :
    {Q : Type 0} (rs ss : ReplicaList Q)
    → ((uid : Text) → assigned uid (assignments rs) ≡ assigned uid (assignments ss))
    → serialize_to_string rs ≡ serialize_to_string ss
unfolding serialize_to_string
serialize_to_string-canonical rs ss same =
    serialize_assignments-canonical _ _ (assignments-Distinct rs) (assignments-Distinct ss) same
