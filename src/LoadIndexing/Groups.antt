-- ===== src/LoadIndexing/Groups.antt =====
-- What the maps of Calculate hold: the metrics of each shard, and of each ID, in their order.
use argocd_autoscaler.Base.{
  ◌≡◌, refl, ap, sym, subst, ◌∙◌, Bool, true, false, Option, none, some, List, [], ◌∷◌, ◌++◌, arith,
  if◌then◌else◌, Bool-cases, inl, inr,
}
use mathlib.Core.List.{append_assoc, append-nil}
use argocd_autoscaler.Text.{Text, text_eq}
use argocd_autoscaler.Text.Order.{text_eq→eq}
use argocd_autoscaler.Arithmetic.{Arithmetic}
use argocd_autoscaler.Maps.{find_key, alter, find_key-alter, IsMap, alter-IsMap, count_key, present}
use argocd_autoscaler.Grouping.{
  appended, kept, select_by, nonempty, first_of, select_by-snoc, appended-nonempty, kept-first,
  grouped_by,
}
use argocd_autoscaler.LoadIndexing.{Metric, ById, Grouped, noted, group, group_all, nothing_grouped}

module _ (n : Arithmetic) where
  abbrev pub of_shard : Text → List (Metric n) → List (Metric n)
  of_shard = select_by (λ x. x.shard.uid)

  abbrev pub of_id : Text → List (Metric n) → List (Metric n)
  of_id = select_by (λ x. x.id)

  -- What is found under an ID in the metrics of a shard, which may be missing.
  abbrev pub find_id : Text → Option (ById n) → Option (List (Metric n))
  find_id id none = none
  find_id id (some g) = find_key id g

  pub record IsGrouped (xs : List (Metric n)) (g : Grouped n) : Type 0 where
    pub is_map : IsMap g.metrics_by_shard
    pub by_shard : (uid : Text) → find_key uid g.metrics_by_shard ≡ nonempty (of_shard uid xs)
    pub shards :
        (uid : Text) → find_key uid g.shards_by_uid ≡ first_of (λ x. x.shard) (of_shard uid xs)
    pub by_id :
        (uid id : Text)
        → find_id id (find_key uid g.metrics_by_shard_by_id) ≡ nonempty (of_id id (of_shard uid xs))
    pub both :
        (uid : Text)
        → present (find_key uid g.metrics_by_shard_by_id)
          ≡ present (find_key uid g.metrics_by_shard)

  noted_lem :
      (x : Metric n) (o : Option (ById n)) (ys : List (Metric n))
      → ((id : Text) → find_id id o ≡ nonempty (of_id id ys))
      → (id : Text) → find_key id (noted n x o) ≡ nonempty (of_id id (ys ++ x ∷ []))
  unfolding find_key
  noted_lem x none ys h =
      grouped_by (λ x. x.id) nonempty x (appended x) ys [] (appended-nonempty x) h
  noted_lem x (some g) ys h =
      grouped_by (λ x. x.id) nonempty x (appended x) ys g (appended-nonempty x) h

  group-by_id :
      (x : Metric n) (xs : List (Metric n)) (g : Grouped n) (uid id : Text)
      → IsGrouped xs g
      → find_id id (find_key uid (alter x.shard.uid (noted n x) g.metrics_by_shard_by_id))
        ≡ nonempty (of_id id (of_shard uid (xs ++ x ∷ [])))
  group-by_id x xs g uid id h =
      let m = g.metrics_by_shard_by_id in
      let here = some (noted n x (find_key x.shard.uid m)) in
      let found = ap (find_id id) (find_key-alter x.shard.uid uid (noted n x) m) in
      let selected = ap (λ l. nonempty (of_id id l)) (select_by-snoc (λ y. y.shard.uid) uid xs x) in
      let left = λ (t : Bool) (e : text_eq x.shard.uid uid ≡ t).
        found ∙ ap (λ b. find_id id (if b then here else find_key uid m)) e in
      let right = λ (t : Bool) (e : text_eq x.shard.uid uid ≡ t). sym (
        selected
        ∙ ap (λ b. nonempty (of_id id (if b then of_shard uid xs ++ x ∷ [] else of_shard uid xs)))
            e) in
      elim (Bool-cases (text_eq x.shard.uid uid)) [
        | inl e ↦
            left true e
            ∙ noted_lem x (find_key x.shard.uid m) (of_shard x.shard.uid xs) (h.by_id x.shard.uid)
                id
            ∙ ap (λ u. nonempty (of_id id (of_shard u xs ++ x ∷ []))) (text_eq→eq x.shard.uid uid e)
            ∙ right true e
        | inr e ↦ left false e ∙ h.by_id uid id ∙ right false e
      ]

  group-IsGrouped :
      (x : Metric n) (xs : List (Metric n)) (g : Grouped n)
      → IsGrouped xs g
      → IsGrouped (xs ++ x ∷ []) (group n x g)
  unfolding group
  group-IsGrouped x xs g h = record {
    is_map = alter-IsMap x.shard.uid (appended x) g.metrics_by_shard h.is_map;
    by_shard =
        grouped_by (λ y. y.shard.uid) nonempty x (appended x) xs g.metrics_by_shard
          (appended-nonempty x) h.by_shard;
    shards =
        grouped_by (λ y. y.shard.uid) (first_of (λ y. y.shard)) x (kept x.shard) xs g.shards_by_uid
          (kept-first (λ y. y.shard) x) h.shards;
    by_id = λ uid id. group-by_id x xs g uid id h;
    both = λ uid. ground (
      arith,
      find_key-alter x.shard.uid uid (noted n x) g.metrics_by_shard_by_id,
      find_key-alter x.shard.uid uid (appended x) g.metrics_by_shard,
      h.both uid,
    );
  }

  group_all-from :
      (ys xs : List (Metric n)) (g : Grouped n)
      → IsGrouped xs g
      → IsGrouped (xs ++ ys) (group_all n ys g)
  unfolding group_all
  group_all-from [] xs g h = subst (λ l. IsGrouped l g) (sym (append-nil xs)) h
  group_all-from (y ∷ ys) xs g h =
      subst (λ l. IsGrouped l (group_all n ys (group n y g))) (append_assoc xs (y ∷ []) ys)
        (group_all-from ys (xs ++ y ∷ []) (group n y g) (group-IsGrouped y xs g h))

  pub group_all-IsGrouped :
      (xs : List (Metric n)) → IsGrouped xs (group_all n xs (nothing_grouped n))
  unfolding find_key count_key select_by
  group_all-IsGrouped xs = group_all-from xs [] (nothing_grouped n) record {
    is_map = λ k. refl;
    by_shard = λ uid. refl;
    shards = λ uid. refl;
    by_id = λ uid id. refl;
    both = λ uid. refl;
  }
