-- ===== src/LoadIndexing/Indexes.antt =====
-- What Calculate makes of the metrics.
use argocd_autoscaler.Base.{
  ℕ, suc, ◌≡◌, refl, ap, sym, subst, ◌∙◌, Bool, true, false, some, List, [], ◌∷◌, arith,
  if◌then◌else◌, length, Bool-cases, Option-cases, inl, inr, All, All-map, All-Permᴰ, some_inj,
}
use mathlib.Core.Path.{ap₂}
use mathlib.Core.List.{Permᴰ}
use mathlib.Core.List.Permᴰ
use argocd_autoscaler.Text.{Text, text_eq}
use argocd_autoscaler.Arithmetic.{Arithmetic}
use argocd_autoscaler.Api.{LoadIndex}
use argocd_autoscaler.Maps.{find_key, count_key, count_key-Permᴰ, present, entries-found}
use argocd_autoscaler.LoadIndexing.{
  Metric, ById, Grouped, Weights, group_all, nothing_grouped, is_single, has_each, all_have_each,
  load_index, index_one, index_all, indexed, and_index, shard_or_zero, calculate,
}
use argocd_autoscaler.Grouping.{select_by, nonempty, first_of, select_by-head, nonempty_lem}
use argocd_autoscaler.LoadIndexing.Groups.{of_shard, of_id, find_id, IsGrouped, group_all-IsGrouped}

single_lem : {A : Type 0} (ys : List A) → is_single (nonempty ys) ≡ true → length ys ≡ 1
single_lem [] h = ground (arith, h)
single_lem (y ∷ ys) h = ground (arith, h)

module _ (n : Arithmetic) (p : n.Float) (ws : Weights n) (values : List (Metric n)) where
  -- A load index of a shard: the first metric names the shard, and the value is what ParseQuantity
  -- reads of the p-norm over the metrics of the shard, among which each weighted ID is once.
  pub record IsIndex (l : LoadIndex n.Quantity) : Type 0 where
    pub first : Metric n
    pub others : List (Metric n)
    pub metrics : of_shard n l.shard.uid values ≡ first ∷ others
    pub shard : l.shard ≡ first.shard
    pub display : l.display_value ≡ n.format (load_index n p ws (first ∷ others))
    pub value : n.parse l.display_value ≡ some l.value
    pub single : All (λ w. length (of_id n w.0 (first ∷ others)) ≡ 1) ws

  abbrev groups : Grouped n
  groups = group_all n values (nothing_grouped n)

  grouped : IsGrouped n values groups
  grouped = group_all-IsGrouped n values

  has_each_lem :
      (g : ById n) (vs : Weights n)
      → has_each n g vs ≡ true
      → All (λ w. is_single (find_key w.0 g) ≡ true) vs
  unfolding has_each
  has_each_lem g [] h = tt
  has_each_lem g ((id, w) ∷ vs) h = (ground (arith, h), has_each_lem g vs (ground (arith, h)))

  all_have_each_lem :
      (m : List (Text × ById n)) (uid : Text) (g : ById n)
      → all_have_each n m ws ≡ true
      → find_key uid m ≡ some g
      → has_each n g ws ≡ true
  unfolding all_have_each find_key
  all_have_each_lem [] uid g h e = ground (arith, e)
  all_have_each_lem ((u, f) ∷ m) uid g h e = elim (Bool-cases (text_eq u uid)) [
    | inl e' ↦
        subst (λ x. has_each n x ws ≡ true)
          (some_inj (ap (λ b. if b then some f else find_key uid m) (sym e') ∙ e))
          (ground (arith, h))
    | inr e' ↦
        all_have_each_lem m uid g (ground (arith, h))
          (ap (λ b. if b then some f else find_key uid m) (sym e') ∙ e)
  ]

  single_of :
      (uid : Text) (xs : List (Metric n))
      → all_have_each n groups.metrics_by_shard_by_id ws ≡ true
      → find_key uid groups.metrics_by_shard ≡ some xs
      → All (λ w. length (of_id n w.0 (of_shard n uid values)) ≡ 1) ws
  single_of uid xs h e = elim (Option-cases (find_key uid groups.metrics_by_shard_by_id)) [
    | inl e' ↦ ground (arith, e, e', grouped.both uid)
    | inr (g, e') ↦
        All-map ws
          (λ w s.
            single_lem (of_id n w.0 (of_shard n uid values))
              (ap is_single (sym (ap (find_id n w.0) (sym e') ∙ grouped.by_id uid w.0)) ∙ s))
          (has_each_lem g ws (all_have_each_lem groups.metrics_by_shard_by_id uid g h e'))
  ]

  index_one_lem :
      (uid : Text) (xs : List (Metric n)) (l : LoadIndex n.Quantity)
      → all_have_each n groups.metrics_by_shard_by_id ws ≡ true
      → find_key uid groups.metrics_by_shard ≡ some xs
      → index_one n p ws groups.shards_by_uid uid xs ≡ some l
      → IsIndex l × l.shard.uid ≡ uid
  unfolding index_one
  index_one_lem uid xs l h e e' =
      let (x, rest, some_metric, same) =
        nonempty_lem (of_shard n uid values) xs (sym (grouped.by_shard uid) ∙ e) in
      let all = same ∙ some_metric in
      let named = select_by-head (λ y. y.shard.uid) uid values some_metric in
      let found =
        ap shard_or_zero (grouped.shards uid ∙ ap (first_of (λ y. y.shard)) some_metric) in
      elim (Option-cases (n.parse (n.format (load_index n p ws xs)))) [
        | inl none_read ↦ ground (
          arith,
          e',
          ap
              (indexed n (shard_or_zero (find_key uid groups.shards_by_uid))
                (n.format (load_index n p ws xs)))
              none_read,
        )
        | inr (q, read) ↦
            subst (λ k. IsIndex k × k.shard.uid ≡ uid)
              (ap₂
                  (λ sh ys. record {
                    shard = sh;
                    value = q;
                    display_value = n.format (load_index n p ws ys);
                  })
                  (sym found) (sym all)
                ∙ some_inj (
                    ap
                      (indexed n (shard_or_zero (find_key uid groups.shards_by_uid))
                        (n.format (load_index n p ws xs)))
                      (sym read)
                    ∙ e'))
              (
                record {
                  first = x;
                  others = rest;
                  metrics = ap (λ u. of_shard n u values) named ∙ some_metric;
                  shard = refl;
                  display = refl;
                  value = ap (λ ys. n.parse (n.format (load_index n p ws ys))) (sym all) ∙ read;
                  single =
                      subst (λ ys. All (λ w. length (of_id n w.0 ys) ≡ 1) ws) some_metric
                        (single_of uid xs h e);
                },
                named,
              )
      ]

  length-cons :
      (b : Bool) (l : LoadIndex n.Quantity) (ls : List (LoadIndex n.Quantity)) (c : ℕ)
      → length ls ≡ c
      → length (if b then l ∷ ls else ls) ≡ (if b then suc c else c)
  length-cons true l ls c h = ap suc h
  length-cons false l ls c h = h

  index_all_lem :
      (es : List (Text × List (Metric n))) (ls : List (LoadIndex n.Quantity))
      → all_have_each n groups.metrics_by_shard_by_id ws ≡ true
      → All (λ e. find_key e.0 groups.metrics_by_shard ≡ some e.1) es
      → index_all n p ws groups.shards_by_uid es ≡ some ls
      → All IsIndex ls × ((u : Text) → length (select_by (λ l. l.shard.uid) u ls) ≡ count_key u es)
  unfolding index_all select_by count_key
  index_all_lem [] ls h a e =
      subst (λ k. All IsIndex k × ((u : Text) → length (select_by (λ l. l.shard.uid) u k) ≡ 0))
        (some_inj e) (tt, λ u. refl)
  index_all_lem ((uid, xs) ∷ es) ls h a e =
      let one = index_one n p ws groups.shards_by_uid uid xs in
      let rest = index_all n p ws groups.shards_by_uid es in
      elim (Option-cases one) [
        | inl e' ↦ ground (arith, e, ap (λ o. and_index n o rest) e')
        | inr (l, e') ↦ elim (Option-cases rest) [
          | inl e'' ↦ ground (arith, e, ap₂ (and_index n) e' e'')
          | inr (ls', e'') ↦
              let (index, named) = index_one_lem uid xs l h a.0 e' in
              let (indexes, counts) = index_all_lem es ls' h a.1 e'' in
              subst
                (λ k.
                  All IsIndex k
                  × ((u : Text)
                      → length (select_by (λ l. l.shard.uid) u k) ≡ count_key u ((uid, xs) ∷ es)))
                (some_inj (sym (ap₂ (and_index n) e' e'') ∙ e))
                (
                  (index, indexes),
                  λ u.
                      length-cons (text_eq l.shard.uid u) l _ (count_key u es) (counts u)
                      ∙ ap (λ i. if text_eq i u then suc (count_key u es) else count_key u es)
                          named,
                )
        ]
      ]

  pub calculate-Indexes :
      (order : List (Text × List (Metric n)) → List (Text × List (Metric n)))
      → ((es : List (Text × List (Metric n))) → Permᴰ (order es) es)
      → {ls : List (LoadIndex n.Quantity)} → calculate n order p ws values ≡ some ls
      → All IsIndex ls
        × ((uid : Text)
            → length (select_by (λ l. l.shard.uid) uid ls)
              ≡ present (nonempty (of_shard n uid values)))
  unfolding calculate
  calculate-Indexes order rearranges {ls} e =
      elim (Bool-cases (all_have_each n groups.metrics_by_shard_by_id ws)) [
        | inl h ↦
            let walked = order groups.metrics_by_shard in
            let permuted = rearranges groups.metrics_by_shard in
            let (indexes, counts) =
              index_all_lem walked ls h
                (All-Permᴰ _ (Permᴰ.symm permuted)
                  (entries-found groups.metrics_by_shard grouped.is_map))
                (rw h at e) in
            (
              indexes,
              λ uid.
                  counts uid
                  ∙ count_key-Permᴰ uid permuted
                  ∙ grouped.is_map uid
                  ∙ ap present (grouped.by_shard uid),
            )
        | inr h ↦ ground (arith, rw h at e)
      ]
