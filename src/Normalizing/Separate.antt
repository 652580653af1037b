-- ===== src/Normalizing/Separate.antt =====
-- Each metric ID is normalized by itself.
use argocd_autoscaler.Base.{
  Bool, suc, ◌≡◌, refl, ap, sym, subst, ◌∙◌, true, false, none, some, List, [], ◌∷◌, ◌++◌, arith,
  if◌then◌else◌, Bool-cases, inl, inr, All, All-map, All-Permᴰ, some_inj,
}
use mathlib.Core.Path.{ap₂}
use mathlib.Core.List.{Permᴰ, append-nil}
use mathlib.Core.List.Permᴰ
use argocd_autoscaler.Text.{Text, text_eq}
use argocd_autoscaler.Text.Order.{text_eq→eq}
use argocd_autoscaler.Arithmetic.{Arithmetic}
use argocd_autoscaler.Maps.{find_key, count_key, count_key-Permᴰ, present, entries-found}
use argocd_autoscaler.Grouping.{
  select_by, select_by-append, select_by-All, select_by_same, select_by_other, nonempty,
  nonempty_lem, IsGrouping, group_by-IsGrouping,
}
use argocd_autoscaler.LoadIndexing.{Metric, ById}
use argocd_autoscaler.LoadIndexing.Groups.{of_id}
use argocd_autoscaler.Outcomes.{Outcome, returned, or_fail}
use argocd_autoscaler.Normalizing.{
  scaled, scale_one, scale_all, compute_median, compute_iqr, sorted_values, normalize_group,
  normalize_groups, group_by_id, shift, normalize,
}
use argocd_autoscaler.Outcomes.{returned_inj, >>=-eq_returned}

module _ (n : Arithmetic) where
  abbrev HasId : Text → Metric n → Type 0
  HasId k x = x.id ≡ k

  scale_one-HasId :
      (median iqr : n.Float) (k : Text) (x : Metric n) {y : Metric n}
      → scale_one n median iqr x ≡ returned y
      → HasId k x
      → HasId k y
  scale_one-HasId median iqr k x h e =
      let (q, read, same) =
        >>=-eq_returned (or_fail (n.parse (n.format (scaled n median iqr x)))) _ h in
      subst (HasId k) (returned_inj same) e

  scale_all-HasId :
      (median iqr : n.Float) (k : Text) (xs ys : List (Metric n))
      → scale_all n median iqr xs ≡ returned ys
      → All (HasId k) xs
      → All (HasId k) ys
  unfolding scale_all
  scale_all-HasId median iqr k [] ys h a = subst (All (HasId k)) (returned_inj h) tt
  scale_all-HasId median iqr k (x ∷ xs) ys h a =
      let (y, first, h') = >>=-eq_returned (scale_one n median iqr x) _ h in
      let (zs, rest, same) = >>=-eq_returned (scale_all n median iqr xs) _ h' in
      subst (All (HasId k)) (returned_inj same)
        (scale_one-HasId median iqr k x first a.0, scale_all-HasId median iqr k xs zs rest a.1)

  module _ (sort : List n.Float → List n.Float) where
    normalize_group-HasId :
        (k : Text) (xs ys : List (Metric n))
        → normalize_group n sort xs ≡ returned ys
        → All (HasId k) xs
        → All (HasId k) ys
    unfolding normalize_group
    normalize_group-HasId k xs ys h a =
        let (median, m, h') = >>=-eq_returned (compute_median n (sorted_values n sort xs)) _ h in
        let (iqr, i, h'') = >>=-eq_returned (compute_iqr n (sorted_values n sort xs)) _ h' in
        scale_all-HasId median iqr k xs ys h'' a

    -- A group of the map, with its ID.
    abbrev Tagged : Text × List (Metric n) → Type 0
    Tagged e = All (HasId e.0) e.1

    normalize_groups-absent :
        (es : ById n) (ys : List (Metric n)) (id : Text)
        → normalize_groups n sort es ≡ returned ys
        → All Tagged es
        → count_key id es ≡ 0
        → of_id n id ys ≡ []
    unfolding normalize_groups count_key select_by
    normalize_groups-absent [] ys id h a c = subst (λ l. of_id n id l ≡ []) (returned_inj h) refl
    normalize_groups-absent ((k, xs) ∷ es) ys id h a c =
        let (us, first, h') = >>=-eq_returned (normalize_group n sort xs) _ h in
        let (vs, rest, same) = >>=-eq_returned (normalize_groups n sort es) _ h' in
        elim (Bool-cases (text_eq k id)) [
          | inl e ↦ ground (arith, c, e)
          | inr e ↦
              let c' = ap (λ b. if b then suc (count_key id es) else count_key id es) (sym e) ∙ c in
              subst (λ l. of_id n id l ≡ []) (returned_inj same)
                (select_by-append (λ x. x.id) id us vs
                  ∙ ap₂ (λ l r. l ++ r)
                      (select_by_other (λ x. x.id) id k us e
                        (normalize_group-HasId k xs us first a.0))
                      (normalize_groups-absent es vs id rest a.1 c'))
        ]

    normalize_groups-present :
        (m es : ById n) (ys g : List (Metric n)) (id : Text)
        → normalize_groups n sort es ≡ returned ys
        → All (λ e. Tagged e × find_key e.0 m ≡ some e.1) es
        → find_key id m ≡ some g
        → count_key id es ≡ 1
        → normalize_group n sort g ≡ returned (of_id n id ys)
    unfolding normalize_groups count_key select_by
    normalize_groups-present m [] ys g id h a f c = ground (arith, c)
    normalize_groups-present m ((k, xs) ∷ es) ys g id h a f c =
        let (us, first, h') = >>=-eq_returned (normalize_group n sort xs) _ h in
        let (vs, rest, same) = >>=-eq_returned (normalize_groups n sort es) _ h' in
        let tagged = normalize_group-HasId k xs us first a.0.0 in
        let counted = λ (b : Bool) (e : text_eq k id ≡ b).
          ap (λ t. if t then suc (count_key id es) else count_key id es) (sym e) ∙ c in
        let split = select_by-append (λ x. x.id) id us vs in
        elim (Bool-cases (text_eq k id)) [
          | inl e ↦
              let here = text_eq→eq k id e in
              let same_group = some_inj (sym f ∙ ap (λ i. find_key i m) (sym here) ∙ a.0.1) in
              let none_left =
                normalize_groups-absent es vs id rest (All-map es (λ x t. t.0) a.1)
                  (ground (arith, counted true e)) in
              let all =
                select_by_same (λ x. x.id) id us (subst (λ i. All (HasId i) us) here tagged) in
              ap (normalize_group n sort) same_group
              ∙ first
              ∙ ap returned (
                  sym (split ∙ ap₂ (λ l r. l ++ r) all none_left ∙ append-nil us)
                  ∙ ap (of_id n id) (returned_inj same))
          | inr e ↦
              let none_here = select_by_other (λ x. x.id) id k us e tagged in
              normalize_groups-present m es vs g id rest a.1 f (counted false e)
              ∙ ap returned (
                  sym (split ∙ ap (λ l. l ++ of_id n id vs) none_here)
                  ∙ ap (of_id n id) (returned_inj same))
        ]

    -- What the metrics of one ID come to: nothing if there are none.
    abbrev pub normalize_alone : List (Metric n) → Outcome (List (Metric n))
    normalize_alone [] = returned []
    normalize_alone (x ∷ xs) = normalize_group n sort (x ∷ xs)

    module _ (order : ById n → ById n) (rearranges : (es : ById n) → Permᴰ (order es) es)
        (xs : List (Metric n)) where
      abbrev groups : ById n
      groups = group_by_id n xs

      grouping : IsGrouping (λ x. x.id) xs groups
      grouping = group_by-IsGrouping (λ x. x.id) xs

      tagged_lem :
          (e : Text × List (Metric n))
          → find_key e.0 groups ≡ some e.1
          → Tagged e × find_key e.0 groups ≡ some e.1
      tagged_lem e found =
          let (x, rest, some_metric, same) =
            nonempty_lem (of_id n e.0 xs) e.1 (sym (grouping.groups e.0) ∙ found) in
          (subst (All (HasId e.0)) (sym same) (select_by-All (λ x. x.id) e.0 xs), found)

      walked : All (λ e. Tagged e × find_key e.0 groups ≡ some e.1) (order groups)
      walked =
          All-map (order groups) tagged_lem
            (All-Permᴰ _ (Permᴰ.symm (rearranges groups)) (entries-found groups grouping.is_map))

      counted : (id : Text) → count_key id (order groups) ≡ present (find_key id groups)
      counted id = count_key-Permᴰ id (rearranges groups) ∙ grouping.is_map id

      alone_lem :
          (ys : List (Metric n)) (id : Text) (l : List (Metric n))
          → normalize_groups n sort (order groups) ≡ returned ys
          → find_key id groups ≡ nonempty l
          → normalize_alone l ≡ returned (of_id n id ys)
      alone_lem ys id [] h e = ap returned (
          sym (
            normalize_groups-absent (order groups) ys id h
              (All-map (order groups) (λ e t. t.0) walked) (counted id ∙ ap present e)))
      alone_lem ys id (x ∷ l) h e =
          normalize_groups-present groups (order groups) ys (x ∷ l) id h walked e
            (counted id ∙ ap present e)

      -- Whatever the order in which Go walks the map of metric IDs: if Normalize succeeds without an
      -- offset, the metrics of each ID in its result are, in their order, what it makes of the
      -- metrics of that ID alone, and there are none of an ID that did not come in. So neither the
      -- other IDs nor the order of the map change the result for an ID.
      pub normalize-alone :
          {ys : List (Metric n)}
          → normalize n sort order none xs ≡ returned ys
          → (id : Text) → normalize_alone (of_id n id xs) ≡ returned (of_id n id ys)
      unfolding normalize shift
      normalize-alone {ys} h id =
          let (zs, normalized, same) =
            >>=-eq_returned (normalize_groups n sort (order groups)) (shift n none) h in
          alone_lem ys id (of_id n id xs) (normalized ∙ same) (grouping.groups id)
