-- ===== src/Normalizing/Offset.antt =====
-- The offset that makes the normalized values positive.
use argocd_autoscaler.Base.{
  ◌≡◌, refl, ap, subst, true, false, none, some, List, [], ◌∷◌, arith, Bool-cases, inl, inr, All,
  All-map, ℕ, suc, get_elem?, ◌⊎◌, ◌∙◌, Pairwise,
}
use argocd_autoscaler.Arithmetic.{Arithmetic, IsRounded}
use argocd_autoscaler.LoadIndexing.{Metric, ById}
use argocd_autoscaler.Outcomes.{returned, ◌>>=◌, or_panic}
use argocd_autoscaler.Normalizing.{
  shift_one, shift_all, shift, normalize_groups, group_by_id, normalize, widen, find_range,
  no_range, offset_of,
}
use argocd_autoscaler.Outcomes.{returned_inj, >>=-eq_returned, or_panic-eq_returned}

module _ (n : Arithmetic) where
  -- An output of Normalize with the offset, and the same output without it.
  pub record IsShifted (offset : n.Float) (x y : Metric n) : Type 0 where
    pub same_id : y.id ≡ x.id
    pub same_shard : y.shard ≡ x.shard
    pub same_query : y.query ≡ x.query
    pub same_display : y.display_value ≡ x.display_value
    pub value : n.parse (n.format (n.add (n.as_float x.value) offset)) ≡ some y.value

  shift_one-IsShifted :
      (offset : n.Float) (x : Metric n) {y : Metric n}
      → shift_one n offset x ≡ returned y
      → IsShifted offset x y
  shift_one-IsShifted offset x h =
      let (q, read, same) =
        >>=-eq_returned (or_panic (n.parse (n.format (n.add (n.as_float x.value) offset)))) _ h in
      subst (IsShifted offset x) (returned_inj same) (record {
        same_id = refl;
        same_shard = refl;
        same_query = refl;
        same_display = refl;
        value = or_panic-eq_returned _ read;
      })

  pub shift_all-IsShifted :
      (offset : n.Float) (xs ys : List (Metric n))
      → shift_all n offset xs ≡ returned ys
      → Pairwise (IsShifted offset) xs ys
  unfolding shift_all
  shift_all-IsShifted offset [] ys h = subst (Pairwise (IsShifted offset) []) (returned_inj h) tt
  shift_all-IsShifted offset (x ∷ xs) ys h =
      let (y, first, h') = >>=-eq_returned (shift_one n offset x) _ h in
      let (zs, rest, same) = >>=-eq_returned (shift_all n offset xs) _ h' in
      subst (Pairwise (IsShifted offset) (x ∷ xs)) (returned_inj same)
        (shift_one-IsShifted offset x first, shift_all-IsShifted offset xs zs rest)

  -- A value of one of the metrics.
  abbrev pub IsAmong : List (Metric n) → n.Float → Type 0
  IsAmong zs v = (j : ℕ) × (z : Metric n) × (get_elem? zs j ≡ some z) × (v ≡ n.as_float z.value)

  find_range-is :
      (zs : List (Metric n)) (r : n.Float × n.Float)
      → (((find_range n zs r).0 ≡ r.0) ⊎ IsAmong zs (find_range n zs r).0)
        × (((find_range n zs r).1 ≡ r.1) ⊎ IsAmong zs (find_range n zs r).1)
  unfolding find_range
  find_range-is [] r = (inl refl, inl refl)
  find_range-is (z ∷ zs) r =
      let (l, g) = find_range-is zs (widen n z r) in
      (
        elim l [
          | inr (j, y, at, e) ↦ inr (suc j, y, at, e)
          | inl e ↦ elim (Bool-cases (n.lt (n.as_float z.value) r.0)) [
            | inl c ↦ inr (0, z, refl, e ∙ rw c refl)
            | inr c ↦ inl (e ∙ rw c refl)
          ]
        ],
        elim g [
          | inr (j, y, at, e) ↦ inr (suc j, y, at, e)
          | inl e ↦ elim (Bool-cases (n.lt r.1 (n.as_float z.value))) [
            | inl c ↦ inr (0, z, refl, e ∙ rw c refl)
            | inr c ↦ inl (e ∙ rw c refl)
          ]
        ],
      )

  -- The least and the greatest value of metrics; the search starts from the largest float64 and its
  -- negative, which stay where there is no metric.
  pub record IsRange (zs : List (Metric n)) (least greatest : n.Float) : Type 0 where
    pub below : All (λ z. n.lt (n.as_float z.value) least ≡ false) zs
    pub above : All (λ z. n.lt greatest (n.as_float z.value) ≡ false) zs
    pub least_is : (least ≡ n.max_float) ⊎ IsAmong zs least
    pub greatest_is : (greatest ≡ n.neg n.max_float) ⊎ IsAmong zs greatest

  module _ (laws : IsRounded n) where
    AtMost : n.Float → n.Float → Type 0
    AtMost x y = n.lt y x ≡ false

    AtMost-refl : (x : n.Float) → AtMost x x
    unfolding AtMost
    AtMost-refl x = laws.ordered.lt_irrefl x

    AtMost-trans : (x y z : n.Float) → AtMost x y → AtMost y z → AtMost x z
    unfolding AtMost
    AtMost-trans x y z h k = laws.lt_cotrans z y x k h

    AtMost-of_lt : (x y : n.Float) → n.lt x y ≡ true → AtMost x y
    unfolding AtMost
    AtMost-of_lt x y h = elim (Bool-cases (n.lt y x)) [
      | inl e ↦ absurd (ground (arith, laws.ordered.lt_trans x y x h e, laws.ordered.lt_irrefl x))
      | inr e ↦ e
    ]

    -- One range lies within another.
    record IsWithin (r s : n.Float × n.Float) : Type 0 where
      lower : AtMost s.0 r.0
      upper : AtMost r.1 s.1

    abbrev Holds : n.Float × n.Float → Metric n → Type 0
    Holds r x = AtMost r.0 (n.as_float x.value) × AtMost (n.as_float x.value) r.1

    widen-lower :
        (x : Metric n) (r : n.Float × n.Float)
        → AtMost (widen n x r).0 r.0 × AtMost (widen n x r).0 (n.as_float x.value)
    widen-lower x r = elim (Bool-cases (n.lt (n.as_float x.value) r.0)) [
      | inl e ↦ rw e (AtMost-of_lt _ _ e, AtMost-refl _)
      | inr e ↦ rw e (AtMost-refl _, unfold AtMost in e)
    ]

    widen-upper :
        (x : Metric n) (r : n.Float × n.Float)
        → AtMost r.1 (widen n x r).1 × AtMost (n.as_float x.value) (widen n x r).1
    widen-upper x r = elim (Bool-cases (n.lt r.1 (n.as_float x.value))) [
      | inl e ↦ rw e (AtMost-of_lt _ _ e, AtMost-refl _)
      | inr e ↦ rw e (AtMost-refl _, unfold AtMost in e)
    ]

    find_range-IsWithin :
        (xs : List (Metric n)) (r : n.Float × n.Float) → IsWithin r (find_range n xs r)
    unfolding find_range
    find_range-IsWithin [] r = record { lower = AtMost-refl r.0; upper = AtMost-refl r.1 }
    find_range-IsWithin (x ∷ xs) r =
        let h = find_range-IsWithin xs (widen n x r) in
        record {
          lower = AtMost-trans _ _ _ h.lower (widen-lower x r).0;
          upper = AtMost-trans _ _ _ (widen-upper x r).0 h.upper;
        }

    find_range-Holds :
        (xs : List (Metric n)) (r : n.Float × n.Float) → All (Holds (find_range n xs r)) xs
    unfolding find_range
    find_range-Holds [] r = tt
    find_range-Holds (x ∷ xs) r =
        let h = find_range-IsWithin xs (widen n x r) in
        (
          (
            AtMost-trans _ _ _ h.lower (widen-lower x r).1,
            AtMost-trans _ _ _ (widen-upper x r).1 h.upper,
          ),
          find_range-Holds xs (widen n x r),
        )

    pub find_range-IsRange :
        (zs : List (Metric n))
        → IsRange zs (find_range n zs (no_range n)).0 (find_range n zs (no_range n)).1
    unfolding AtMost
    find_range-IsRange zs =
        let r = find_range n zs (no_range n) in
        let h = find_range-Holds zs (no_range n) in
        record {
          below = All-map zs (λ z b. b.0) h;
          above = All-map zs (λ z b. b.1) h;
          least_is = (find_range-is zs (no_range n)).0;
          greatest_is = (find_range-is zs (no_range n)).1;
        }

    -- With an offset that the range gives, a value of the range becomes nonnegative.
    shifted-nonnegative :
        (e : n.Float) (r : n.Float × n.Float) (x y : Metric n)
        → n.lt e (n.of_nat 0) ≡ false
        → Holds r x
        → IsShifted (offset_of n e r) x y
        → n.lt (n.as_float y.value) (n.of_nat 0) ≡ false
    unfolding AtMost
    shifted-nonnegative e r x y h (low, high) s =
        let v = n.as_float x.value in
        let c = n.mul e (n.sub r.1 r.0) in
        let spread =
          laws.mul_nonnegative e (n.sub r.1 r.0) h
            (laws.sub_nonnegative r.1 r.0 (AtMost-trans r.0 v r.1 low high)) in
        let grown =
          laws.add_mono v r.0 (offset_of n e r) (n.neg r.0) low
            (laws.add_nonnegative (n.neg r.0) c spread) in
        laws.parse_nonnegative (n.add v (offset_of n e r)) y.value s.value
          (laws.lt_cotrans _ _ _ grown (laws.add_neg r.0))

    nonnegative_lem :
        (e : n.Float) (r : n.Float × n.Float) (xs ys : List (Metric n))
        → n.lt e (n.of_nat 0) ≡ false
        → All (Holds r) xs
        → Pairwise (IsShifted (offset_of n e r)) xs ys
        → All (λ y. n.lt (n.as_float y.value) (n.of_nat 0) ≡ false) ys
    nonnegative_lem e r [] [] h a s = tt
    nonnegative_lem e r [] (y ∷ ys) h a s = absurd s
    nonnegative_lem e r (x ∷ xs) [] h a s = absurd s
    nonnegative_lem e r (x ∷ xs) (y ∷ ys) h a s =
        (shifted-nonnegative e r x y h a.0 s.0, nonnegative_lem e r xs ys h a.1 s.1)

    module _ (sort : List n.Float → List n.Float) (order : ById n → ById n) where
      -- Where rounding keeps the order of numbers and the offset's factor is not negative: if
      -- Normalize succeeds with an offset, it succeeds without one, and the two results differ by one
      -- number that is added to every value, so that each metric keeps its ID, its shard, its query
      -- and its place; no value of the result with the offset is negative; and the text that goes
      -- with each value is still that of the value without the offset.
      pub normalize_offset :
          (e : n.Float) (xs : List (Metric n)) {ys : List (Metric n)}
          → n.lt e (n.of_nat 0) ≡ false
          → normalize n sort order (some e) xs ≡ returned ys
          → (zs : List (Metric n)) × (offset : n.Float) × (normalize n sort order none xs
              ≡ returned zs)
            × Pairwise (IsShifted offset) zs ys
            × All (λ y. n.lt (n.as_float y.value) (n.of_nat 0) ≡ false) ys
      unfolding normalize shift
      normalize_offset e xs {ys} h k =
          let groups = normalize_groups n sort (order (group_by_id n xs)) in
          let (zs, normalized, shifted) = >>=-eq_returned groups (shift n (some e)) k in
          let r = find_range n zs (no_range n) in
          let pairs = shift_all-IsShifted (offset_of n e r) zs ys shifted in
          (
            zs,
            offset_of n e r,
            ap (λ o. o >>= shift n none) normalized,
            pairs,
            nonnegative_lem e r zs ys h (find_range-Holds zs (no_range n)) pairs,
          )
