-- ===== src/Normalizing.antt =====
-- The robust scaling normalizer: normalizers/robustscaling. A Go map is an association list with
-- one entry for each key; the order in which a map is walked is a parameter, and so is sort.Float64s.
pub mod Middles
pub mod Quartiles
pub mod Separate
pub mod Total
pub mod Offset
pub mod Order
pub mod Reconcile
pub mod Publishing
use argocd_autoscaler.Base.{
  ◌+◌, ◌-◌, ◌/◌, ◌%◌, Option, none, some, List, [], ◌∷◌, ◌++◌, map, if◌then◌else◌, length,
  get_elem?, take, drop, ltb, ◌==◌,
}
use argocd_autoscaler.Text.{Text}
use argocd_autoscaler.Arithmetic.{Arithmetic}
use argocd_autoscaler.Grouping.{group_by}
use argocd_autoscaler.LoadIndexing.{Metric, ById}
use argocd_autoscaler.Outcomes.{Outcome, returned, panicked, ◌>>=◌, or_panic, or_fail}

module _ (n : Arithmetic) where
  -- Lines 41 to 47.
  abbrev pub group_by_id : List (Metric n) → ById n
  group_by_id xs = group_by (λ x. x.id) xs []

  -- Line 136.
  abbrev pub mean_of : Option n.Float → Option n.Float → Outcome n.Float
  mean_of a b = or_panic a >>= λ x. or_panic b >>= λ y. returned (n.div (n.add x y) (n.of_nat 2))

  -- Lines 129 to 139: an empty slice panics, and an index out of range would.
  unfoldable pub compute_median : List n.Float → Outcome n.Float
  compute_median sorted =
      let middle = length sorted / 2 in
      if length sorted == 0
      then panicked
      else if length sorted % 2 == 0
      then mean_of (get_elem? sorted (middle - 1)) (get_elem? sorted middle)
      else or_panic (get_elem? sorted middle)

  abbrev pub lower_half : List n.Float → List n.Float
  lower_half sorted = take (length sorted / 2) sorted

  abbrev pub upper_half : List n.Float → List n.Float
  upper_half sorted =
      if length sorted % 2 == 0
      then drop (length sorted / 2) sorted
      else drop (length sorted / 2 + 1) sorted

  -- Lines 143 to 160.
  unfoldable pub compute_quartiles : List n.Float → Outcome (n.Float × n.Float)
  unfolding compute_median
  compute_quartiles sorted = do
    q1 ← compute_median (lower_half sorted)
    q3 ← compute_median (upper_half sorted)
    returned (q1, q3)

  -- Lines 64 to 75.
  unfoldable pub compute_iqr : List n.Float → Outcome n.Float
  unfolding compute_quartiles
  compute_iqr sorted =
      if ltb 1 (length sorted)
      then (compute_quartiles sorted >>= λ q. returned (n.sub q.1 q.0))
      else returned (n.of_nat 0)

  -- Lines 79 to 87.
  abbrev pub scaled : n.Float → n.Float → Metric n → n.Float
  scaled median iqr x =
      if n.eq iqr (n.of_nat 0) then n.of_nat 0 else n.div (n.sub (n.as_float x.value) median) iqr

  abbrev pub with_value : Metric n → Text → n.Quantity → Metric n
  with_value x text q = record {
    id = x.id;
    shard = x.shard;
    query = x.query;
    value = q;
    display_value = text;
  }

  -- Lines 88 to 100.
  abbrev pub scale_one : n.Float → n.Float → Metric n → Outcome (Metric n)
  scale_one median iqr x =
      let text = n.format (scaled median iqr x) in
      or_fail (n.parse text) >>= λ q. returned (with_value x text q)

  -- Lines 78 to 101.
  unfoldable pub scale_all : n.Float → n.Float → List (Metric n) → Outcome (List (Metric n))
  scale_all median iqr [] = returned []
  scale_all median iqr (x ∷ xs) =
      scale_one median iqr x >>= λ y. scale_all median iqr xs >>= λ ys. returned (y ∷ ys)

  module _ (sort : List n.Float → List n.Float) where
    -- Lines 52 to 59.
    abbrev pub sorted_values : List (Metric n) → List n.Float
    sorted_values xs = sort (map (λ x. n.as_float x.value) xs)

    -- The body of the loop over the groups, lines 51 to 101.
    unfoldable pub normalize_group : List (Metric n) → Outcome (List (Metric n))
    unfolding compute_median compute_iqr scale_all
    normalize_group xs = do
      median ← compute_median (sorted_values xs)
      iqr ← compute_iqr (sorted_values xs)
      scale_all median iqr xs

    unfoldable pub normalize_groups : ById n → Outcome (List (Metric n))
    unfolding normalize_group
    normalize_groups [] = returned []
    normalize_groups ((id, xs) ∷ es) =
        normalize_group xs >>= λ ys. normalize_groups es >>= λ zs. returned (ys ++ zs)

  -- Lines 105 to 114: the first and the second of the pair are minValue and maxValue.
  abbrev pub widen : Metric n → n.Float × n.Float → n.Float × n.Float
  widen x r = (
    if n.lt (n.as_float x.value) r.0 then n.as_float x.value else r.0,
    if n.lt r.1 (n.as_float x.value) then n.as_float x.value else r.1,
  )

  unfoldable pub find_range : List (Metric n) → n.Float × n.Float → n.Float × n.Float
  find_range [] r = r
  find_range (x ∷ xs) r = find_range xs (widen x r)

  -- The constant math.MaxFloat64 * -1 is -MaxFloat64.
  abbrev pub no_range : n.Float × n.Float
  no_range = (n.max_float, n.neg n.max_float)

  -- Lines 115 to 116.
  abbrev pub offset_of : n.Float → n.Float × n.Float → n.Float
  offset_of e r = n.add (n.neg r.0) (n.mul e (n.sub r.1 r.0))

  -- Lines 118 to 120: MustParse panics on an error, and only the value is written.
  abbrev pub shift_one : n.Float → Metric n → Outcome (Metric n)
  shift_one offset x = or_panic (n.parse (n.format (n.add (n.as_float x.value) offset))) >>= λ q.
      returned (record x { value = q })

  -- Lines 117 to 121.
  unfoldable pub shift_all : n.Float → List (Metric n) → Outcome (List (Metric n))
  shift_all offset [] = returned []
  shift_all offset (x ∷ xs) =
      shift_one offset x >>= λ y. shift_all offset xs >>= λ ys. returned (y ∷ ys)

  -- Lines 104 to 122.
  unfoldable pub shift : Option n.Float → List (Metric n) → Outcome (List (Metric n))
  unfolding find_range shift_all
  shift none xs = returned xs
  shift (some e) xs = shift_all (offset_of e (find_range xs no_range)) xs

  -- NormalizerImpl.Normalize; `order` is the order in which metricsByID is walked.
  module _ (sort : List n.Float → List n.Float) (order : ById n → ById n) where
    unfoldable pub normalize : Option n.Float → List (Metric n) → Outcome (List (Metric n))
    unfolding group_by normalize_groups shift
    normalize e xs = normalize_groups sort (order (group_by_id xs)) >>= shift e
