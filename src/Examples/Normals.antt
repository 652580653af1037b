-- ===== src/Examples/Normals.antt =====
-- The metrics of five shards, normalized.
use argocd_autoscaler.Base.{
  ℕ, ◌≡◌, refl, false, Option, none, some, List, [], ◌∷◌, All, Pairwise, arith, ltb,
}
use Prim.Native.String.{String}
use mathlib.Core.List.Permᴰ
use argocd_autoscaler.Text.{text_eq, bytes, decimal, parse_number}
use argocd_autoscaler.Text.Decimal.{parse_number-decimal}
use argocd_autoscaler.Arithmetic.{whole, whole-IsRounded}
use argocd_autoscaler.Sorting.{insertion_sort, insertion_sort-IsSort, IsSort, IsLess}
use argocd_autoscaler.Maps.{alter}
use argocd_autoscaler.Controller.{last_condition, ok, ready, Error}
use argocd_autoscaler.LoadIndexing.{Metric}
use argocd_autoscaler.LoadIndexing.Groups.{of_id}
use argocd_autoscaler.LoadIndexing.Reconcile.{MetricValuesProvider, found}
use argocd_autoscaler.Outcomes.{returned}
use argocd_autoscaler.Normalizing.{normalize}
use argocd_autoscaler.Outcomes.{Returns}
use argocd_autoscaler.Normalizing.Separate.{normalize_alone, normalize-alone}
use argocd_autoscaler.Normalizing.Total.{normalize-Returns}
use argocd_autoscaler.Normalizing.Order.{IsNormalized, normalize-IsNormalized}
use argocd_autoscaler.Normalizing.Offset.{IsShifted, normalize_offset}
use argocd_autoscaler.Normalizing.Reconcile.{Resource, Call, reconcile}
use argocd_autoscaler.Normalizing.Publishing.{IsPublishable, reconcile-IsPublishable}
use argocd_autoscaler.Examples.Loads.{measured, walk}

ltb-IsLess : IsLess ltb
ltb-IsLess = record { asymm = λ x y h. ground arith; cotrans = λ x y z h k. ground arith }

sorts : IsSort ltb (insertion_sort ltb)
sorts = insertion_sort-IsSort ltb ltb-IsLess

abbrev cpus : List (Metric whole)
cpus =
    measured "a" "cpu" 10
    ∷ measured "b" "apps" 4
    ∷ measured "b" "cpu" 11
    ∷ measured "c" "cpu" 50
    ∷ measured "d" "cpu" 10
    ∷ measured "e" "cpu" 10
    ∷ []

abbrev come_to : String → String → ℕ → String → Metric whole
come_to s id k text = record (measured s id k) { display_value = bytes text }

abbrev normals : List (Metric whole)
normals =
    come_to "a" "cpu" 0 "0"
    ∷ come_to "b" "cpu" 0 "0"
    ∷ come_to "c" "cpu" 2 "2"
    ∷ come_to "d" "cpu" 0 "0"
    ∷ come_to "e" "cpu" 0 "0"
    ∷ come_to "b" "apps" 0 "0"
    ∷ []

-- With the factor 3, the offset is 3 * (2 - 0).
abbrev offsets : List (Metric whole)
offsets =
    come_to "a" "cpu" 6 "0"
    ∷ come_to "b" "cpu" 6 "0"
    ∷ come_to "c" "cpu" 8 "2"
    ∷ come_to "d" "cpu" 6 "0"
    ∷ come_to "e" "cpu" 6 "0"
    ∷ come_to "b" "apps" 6 "0"
    ∷ []

cpus-normals : normalize whole (insertion_sort ltb) walk none cpus ≡ returned normals
unfolding normalize text_eq decimal parse_number alter insertion_sort
cpus-normals = refl

cpus-offsets : normalize whole (insertion_sort ltb) walk (some 3) cpus ≡ returned offsets
unfolding normalize text_eq decimal parse_number alter insertion_sort
cpus-offsets = refl

normalize-alone_example :
    normalize_alone whole (insertion_sort ltb) (of_id whole (bytes "cpu") cpus)
    ≡ returned (of_id whole (bytes "cpu") normals)
normalize-alone_example =
    normalize-alone whole (insertion_sort ltb) walk (λ es. Permᴰ.refl es) cpus cpus-normals
      (bytes "cpu")

normalize-Returns_example : Returns (normalize whole (insertion_sort ltb) walk (some 3) cpus)
normalize-Returns_example =
    normalize-Returns whole (insertion_sort ltb) sorts.permutes walk (λ es. Permᴰ.refl es)
      (λ x. (x, parse_number-decimal x)) (some 3) cpus

normalize-IsNormalized_example :
    IsNormalized whole (of_id whole (bytes "cpu") cpus) (of_id whole (bytes "cpu") normals)
normalize-IsNormalized_example =
    normalize-IsNormalized whole whole-IsRounded (insertion_sort ltb) sorts walk
      (λ es. Permᴰ.refl es) cpus cpus-normals (bytes "cpu")

normalize_offset_example :
    (zs : List (Metric whole)) × (offset : ℕ) × (normalize whole (insertion_sort ltb) walk none cpus
      ≡ returned zs)
    × Pairwise (IsShifted whole offset) zs offsets
    × All (λ y. ltb y.value 0 ≡ false) offsets
normalize_offset_example =
    normalize_offset whole whole-IsRounded (insertion_sort ltb) walk 3 cpus (ground arith)
      cpus-offsets

abbrev normalizer : Resource whole last_condition
normalizer = record {
  spec = record { positive_offset_e = some 3 };
  status = record { conditions = none; values = [] };
}

abbrev polled : MetricValuesProvider whole last_condition
polled = record { conditions = some ready; values = cpus }

abbrev takes : Call whole last_condition → Option Error
takes c = none

reconcile-IsPublishable_example :
    All
      (IsPublishable whole last_condition polled normalizer)
      (reconcile whole last_condition
        (insertion_sort ltb)
        walk
        takes
        (found normalizer)
        (ok polled)).calls
reconcile-IsPublishable_example =
    reconcile-IsPublishable whole last_condition (record { find-set = λ cs c. refl })
      whole-IsRounded (insertion_sort ltb) sorts walk (λ es. Permᴰ.refl es) takes polled normalizer
