-- ===== src/Examples/Loads.antt =====
-- Load indexes of two shards with two metrics each.
use Prim.Native.String.{String}
use argocd_autoscaler.Base.{ℕ, refl, Option, none, some, List, [], ◌∷◌, All}
use mathlib.Core.List.Permᴰ
use argocd_autoscaler.Text.{Text, bytes}
use argocd_autoscaler.Arithmetic.{whole}
use argocd_autoscaler.Api.{LoadIndex}
use argocd_autoscaler.Controller.{last_condition, ok, ready, Error}
use argocd_autoscaler.LoadIndexing.{Weight, Weights, Metric}
use argocd_autoscaler.LoadIndexing.Reconcile.{
  Resource, MetricValuesProvider, Call, found, reconcile,
}
use argocd_autoscaler.LoadIndexing.Publishing.{IsCompleting, reconcile-IsCompleting}
use argocd_autoscaler.Examples.Shards.{shard}

abbrev pub measured : String → String → ℕ → Metric whole
measured s id k = record {
  id = bytes id;
  shard = shard s;
  query = [];
  value = k;
  display_value = [];
}

abbrev metrics : List (Metric whole)
metrics =
    measured "a" "cpu" 2
    ∷ measured "b" "cpu" 1
    ∷ measured "a" "apps" 5
    ∷ measured "b" "apps" 4
    ∷ measured "b" "pods" 9
    ∷ []

abbrev weighted : String → ℕ → Weight ℕ
weighted id k = record { id = bytes id; weight = k }

abbrev pub weights : Weights whole
weights = (bytes "apps", weighted "apps" 1) ∷ (bytes "cpu", weighted "cpu" 3) ∷ []

abbrev pub walk : List (Text × List (Metric whole)) → List (Text × List (Metric whole))
walk es = es

abbrev indexes : List (LoadIndex ℕ)
indexes =
    record { shard = shard "a"; value = 11; display_value = bytes "11" }
    ∷ record { shard = shard "b"; value = 7; display_value = bytes "7" }
    ∷ []

abbrev resource : Resource whole last_condition
resource = record {
  spec = record { p = 1; weights = weighted "cpu" 3 ∷ weighted "apps" 1 ∷ [] };
  status = record { conditions = none; values = [] };
}

abbrev provider : MetricValuesProvider whole last_condition
provider = record { conditions = some ready; values = metrics }

abbrev accepts : Call whole last_condition → Option Error
accepts c = none

reconcile-IsCompleting_example :
    All
      (IsCompleting whole last_condition provider resource)
      (reconcile whole last_condition walk accepts (found resource) (ok provider)).calls
reconcile-IsCompleting_example =
    reconcile-IsCompleting whole last_condition walk (λ es. Permᴰ.refl es) accepts
      (record { find-set = λ cs c. refl }) provider resource
