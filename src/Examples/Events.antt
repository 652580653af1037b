-- ===== src/Examples/Events.antt =====
-- Events on a load index, and three partitions of its namespace.
use Prim.Native.String.{String}
use argocd_autoscaler.Base.{
  ℕ, ◌≡◌, ◌++◌, refl, ap, sym, ◌∙◌, true, Option, none, some, List, [], ◌∷◌, map, get_elem?, arith,
}
use argocd_autoscaler.Text.{Text, bytes, text_eq}
use argocd_autoscaler.Controller.{Result, ok, err}
use argocd_autoscaler.Watch.{Item, GroupKind, Request, request_of, map_object}
use argocd_autoscaler.Watch.Requests.{referring, map_object-referring, map_object-panics}
use argocd_autoscaler.Watch.Registry.{
  GroupVersionKind, empty, autoscaler_kind, stateful_set_kind, init,
}
use argocd_autoscaler.Watch.Setup.{Made, client_object, map_partition_provider}
use argocd_autoscaler.Watch.Roles.{
  Registrations, shard_manager, metric_values_provider, load_index_provider, partition_provider,
  replica_set_controller, evaluation, setup, register_all, registered, watches_of, all_made,
}
use argocd_autoscaler.Watch.Watching.{setup_watches}
use argocd_autoscaler.Watch.Lookup.{ApiMachinery, located, find_by_ref}
use argocd_autoscaler.Watch.Notified.{IsMachinery, find_by_ref_notified}

abbrev kind : GroupKind
kind = record { group = bytes "autoscaler.argoproj.io"; kind = bytes "WeightedPNormLoadIndex" }

abbrev item : String → Option Text → String → Item
item name group target = record {
  provider_ref = record {
    api_group = group;
    kind = bytes "WeightedPNormLoadIndex";
    name = bytes target;
  };
  name = bytes name;
  namespace = bytes "argocd";
}

abbrev first : Item
first = item "p" (some (bytes "autoscaler.argoproj.io")) "load"

abbrev second : Item
second = item "q" (some (bytes "autoscaler.argoproj.io")) "other"

abbrev third : Item
third = item "r" none "other"

-- The first partition is asked for.
first_only :
    map_object (bytes "load") (ok (kind ∷ [])) (ok (first ∷ second ∷ []))
    ≡ some (request_of first ∷ [])
unfolding map_object text_eq
first_only = refl

map_object-referring_example :
    map_object (bytes "load") (ok (kind ∷ [])) (ok (first ∷ second ∷ []))
    ≡ some (map request_of (referring (bytes "load") (kind ∷ []) (first ∷ second ∷ [])))
map_object-referring_example =
    map_object-referring (bytes "load") kind [] (first ∷ second ∷ [])
      (λ e. ground (arith, e), (λ e. ground (arith, e), tt))

map_object-panics_example :
    map_object (bytes "load") (ok (kind ∷ [])) (ok ((first ∷ []) ++ third ∷ second ∷ [])) ≡ none
map_object-panics_example =
    map_object-panics (bytes "load") kind [] (first ∷ []) (second ∷ []) third refl

-- A cluster in which each object that is asked for is there.
abbrev Found : Type 0
Found = GroupVersionKind × Text

abbrev everything : ApiMachinery
everything = record {
  Object = Found;
  version = λ g. ok (bytes "v1alpha1");
  create = λ g. ok (g, []);
  is_client_object = λ o. true;
  get = λ o name namespace. ok (o.0, name);
  name_of = λ o. o.1;
  kinds_of = λ o. ok (record { group = o.0.group; kind = o.0.kind } ∷ []);
}

abbrev name_or_nothing : Result Found → Text
name_or_nothing (ok o) = o.1
name_or_nothing (err e) = []

abbrev kind_or : GroupVersionKind → Result Found → GroupVersionKind
kind_or g (ok o) = o.0
kind_or g (err e) = g

everything-IsMachinery : IsMachinery everything
everything-IsMachinery = record {
  named = λ o o' name namespace h. ap name_or_nothing (sym h);
  kinds = λ g o o' name namespace h h'.
      let same = ap (kind_or g) (sym h') ∙ ap (kind_or g) (sym h) in
      (
        record { group = o'.0.group; kind = o'.0.kind },
        [],
        0,
        refl,
        ap (λ x. some (record { group = x.group; kind = x.kind })) same,
      );
}

abbrev target : Found
target = (record { group = kind.group; version = bytes "v1alpha1"; kind = kind.kind }, bytes "load")

target_found :
    find_by_ref everything (λ o. some o) (bytes "argocd") first.provider_ref ≡ located target
unfolding find_by_ref
target_found = refl

find_by_ref_notified_example :
    (o : Found) × (requests : List Request) × (k : ℕ) × (some o ≡ some target)
    × (map_object (everything.name_of o) (everything.kinds_of o) (ok (second ∷ first ∷ []))
        ≡ some requests)
    × (get_elem? requests k ≡ some (request_of first))
find_by_ref_notified_example =
    find_by_ref_notified everything everything-IsMachinery (λ o. some o) (second ∷ first ∷ []) 1
      first (λ e. ground (arith, e), (λ e. ground (arith, e), tt)) refl target_found

abbrev every_kind : GroupVersionKind → Made
every_kind g = client_object

setup_watches_example :
    setup every_kind
      (λ ws. true)
      evaluation
      (register_all
        ((partition_provider, autoscaler_kind (bytes "P"))
          ∷ (shard_manager, autoscaler_kind (bytes "S"))
          ∷ (partition_provider, autoscaler_kind (bytes "E"))
          ∷ [])
        empty)
    ≡ some (
        (autoscaler_kind (bytes "P"), map_partition_provider)
        ∷ (autoscaler_kind (bytes "E"), map_partition_provider)
        ∷ [])
unfolding all_made watches_of registered
setup_watches_example =
    setup_watches every_kind (λ ws. true) evaluation
      ((partition_provider, autoscaler_kind (bytes "P"))
        ∷ (shard_manager, autoscaler_kind (bytes "S"))
        ∷ (partition_provider, autoscaler_kind (bytes "E"))
        ∷ [])

-- The registrations of init.
abbrev initial : Registrations
initial =
    (shard_manager, autoscaler_kind (bytes "SecretTypeClusterShardManager"))
    ∷ (metric_values_provider, autoscaler_kind (bytes "PrometheusPoll"))
    ∷ (metric_values_provider, autoscaler_kind (bytes "RobustScalingNormalizer"))
    ∷ (load_index_provider, autoscaler_kind (bytes "WeightedPNormLoadIndex"))
    ∷ (partition_provider, autoscaler_kind (bytes "LongestProcessingTimePartition"))
    ∷ (partition_provider, autoscaler_kind (bytes "MostWantedTwoPhaseHysteresisEvaluation"))
    ∷ (replica_set_controller, stateful_set_kind)
    ∷ []

init-register_all : init ≡ register_all initial empty
unfolding init register_all
init-register_all = refl
