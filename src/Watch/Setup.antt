-- ===== src/Watch/Setup.antt =====
-- SetupWithManager of the controllers of internal/controller/autoscaler: which kinds a controller
-- watches, and with which handler. What scheme.New makes of a kind, and whether the builder accepts
-- the controller, are parameters.
use argocd_autoscaler.Base.{Bool, Option, none, some, List, [], ◌∷◌, ◌++◌, ◌>>=◌, if◌then◌else◌}
use argocd_autoscaler.Watch.Registry.{
  GroupVersionKind, Registry, get_shard_managers, get_metric_values_providers,
  get_load_index_providers, get_partition_providers, get_replica_set_controllers,
}

-- What scheme.New makes of a kind.
pub data Made : Type 0 where
  creation_failed : Made
  no_client_object : Made
  client_object : Made

pub data Handler : Type 0 where
  map_load_index_provider map_metric_provider map_poller : Handler
  map_partition_provider map_shard_manager map_replica_set_controller : Handler
  map_cluster_secrets : Handler

abbrev pub Watches : Type 0
Watches = List (GroupVersionKind × Handler)

module _ (new : GroupVersionKind → Made) where
  -- The loop over the kinds of a role; `none` is an error.
  abbrev pub watch_one : Made → Option (Unit {0})
  watch_one creation_failed = none
  watch_one no_client_object = none
  watch_one client_object = some tt

  unfoldable pub watch_all : Handler → List GroupVersionKind → Watches → Option Watches
  watch_all h [] ws = some ws
  watch_all h (g ∷ gs) ws = watch_one (new g) >>= λ u. watch_all h gs (ws ++ (g, h) ∷ [])

  module _ (complete : Watches → Bool) where
    abbrev pub completed : Watches → Option Watches
    completed ws = if complete ws then some ws else none

    unfoldable pub setup_partition : Registry → Option Watches
    unfolding watch_all get_load_index_providers
    setup_partition r =
        watch_all map_load_index_provider (get_load_index_providers r) [] >>= completed

    unfoldable pub setup_evaluation : Registry → Option Watches
    unfolding watch_all get_partition_providers
    setup_evaluation r =
        watch_all map_partition_provider (get_partition_providers r) [] >>= completed

    unfoldable pub setup_load_index : Registry → Option Watches
    unfolding watch_all get_metric_values_providers
    setup_load_index r =
        watch_all map_metric_provider (get_metric_values_providers r) [] >>= completed

    unfoldable pub setup_normalizer : Registry → Option Watches
    unfolding watch_all get_metric_values_providers
    setup_normalizer r = watch_all map_poller (get_metric_values_providers r) [] >>= completed

    unfoldable pub setup_poll : Registry → Option Watches
    unfolding watch_all get_shard_managers
    setup_poll r = watch_all map_shard_manager (get_shard_managers r) [] >>= completed

    unfoldable pub setup_scaler : Registry → Option Watches
    unfolding watch_all get_partition_providers get_shard_managers get_replica_set_controllers
    setup_scaler r =
        watch_all map_partition_provider (get_partition_providers r) []
        >>= watch_all map_shard_manager (get_shard_managers r)
        >>= watch_all map_replica_set_controller (get_replica_set_controllers r)
        >>= completed

    -- The shard manager watches Secrets, a kind that it names itself.
    unfoldable pub setup_shard_manager : GroupVersionKind → Option Watches
    setup_shard_manager secret = completed ((secret, map_cluster_secrets) ∷ [])
