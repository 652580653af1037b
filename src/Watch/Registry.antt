-- ===== src/Watch/Registry.antt =====
-- The registry of kinds: internal/controller/autoscaler/controllers.go. The mutex makes each of its
-- functions one step.
use argocd_autoscaler.Base.{List, [], ◌∷◌, ◌++◌}
use argocd_autoscaler.Text.{Text, bytes}

pub record GroupVersionKind : Type 0 where
  pub group : Text
  pub version : Text
  pub kind : Text

pub record Registry : Type 0 where
  pub shard_managers : List GroupVersionKind
  pub metric_values_providers : List GroupVersionKind
  pub load_index_providers : List GroupVersionKind
  pub partition_providers : List GroupVersionKind
  pub replica_set_controllers : List GroupVersionKind

abbrev pub empty : Registry
empty = record {
  shard_managers = [];
  metric_values_providers = [];
  load_index_providers = [];
  partition_providers = [];
  replica_set_controllers = [];
}

unfoldable pub register_shard_manager : GroupVersionKind → Registry → Registry
register_shard_manager g r = record r { shard_managers = r.shard_managers ++ g ∷ [] }

unfoldable pub get_shard_managers : Registry → List GroupVersionKind
get_shard_managers r = r.shard_managers

unfoldable pub register_metric_values_provider : GroupVersionKind → Registry → Registry
register_metric_values_provider g r = record r {
  metric_values_providers = r.metric_values_providers ++ g ∷ [];
}

unfoldable pub get_metric_values_providers : Registry → List GroupVersionKind
get_metric_values_providers r = r.metric_values_providers

unfoldable pub register_load_index_provider : GroupVersionKind → Registry → Registry
register_load_index_provider g r = record r {
  load_index_providers = r.load_index_providers ++ g ∷ [];
}

unfoldable pub get_load_index_providers : Registry → List GroupVersionKind
get_load_index_providers r = r.load_index_providers

unfoldable pub register_partition_provider : GroupVersionKind → Registry → Registry
register_partition_provider g r = record r { partition_providers = r.partition_providers ++ g ∷ [] }

unfoldable pub get_partition_providers : Registry → List GroupVersionKind
get_partition_providers r = r.partition_providers

unfoldable pub register_replica_set_controller : GroupVersionKind → Registry → Registry
register_replica_set_controller g r = record r {
  replica_set_controllers = r.replica_set_controllers ++ g ∷ [];
}

unfoldable pub get_replica_set_controllers : Registry → List GroupVersionKind
get_replica_set_controllers r = r.replica_set_controllers

abbrev pub autoscaler_kind : Text → GroupVersionKind
autoscaler_kind kind = record {
  group = bytes "autoscaler.argoproj.io";
  version = bytes "v1alpha1";
  kind = kind;
}

abbrev pub stateful_set_kind : GroupVersionKind
stateful_set_kind = record {
  group = bytes "apps";
  version = bytes "v1";
  kind = bytes "StatefulSet";
}

-- The function init, on the empty registry.
unfoldable pub init : Registry
unfolding register_shard_manager register_metric_values_provider register_load_index_provider
    register_partition_provider register_replica_set_controller
init = register_replica_set_controller stateful_set_kind (
    register_partition_provider (autoscaler_kind (bytes "MostWantedTwoPhaseHysteresisEvaluation")) (
      register_partition_provider (autoscaler_kind (bytes "LongestProcessingTimePartition")) (
        register_load_index_provider (autoscaler_kind (bytes "WeightedPNormLoadIndex")) (
          register_metric_values_provider (autoscaler_kind (bytes "RobustScalingNormalizer")) (
            register_metric_values_provider (autoscaler_kind (bytes "PrometheusPoll")) (
              register_shard_manager (autoscaler_kind (bytes "SecretTypeClusterShardManager"))
                empty))))))
