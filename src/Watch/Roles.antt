-- ===== src/Watch/Roles.antt =====
-- The kinds that are registered for each role, and what each controller depends on.
use argocd_autoscaler.Base.{
  Bool, true, false, ◌&&◌, Option, List, [], ◌∷◌, ◌++◌, map, if◌then◌else◌,
}
use argocd_autoscaler.Watch.Registry.{
  GroupVersionKind, Registry, register_shard_manager, register_metric_values_provider,
  register_load_index_provider, register_partition_provider, register_replica_set_controller,
}
use argocd_autoscaler.Watch.Setup.{
  Made, creation_failed, no_client_object, client_object, Handler, map_load_index_provider,
  map_metric_provider, map_poller, map_partition_provider, map_shard_manager,
  map_replica_set_controller, Watches, setup_partition, setup_evaluation, setup_load_index,
  setup_normalizer, setup_poll, setup_scaler,
}

-- The five roles that a kind is registered for.
pub data Role : Type 0 where
  shard_manager metric_values_provider load_index_provider : Role
  partition_provider replica_set_controller : Role

pub data Controller : Type 0 where
  partition evaluation load_index normalizer poll scaler : Controller

abbrev pub Registrations : Type 0
Registrations = List (Role × GroupVersionKind)

unfoldable pub register : Role → GroupVersionKind → Registry → Registry
unfolding register_shard_manager register_metric_values_provider register_load_index_provider
    register_partition_provider register_replica_set_controller
register shard_manager g r = register_shard_manager g r
register metric_values_provider g r = register_metric_values_provider g r
register load_index_provider g r = register_load_index_provider g r
register partition_provider g r = register_partition_provider g r
register replica_set_controller g r = register_replica_set_controller g r

unfoldable pub register_all : Registrations → Registry → Registry
unfolding register
register_all [] r = r
register_all ((role, g) ∷ gs) r = register_all gs (register role g r)

unfoldable pub setup :
    (GroupVersionKind → Made) → (Watches → Bool) → Controller → Registry → Option Watches
unfolding setup_partition setup_evaluation setup_load_index setup_normalizer setup_poll setup_scaler
setup new complete partition r = setup_partition new complete r
setup new complete evaluation r = setup_evaluation new complete r
setup new complete load_index r = setup_load_index new complete r
setup new complete normalizer r = setup_normalizer new complete r
setup new complete poll r = setup_poll new complete r
setup new complete scaler r = setup_scaler new complete r

abbrev pub same_role : Role → Role → Bool
same_role shard_manager shard_manager = true
same_role metric_values_provider metric_values_provider = true
same_role load_index_provider load_index_provider = true
same_role partition_provider partition_provider = true
same_role replica_set_controller replica_set_controller = true
same_role a b = false

-- The kinds that were registered for a role, in order.
unfoldable pub registered : Role → Registrations → List GroupVersionKind
registered role [] = []
registered role ((role', g) ∷ gs) =
    if same_role role role' then g ∷ registered role gs else registered role gs

-- What a controller depends on, and the handler it has for it.
abbrev pub dependencies : Controller → List (Role × Handler)
dependencies partition = (load_index_provider, map_load_index_provider) ∷ []
dependencies evaluation = (partition_provider, map_partition_provider) ∷ []
dependencies load_index = (metric_values_provider, map_metric_provider) ∷ []
dependencies normalizer = (metric_values_provider, map_poller) ∷ []
dependencies poll = (shard_manager, map_shard_manager) ∷ []
dependencies scaler =
    (partition_provider, map_partition_provider)
    ∷ (shard_manager, map_shard_manager)
    ∷ (replica_set_controller, map_replica_set_controller)
    ∷ []

abbrev pub handled : Handler → List GroupVersionKind → Watches
handled h gs = map (λ g. (g, h)) gs

unfoldable pub watches_of : List (Role × Handler) → Registrations → Watches
unfolding registered
watches_of [] gs = []
watches_of ((role, h) ∷ ds) gs = handled h (registered role gs) ++ watches_of ds gs

abbrev pub is_made : Made → Bool
is_made creation_failed = false
is_made no_client_object = false
is_made client_object = true

unfoldable pub all_made : (GroupVersionKind → Made) → Watches → Bool
all_made new [] = true
all_made new ((g, h) ∷ ws) = is_made (new g) && all_made new ws
