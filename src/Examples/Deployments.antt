-- ===== src/Examples/Deployments.antt =====
-- A replica set scaler, a shard manager and a partition resource.
use Prim.Native.String.{String}
use argocd_autoscaler.Base.{
  ℕ, ◌<◌, ◌≡◌, refl, Option, none, some, List, [], ◌∷◌, All, arith, true, false, Bool, map,
}
use mathlib.Core.Option
use argocd_autoscaler.Text.{Text, bytes, text_eq, itoa, atoi, int32_mod}
use argocd_autoscaler.Arithmetic.{whole, whole-IsOrdered}
use argocd_autoscaler.Api.{Replica}
use argocd_autoscaler.Api.Serialize.{assigned, assignments}
use argocd_autoscaler.Controller.{Condition, last_condition, IsMeta, ok, ready, not_ready, Error}
use argocd_autoscaler.Scaler.{
  StatefulSet, x0y_mode, resolve_mode, scaled, needs_enforcement, container_found, container_name,
  replicas_env_name, set_containers,
}
use argocd_autoscaler.Scaler.Objects as Objects
use argocd_autoscaler.Scaler.Reconcile as Scaling
use argocd_autoscaler.Scaler.Safety.{IsSafe, reconcile-IsSafe}
use argocd_autoscaler.Scaler.Readiness.{IsTruthful, reconcile-IsTruthful}
use argocd_autoscaler.Scaler.Scaling.{scaled_converges, scaled_keeps, without_replicas}
use argocd_autoscaler.Scaler.Pausing.{IsHarmless, reconcile-IsHarmless}
use argocd_autoscaler.ShardManager.{
  Secret, replica_of, index_replicas, read_secrets, read, shard_of,
}
use argocd_autoscaler.ShardManager.Reconcile as Managing
use argocd_autoscaler.ShardManager.Writing.{HasReplica, AreInt32}
use argocd_autoscaler.ShardManager.Reading.{stored, IsDistinct, read_secrets-HasReplica}
use argocd_autoscaler.ShardManager.Assignment.{index_replicas-assignments}
use argocd_autoscaler.ShardManager.Honesty.{IsHonest, reconcile-IsHonest}
use argocd_autoscaler.Partition.Reconcile as Partitioning
use argocd_autoscaler.Partition.Publishing.{IsConserving, reconcile-IsConserving}
use argocd_autoscaler.Examples.Shards.{replica, parts, clusters, sort, sort-IsSort, weighing}

pub last_condition-IsMeta : IsMeta last_condition
last_condition-IsMeta = record { find-set = λ cs c. refl }

abbrev pub controller : StatefulSet
controller = record {
  spec_replicas = some 2;
  annotations = [];
  containers =
      record { name = bytes "metrics"; env = [] }
      ∷ record {
        name = container_name;
        env =
            record { name = bytes "HOME"; value = bytes "/" }
            ∷ record { name = replicas_env_name; value = bytes "2" }
            ∷ [];
      }
      ∷ [];
  status_replicas = 2;
}

abbrev pub scaler : Option Bool → Objects.Scaler' ℕ last_condition
scaler paused = record {
  spec = record {
    paused = paused;
    mode = some (record { default = none; x0y = true });
    replica_set_controller_kind = "StatefulSet";
  };
  status = record { conditions = none; replicas = [] };
}

abbrev provider : Objects.PartitionProvider ℕ (Option Condition)
provider = record { conditions = some ready; replicas = parts }

abbrev shard_manager : Objects.ShardManager ℕ (Option Condition)
shard_manager = record { conditions = some ready; spec_replicas = []; status_replicas = [] }

abbrev pub reconciler : Objects.Reconciler
reconciler = record {
  has_recorder = true;
  has_api_reader = true;
  now = bytes "2026-01-01T00:00:00Z";
}

abbrev world : Objects.World ℕ last_condition
world = record {
  provider = ok provider;
  shard_manager = ok shard_manager;
  stateful_set = ok controller;
}

abbrev pub accepts : Objects.Call ℕ last_condition → Option Error
accepts c = none

reconcile-IsSafe_example :
    All
      (IsSafe x0y_mode provider shard_manager (scaler none) controller)
      (Scaling.reconcile ℕ last_condition reconciler accepts
        (Objects.found (scaler none))
        world).calls
unfolding resolve_mode
reconcile-IsSafe_example =
    reconcile-IsSafe last_condition-IsMeta reconciler accepts x0y_mode provider shard_manager
      (scaler none) controller refl

reconcile-IsTruthful_example :
    All
      (IsTruthful provider shard_manager controller)
      (Scaling.reconcile ℕ last_condition reconciler accepts
        (Objects.found (scaler none))
        world).calls
unfolding resolve_mode
reconcile-IsTruthful_example =
    reconcile-IsTruthful last_condition-IsMeta reconciler accepts x0y_mode provider shard_manager
      (scaler none) controller refl

abbrev paused : Objects.Scaler' ℕ last_condition
paused = scaler (some true)

reconcile-IsHarmless_example :
    All
      (IsHarmless last_condition-IsMeta reconciler accepts paused world)
      (Scaling.reconcile ℕ last_condition reconciler accepts (Objects.found paused) world).calls
    × (Scaling.reconcile ℕ last_condition reconciler accepts
        (Objects.found (Scaling.with_condition ℕ last_condition (not_ready "Paused") paused))
        world).calls
      ≡ Objects.update_status (Scaling.with_condition ℕ last_condition (not_ready "Paused") paused)
        ∷ []
unfolding resolve_mode
reconcile-IsHarmless_example =
    reconcile-IsHarmless last_condition-IsMeta reconciler accepts paused world x0y_mode refl refl

scaled_converges_example :
    (container_found controller.containers ≡ false → scaled [] 3 false controller ≡ none)
    × (container_found controller.containers ≡ true
        → (t : StatefulSet) × scaled [] 3 false controller ≡ some t
          × needs_enforcement (record t { status_replicas = 3 }) 3 ≡ false
          × scaled [] 3 false t ≡ some t)
scaled_converges_example = scaled_converges [] 3 false controller

abbrev rescaled : StatefulSet
rescaled = record controller {
  spec_replicas = some 3;
  containers = set_containers (bytes "3") controller.containers;
}

scaled_keeps_example :
    rescaled.spec_replicas ≡ some 3
    × map without_replicas rescaled.containers ≡ map without_replicas controller.containers
    × rescaled.status_replicas ≡ controller.status_replicas
    × (false ≡ false → rescaled.annotations ≡ controller.annotations)
unfolding scaled text_eq itoa
scaled_keeps_example = scaled_keeps [] 3 false controller rescaled refl

-- The secrets of three clusters, of which one has no number and one is not assigned.
abbrev secret : String → List (Text × Text) → Secret
secret s entries = record {
  name = bytes s;
  uid = bytes s;
  namespace = bytes "argocd";
  secret_data = some ((bytes "name", bytes s) ∷ entries);
}

abbrev secrets : List Secret
secrets =
    secret "a" ((bytes "shard", bytes "7") ∷ [])
    ∷ secret "b" []
    ∷ secret "z" ((bytes "shard", bytes "-1") ∷ [])
    ∷ []

abbrev first : Replica ℕ
first = replica 0 (weighing "in-cluster" 1 ∷ weighing "a" 2 ∷ []) 3

abbrev known : List (Text × Replica ℕ)
known =
    (bytes "c", replica 2 (weighing "c" 2 ∷ []) 2)
    ∷ (bytes "b", replica 1 (weighing "b" 5 ∷ []) 5)
    ∷ (bytes "a", first)
    ∷ (bytes "in-cluster", first)
    ∷ []

parts_known : index_replicas parts [] ≡ some known
unfolding index_replicas text_eq
parts_known = refl

index_replicas-assignments_example :
    ((uid : Text)
      → Option.map (λ r. r.id) (replica_of uid known) ≡ assigned uid (assignments parts))
    × (All (λ r. r.id < int32_mod) parts → AreInt32 known)
index_replicas-assignments_example = index_replicas-assignments parts known parts_known

abbrev updates : List Secret
updates =
    secret "a" ((bytes "shard", bytes "0") ∷ []) ∷ secret "b" ((bytes "shard", bytes "1") ∷ []) ∷ []

known-AreInt32 : AreInt32 known
known-AreInt32 =
    (index_replicas-assignments parts known parts_known).1
      (omega arith, (omega arith, (omega arith, tt)))

secrets_read : read_secrets known secrets ≡ read (map shard_of secrets) updates
unfolding read_secrets text_eq itoa atoi
secrets_read = refl

secrets-IsDistinct : IsDistinct secrets
unfolding IsDistinct text_eq
secrets-IsDistinct = ((refl, (refl, tt)), ((refl, tt), (tt, tt)))

read_secrets-HasReplica_example :
    All (HasReplica known) (stored updates secrets)
    × read_secrets known (stored updates secrets) ≡ read (map shard_of secrets) []
read_secrets-HasReplica_example =
    read_secrets-HasReplica known secrets (map shard_of secrets) updates known-AreInt32
      secrets-IsDistinct secrets_read

abbrev manager : Managing.Manager' ℕ last_condition
manager = record {
  spec_replicas = parts;
  status = record { conditions = none; shards = []; replicas = [] };
}

reconcile-IsHonest_example :
    All
      (IsHonest (λ c. none) manager secrets)
      (Managing.reconcile ℕ last_condition (λ c. none) (Managing.found manager) (ok secrets)).calls
reconcile-IsHonest_example = reconcile-IsHonest (λ c. none) last_condition-IsMeta manager secrets

abbrev resource : Partitioning.Resource whole last_condition
resource = record {
  spec = record { max_shards_per_replica = some 2 };
  status = record { conditions = none; replicas = [] };
}

abbrev load_index_provider : Partitioning.Provider whole last_condition
load_index_provider = record { conditions = some ready; values = clusters }

reconcile-IsConserving_example :
    All
      (IsConserving whole last_condition load_index_provider)
      (Partitioning.reconcile whole last_condition sort
        (λ c. none)
        (Partitioning.found resource)
        (ok load_index_provider)).calls
reconcile-IsConserving_example =
    reconcile-IsConserving whole last_condition sort (λ c. none) last_condition-IsMeta
      load_index_provider sort-IsSort whole-IsOrdered resource
