-- ===== src/Watch/Handlers.antt =====
-- The watch handlers of the other controllers of internal/controller/autoscaler. All but the one on
-- cluster secrets are the handler of Watch over another resource or another of its references; the
-- list is what List answers in the namespace of the object.
use argocd_autoscaler.Base.{Bool, Option, none, some, List, [], ◌∷◌, map, if◌then◌else◌}
use argocd_autoscaler.Text.{Text}
use argocd_autoscaler.Controller.{Result, ok, err}
use argocd_autoscaler.Watch.{Ref, Item, GroupKind, Request, map_object}

-- mapPartitionProvider of the evaluation, by its PartitionProviderRef.
unfoldable pub evaluation_map_partition_provider :
    Text → Result (List GroupKind) → Result (List Item) → Option (List Request)
unfolding map_object
evaluation_map_partition_provider name kinds evaluations = map_object name kinds evaluations

-- mapMetricProvider of the load index, by its MetricValuesProviderRef.
unfoldable pub load_index_map_metric_provider :
    Text → Result (List GroupKind) → Result (List Item) → Option (List Request)
unfolding map_object
load_index_map_metric_provider name kinds load_indexes = map_object name kinds load_indexes

-- mapPoller of the normalizer, by its MetricValuesProviderRef.
unfoldable pub normalizer_map_poller :
    Text → Result (List GroupKind) → Result (List Item) → Option (List Request)
unfolding map_object
normalizer_map_poller name kinds normalizers = map_object name kinds normalizers

-- mapShardManager of the poll, by its ShardManagerRef.
unfoldable pub poll_map_shard_manager :
    Text → Result (List GroupKind) → Result (List Item) → Option (List Request)
unfolding map_object
poll_map_shard_manager name kinds polls = map_object name kinds polls

-- A replica set scaler and its three references.
pub record ScalerItem : Type 0 where
  pub partition_provider_ref : Ref
  pub shard_manager_ref : Ref
  pub replica_set_controller_ref : Ref
  pub name : Text
  pub namespace : Text

abbrev pub with_ref : (ScalerItem → Ref) → ScalerItem → Item
with_ref ref s = record { provider_ref = ref s; name = s.name; namespace = s.namespace }

abbrev pub listed : {A B : Type 0} → (A → B) → Result (List A) → Result (List B)
listed f (err e) = err e
listed f (ok xs) = ok (map f xs)

unfoldable pub scaler_map_partition_provider :
    Text → Result (List GroupKind) → Result (List ScalerItem) → Option (List Request)
unfolding map_object
scaler_map_partition_provider name kinds scalers =
    map_object name kinds (listed (with_ref (λ s. s.partition_provider_ref)) scalers)

unfoldable pub scaler_map_shard_manager :
    Text → Result (List GroupKind) → Result (List ScalerItem) → Option (List Request)
unfolding map_object
scaler_map_shard_manager name kinds scalers =
    map_object name kinds (listed (with_ref (λ s. s.shard_manager_ref)) scalers)

unfoldable pub scaler_map_replica_set_controller :
    Text → Result (List GroupKind) → Result (List ScalerItem) → Option (List Request)
unfolding map_object
scaler_map_replica_set_controller name kinds scalers =
    map_object name kinds (listed (with_ref (λ s. s.replica_set_controller_ref)) scalers)

-- A shard manager; its label selector may be nil.
pub record ManagerItem : Type 0 where
  pub match_labels : Option (List (Text × Text))
  pub name : Text
  pub namespace : Text

-- `matches` is whether the selector that labels.Set makes of the first labels accepts the second
-- ones, and `cluster_labels` are the label and the value that mark the Secret of a cluster.
module _ (matches : List (Text × Text) → List (Text × Text) → Bool)
    (cluster_labels : List (Text × Text)) where
  -- Lines 303 to 310.
  abbrev pub selector_of : Option (List (Text × Text)) → List (Text × Text)
  selector_of none = cluster_labels
  selector_of (some labels) = labels

  -- Lines 302 to 322.
  unfoldable pub enqueue_managers : List (Text × Text) → List ManagerItem → List Request
  enqueue_managers labels [] = []
  enqueue_managers labels (x ∷ xs) =
      if matches (selector_of x.match_labels) labels
      then record { name = x.name; namespace = x.namespace } ∷ enqueue_managers labels xs
      else enqueue_managers labels xs

  unfoldable pub map_cluster_secrets : List (Text × Text) → Result (List ManagerItem) → List Request
  unfolding enqueue_managers
  map_cluster_secrets labels (err e) = []
  map_cluster_secrets labels (ok managers) = enqueue_managers labels managers
