-- ===== src/Api.antt =====
-- api/autoscaler/common: the data that the stages of the autoscaler hand to one another.
pub mod Serialize
use argocd_autoscaler.Base.{ℕ, List}
use argocd_autoscaler.Text.{Text}

pub record Shard : Type 0 where
  pub uid : Text
  pub id : Text
  pub namespace : Text
  pub name : Text
  pub server : Text

pub record MetricValue (Quantity : Type 0) : Type 0 where
  pub id : Text
  pub shard : Shard
  pub query : Text
  pub value : Quantity
  pub display_value : Text

pub record LoadIndex (Quantity : Type 0) : Type 0 where
  pub shard : Shard
  pub value : Quantity
  pub display_value : Text

pub record Replica (Quantity : Type 0) : Type 0 where
  pub id : ℕ  -- int32
  pub load_indexes : List (LoadIndex Quantity)
  pub total_load : Quantity
  pub total_load_display_value : Text

abbrev pub ReplicaList : Type 0 → Type 0
ReplicaList Quantity = List (Replica Quantity)
