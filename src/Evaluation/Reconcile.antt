-- ===== src/Evaluation/Reconcile.antt =====
-- The body of Reconcile, after the rate limit.
use Prim.Native.String.{String}
use argocd_autoscaler.Base.{
  ℕ, ◌+◌, Bool, true, Option, none, some, List, [], ◌∷◌, leb, if◌then◌else◌,
}
use argocd_autoscaler.Text.{Text, text_eq}
use argocd_autoscaler.Arithmetic.{Arithmetic}
use argocd_autoscaler.Api.{LoadIndex, Shard, ReplicaList}
use argocd_autoscaler.Api.Serialize.{serialize_to_string}
use argocd_autoscaler.Controller.{
  Error, Result, ok, err, Condition, Meta, is_ready, not_ready, ready, done, failed, Pass, stop,
  emit, finish,
}
use argocd_autoscaler.Evaluation.{
  Evaluation, Tally, new_record, note_seen, trim, tally_from, top_seen, history_retention_period,
  stabilization_period_for_projection,
}

-- The gauges of the evaluation: shards and total loads, of the projection and of the replicas.
pub data Gauge : Type 0 where
  projected_shards projected_replicas_total_load shards replicas_total_load : Gauge

-- The answer to the Get of the evaluation.
pub data Got (A : Type 0) : Type 0 where
  found : A → Got A
  not_found : Got A
  get_failed : Error → Got A

-- The clock, read where the code reads it.
pub record Clock : Type 0 where
  pub seen : ℕ
  pub trimmed : ℕ → ℕ  -- for each record
  pub compared : ℕ
  pub elected : ℕ
  pub renewed : ℕ

pub record PartitionProvider (Q Conditions : Type 0) : Type 0 where
  pub conditions : Conditions
  pub replicas : ReplicaList Q

module _ (n : Arithmetic) (m : Meta) where
  abbrev pub Evaluation' : Type 0
  Evaluation' = Evaluation n.Quantity m.Conditions

  pub data Call : Type 0 where
    update_status : Evaluation' → Call
    delete_partial_match : Gauge → Call
    set_shard : Gauge → Shard → ℕ → Call
    set_load : Gauge → ℕ → n.Float → Call

  -- Lines 325 to 341, and 370 to 386.
  unfoldable pub record_shards : Gauge → ℕ → List (LoadIndex n.Quantity) → Pass Call → Pass Call
  record_shards g id [] rest = rest
  record_shards g id (l ∷ ls) rest = emit (set_shard g l.shard id) (record_shards g id ls rest)

  unfoldable pub record_replicas : Gauge → Gauge → ReplicaList n.Quantity → Pass Call → Pass Call
  unfolding record_shards
  record_replicas g h [] rest = rest
  record_replicas g h (r ∷ rs) rest =
      record_shards g r.id r.load_indexes
        (emit (set_load h r.id (n.as_float r.total_load)) (record_replicas g h rs rest))

  unfoldable pub record_gauges : Gauge → Gauge → ReplicaList n.Quantity → Pass Call → Pass Call
  unfolding record_replicas
  record_gauges g h rs rest =
      emit (delete_partial_match g) (emit (delete_partial_match h) (record_replicas g h rs rest))

  abbrev pub with_condition : Condition → Evaluation' → Evaluation'
  with_condition c e = record e {
    status = record (e.status) { conditions = m.set e.status.conditions c };
  }

  module _ (sha256 : Text → Text) (order : List Tally → List Tally) (clock : Clock) where
    abbrev pub hash_of : ReplicaList n.Quantity → Text
    hash_of rs = sha256 (serialize_to_string rs)

    -- Lines 209 to 249.
    unfoldable pub observe : ReplicaList n.Quantity → Evaluation' → Evaluation'
    observe desired e = record e {
      status = record (e.status) {
        history =
            trim (history_retention_period e) clock.trimmed
              (note_seen (hash_of desired) clock.seen e.status.history);
      };
    }

    -- Lines 251 to 284.
    unfoldable pub top_hash : Evaluation' → Text
    top_hash e = (top_seen (order (tally_from e.status.history []))).replicas_hash

    -- Lines 286 to 292.
    unfoldable pub project : ReplicaList n.Quantity → Evaluation' → Evaluation'
    project desired e =
        if text_eq (top_hash e) (hash_of desired)
        then record e { status = record (e.status) { projection = desired } }
        else e

    abbrev pub expired : Option ℕ → ℕ → Bool
    expired none period = true
    expired (some t) period = leb (t + period) clock.compared

    -- Lines 344 to 360.
    unfoldable pub elect : Evaluation' → Evaluation'
    elect e =
        if expired e.status.last_evaluation_timestamp (stabilization_period_for_projection e)
        then record e {
          status = record (e.status) {
            replicas = e.status.projection;
            last_evaluation_timestamp = some clock.elected;
            history = new_record (hash_of e.status.projection) clock.renewed ∷ [];
          };
        }
        else e

    module _ (answer : Call → Option Error) where
      abbrev pub report : String → Evaluation' → Pass Call
      report reason e = finish answer (update_status (with_condition (not_ready reason) e)) done

      -- Lines 317 to 401.
      unfoldable pub conclude : Evaluation' → Pass Call
      conclude e =
          record_gauges projected_shards projected_replicas_total_load e.status.projection (
            record_gauges shards replicas_total_load (elect e).status.replicas
              (finish answer (update_status (with_condition ready (elect e))) done))

      -- Lines 206 to 315.
      unfoldable pub evaluate : ReplicaList n.Quantity → Evaluation' → Pass Call
      evaluate desired e =
          let e' = project desired (observe desired e) in
          if text_eq (top_hash e') (hash_of e'.status.projection)
          then conclude e'
          else report "AwaitingNewProjection" e'

      -- Lines 186 to 204.
      unfoldable pub check_provider :
          PartitionProvider n.Quantity m.Conditions → Evaluation' → Pass Call
      check_provider p e =
          if is_ready m p.conditions
          then evaluate p.replicas e
          else report "PartitionProviderNotReady" e

      -- Lines 161 to 183: what findByRef found.
      unfoldable pub find_provider :
          Result (PartitionProvider n.Quantity m.Conditions) → Evaluation' → Pass Call
      find_provider (ok p) e = check_provider p e
      find_provider (err x) e = report "ErrorFindingPartitionProvider" e

      -- Lines 151 to 159.
      unfoldable pub reconcile :
          Got Evaluation' → Result (PartitionProvider n.Quantity m.Conditions) → Pass Call
      reconcile (found e) provider = find_provider provider e
      reconcile not_found provider = stop done
      reconcile (get_failed x) provider = stop (failed x)
