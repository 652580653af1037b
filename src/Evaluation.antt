-- ===== src/Evaluation.antt =====
-- The most wanted two phase hysteresis evaluation: the partition that was seen most often within
-- the retention period is the projection, and the projection becomes the elected partition once
-- the stabilization period has passed. Types of api/autoscaler/v1alpha1, code of
-- internal/controller/autoscaler/mostwantedtwophasehysteresisevaluation_controller.go.
-- Times are nanoseconds from the zero time, which is 0; durations are not negative.
pub mod History
pub mod Election
pub mod Reconcile
pub mod Winner
pub mod Retention
pub mod Hysteresis
use argocd_autoscaler.Base.{
  ℕ, zero, suc, ◌+◌, ◌-◌, ◌%◌, Bool, true, false, ◌&&◌, ◌||◌, not, Option, none, some, List, [],
  ◌∷◌, ◌++◌, ltb, leb, ◌==◌, if◌then◌else◌, length, map,
}
use mathlib.Core.Option
use argocd_autoscaler.Text.{Text, text_eq, int32_mod, int32_lt}
use argocd_autoscaler.Api.{ReplicaList}
use argocd_autoscaler.Controller.{Meta}

pub record Spec : Type 0 where
  pub stabilization_period : ℕ
  pub scale_up_stabilization_period : Option ℕ
  pub scale_down_stabilization_period : Option ℕ

pub record HistoricalRecord : Type 0 where
  pub timestamp : ℕ
  pub replicas_hash : Text
  pub seen_times : ℕ  -- int32

pub record Status (Q Conditions : Type 0) : Type 0 where
  pub conditions : Conditions
  pub replicas : ReplicaList Q
  pub history : List HistoricalRecord
  pub last_evaluation_timestamp : Option ℕ
  pub projection : ReplicaList Q

pub record Evaluation (Q Conditions : Type 0) : Type 0 where
  pub spec : Spec
  pub status : Status Q Conditions

abbrev period_or : ℕ → Option ℕ → ℕ
period_or default none = default
period_or default (some d) = d

module _ {Q Conditions : Type 0} where
  unfoldable pub scale_up_stabilization_period : Evaluation Q Conditions → ℕ
  scale_up_stabilization_period e =
      period_or e.spec.stabilization_period e.spec.scale_up_stabilization_period

  unfoldable pub scale_down_stabilization_period : Evaluation Q Conditions → ℕ
  scale_down_stabilization_period e =
      period_or e.spec.stabilization_period e.spec.scale_down_stabilization_period

  unfoldable pub history_retention_period : Evaluation Q Conditions → ℕ
  unfolding scale_up_stabilization_period scale_down_stabilization_period
  history_retention_period e =
      let up = scale_up_stabilization_period e in
      let down = scale_down_stabilization_period e in if ltb down up then up else down

  unfoldable pub stabilization_period_for_projection : Evaluation Q Conditions → ℕ
  unfolding scale_up_stabilization_period scale_down_stabilization_period
  stabilization_period_for_projection e =
      if ltb (length e.status.projection) (length e.status.replicas)
      then scale_down_stabilization_period e
      else scale_up_stabilization_period e

-- Lines 211 to 232: the first record of the hash is counted and refreshed, or a new one is added.
unfoldable pub bump : Text → ℕ → List HistoricalRecord → Option (List HistoricalRecord)
bump hash now [] = none
bump hash now (r ∷ rs) =
    if text_eq r.replicas_hash hash
    then some (record r { seen_times = (r.seen_times + 1) % int32_mod; timestamp = now } ∷ rs)
    else Option.map (◌∷◌ r) (bump hash now rs)

abbrev pub new_record : Text → ℕ → HistoricalRecord
new_record hash now = record { timestamp = now; replicas_hash = hash; seen_times = 1 }

unfoldable pub note_seen : Text → ℕ → List HistoricalRecord → List HistoricalRecord
unfolding bump
note_seen hash now history = elim (bump hash now history) [
  | some history' ↦ history'
  | none ↦ history ++ new_record hash now ∷ []
]

-- Lines 236 to 249: the clock is read for each record.
unfoldable pub trim : ℕ → (ℕ → ℕ) → List HistoricalRecord → List HistoricalRecord
trim retention clock [] = []
trim retention clock (r ∷ rs) =
    let rest = trim retention (λ i. clock (suc i)) rs in
    if ltb (clock 0) (r.timestamp + retention) then r ∷ rest else rest

-- Lines 251 to 268: the three maps by hash, as one map from the hash of the record.
pub record Tally : Type 0 where
  pub first : HistoricalRecord
  pub last_seen : ℕ
  pub seen_times : ℕ  -- int32

unfoldable pub tally_record : HistoricalRecord → List Tally → List Tally
tally_record r [] = record { first = r; last_seen = r.timestamp; seen_times = r.seen_times } ∷ []
tally_record r (t ∷ ts) =
    if text_eq t.first.replicas_hash r.replicas_hash
    then record t {
      last_seen = if ltb t.last_seen r.timestamp then r.timestamp else t.last_seen;
      seen_times = (t.seen_times + r.seen_times) % int32_mod;
    }
      ∷ ts
    else t ∷ tally_record r ts

unfoldable pub tally_from : List HistoricalRecord → List Tally → List Tally
unfolding tally_record
tally_from [] ts = ts
tally_from (r ∷ rs) ts = tally_from rs (tally_record r ts)

-- Lines 272 to 284: the loop over the map, in any order.
pub record Leader : Type 0 where
  pub top_seen_record : HistoricalRecord
  pub max_seen_count : ℕ  -- int32

abbrev pub zero_record : HistoricalRecord
zero_record = record { timestamp = 0; replicas_hash = []; seen_times = 0 }

unfoldable pub challenge : Tally → Leader → Leader
challenge t l =
    if int32_lt l.max_seen_count t.seen_times
    then record { top_seen_record = t.first; max_seen_count = t.seen_times }
    else if t.seen_times == l.max_seen_count && ltb l.top_seen_record.timestamp t.first.timestamp
    then record l { top_seen_record = t.first }
    else l

unfoldable pub elect_from : List Tally → Leader → Leader
unfolding challenge
elect_from [] l = l
elect_from (t ∷ ts) l = elect_from ts (challenge t l)

unfoldable pub top_seen : List Tally → HistoricalRecord
unfolding elect_from
top_seen ts =
    (elect_from ts (record { top_seen_record = zero_record; max_seen_count = 0 })).top_seen_record
