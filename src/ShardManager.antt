-- ===== src/ShardManager.antt =====
-- The shard manager: its resource (api/autoscaler/v1alpha1/secrettypeclustershardmanager_types.go)
-- and internal/controller/autoscaler/secrettypeclustershardmanager_controller.go, which writes the
-- number of its replica into the Secret of each cluster.
pub mod Reconcile
pub mod Writing
pub mod Reading
pub mod Assignment
pub mod Indexing
pub mod Honesty
use argocd_autoscaler.Base.{
  ℕ, Bool, true, false, ◌&&◌, ◌||◌, not, Option, none, some, List, [], ◌∷◌, ◌==◌, if◌then◌else◌,
  ◌>>=◌,
}
use argocd_autoscaler.Text.{Text, bytes, text_eq, atoi, itoa, to_int32}
use argocd_autoscaler.Api.{Shard, LoadIndex, Replica, ReplicaList}

-- A map from keys to bytes; `none` is a nil map.
abbrev pub Data : Type 0
Data = Option (List (Text × Text))

pub record Secret : Type 0 where
  pub name : Text
  pub uid : Text
  pub namespace : Text
  pub secret_data : Data

unfoldable pub find_key : Text → List (Text × Text) → Option Text
find_key k [] = none
find_key k ((j, v) ∷ rest) = if text_eq j k then some v else find_key k rest

-- v, ok := data[k], also on a nil map
unfoldable pub lookup : Text → Data → Option Text
unfolding find_key
lookup k none = none
lookup k (some entries) = find_key k entries

unfoldable pub put_key : Text → Text → List (Text × Text) → List (Text × Text)
put_key k v [] = (k, v) ∷ []
put_key k v ((j, w) ∷ rest) = if text_eq j k then (k, v) ∷ rest else (j, w) ∷ put_key k v rest

abbrev pub or_empty : Option Text → Text
or_empty none = []
or_empty (some v) = v

abbrev pub shard_key : Text
shard_key = bytes "shard"

-- Lines 188 to 194.
unfoldable pub shard_of : Secret → Shard
shard_of s = record {
  uid = s.uid;
  id = s.name;
  namespace = s.namespace;
  name = or_empty (lookup (bytes "name") s.secret_data);
  server = or_empty (lookup (bytes "server") s.secret_data);
}

-- Lines 198 to 219: whether the secret has a number, and which; the number is 0 if there is none.
pub data Actual : Type 0 where
  unset : Actual
  set_to : ℕ → Actual
  unreadable : Actual

abbrev pub parsed : Option ℕ → Actual
parsed none = unreadable
parsed (some k) = set_to k

abbrev pub actual_of : Option Text → Actual
actual_of none = unset
actual_of (some v) = parsed (atoi v)

-- What a secret comes to: nothing to do, an update, a number that cannot be read, or a write to a
-- nil map.
pub data Check : Type 0 where
  current : Check
  update : Secret → Check
  malformed : Check
  nil_map : Check

abbrev pub written : ℕ → Secret → Data → Check
written id s none = nil_map
written id s (some entries) =
    update (record s { secret_data = some (put_key shard_key (itoa id) entries) })

abbrev pub write_if : Option ℕ → Secret → Check
write_if none s = current
write_if (some id) s = written id s s.secret_data

-- The loop of lines 185 to 229: the shards, with the secrets to update, or the first failure.
pub data Read : Type 0 where
  read : List Shard → List Secret → Read
  read_malformed : Read
  read_nil_map : Read

abbrev pub and_current : Shard → Read → Read
and_current shard (read shards updates) = read (shard ∷ shards) updates
and_current shard read_malformed = read_malformed
and_current shard read_nil_map = read_nil_map

abbrev pub and_update : Shard → Secret → Read → Read
and_update shard s' (read shards updates) = read (shard ∷ shards) (s' ∷ updates)
and_update shard s' read_malformed = read_malformed
and_update shard s' read_nil_map = read_nil_map

abbrev pub and_read : Check → Shard → Read → Read
and_read current shard rest = and_current shard rest
and_read (update s') shard rest = and_update shard s' rest
and_read malformed shard rest = read_malformed
and_read nil_map shard rest = read_nil_map

module _ {Q : Type 0} where
  -- replicasByUID: the replica of the first entry of the shard.
  unfoldable pub replica_of : Text → List (Text × Replica Q) → Option (Replica Q)
  replica_of uid [] = none
  replica_of uid ((u, r) ∷ rest) = if text_eq u uid then some r else replica_of uid rest

  abbrev pub is_known : Option (Replica Q) → Bool
  is_known none = false
  is_known (some r) = true

  -- Lines 161 to 181; `none` if a shard is there already.
  unfoldable pub index_shards :
      Replica Q → List (LoadIndex Q) → List (Text × Replica Q) → Option (List (Text × Replica Q))
  unfolding replica_of
  index_shards r [] known = some known
  index_shards r (l ∷ ls) known =
      let rest = index_shards r ls ((l.shard.uid, r) ∷ known) in
      if is_known (replica_of l.shard.uid known) then none else rest

  -- Lines 158 to 182.
  unfoldable pub index_replicas :
      ReplicaList Q → List (Text × Replica Q) → Option (List (Text × Replica Q))
  unfolding index_shards
  index_replicas [] known = some known
  index_replicas (r ∷ rs) known = do
    known' ← index_shards r r.load_indexes known
    index_replicas rs known'

  -- Lines 220 to 228: the number to write, if the secret is out of date.
  abbrev pub outdated : Option (Replica Q) → Actual → Option ℕ
  outdated none actual = none
  outdated (some r) (set_to k) = if r.id == to_int32 k then none else some r.id
  outdated (some r) unset = some r.id
  outdated (some r) unreadable = none

  abbrev pub check_actual : Option (Replica Q) → Actual → Secret → Check
  check_actual desired unreadable s = malformed
  check_actual desired unset s = write_if (outdated desired unset) s
  check_actual desired (set_to k) s = write_if (outdated desired (set_to k)) s

  unfoldable pub check : List (Text × Replica Q) → Secret → Check
  unfolding lookup replica_of put_key
  check known s =
      check_actual (replica_of s.uid known) (actual_of (lookup shard_key s.secret_data)) s

  unfoldable pub read_secrets : List (Text × Replica Q) → List Secret → Read
  unfolding check shard_of
  read_secrets known [] = read [] []
  read_secrets known (s ∷ ss) = and_read (check known s) (shard_of s) (read_secrets known ss)
