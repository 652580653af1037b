-- ===== src/Api/Serialize.antt =====
-- `ReplicaList.SerializeToString` of api/autoscaler/common/replica.go. A Go map is an association
-- list with one entry for each key; the keys are distinct and are sorted, so neither the order of
-- the map nor the sorting algorithm shows in the result.
pub mod Canonical
use argocd_autoscaler.Base.{ℕ, List, [], ◌∷◌, ◌++◌, map, Option, none, some, if◌then◌else◌}
use argocd_autoscaler.Text.{Text, text_eq, text_lt, itoa}
use argocd_autoscaler.Text.Sorted.{insert_text, sort_texts}
use argocd_autoscaler.Api.{LoadIndex, Replica, ReplicaList}

abbrev pub Assignments : Type 0
Assignments = List (Text × ℕ)

-- m[k] = v
unfoldable pub assign : Text → ℕ → Assignments → Assignments
assign k v [] = (k, v) ∷ []
assign k v ((j, w) ∷ m) = if text_eq j k then (k, v) ∷ m else (j, w) ∷ assign k v m

-- v, ok := m[k]
unfoldable pub assigned : Text → Assignments → Option ℕ
assigned k [] = none
assigned k ((j, w) ∷ m) = if text_eq j k then some w else assigned k m

-- m[k], which is 0 for a key that is missing
unfoldable pub assigned_or_zero : Option ℕ → ℕ
assigned_or_zero none = 0
assigned_or_zero (some v) = v

abbrev pub keys : Assignments → List Text
keys = map (λ e. e.0)

unfoldable pub serialize_item : Assignments → Text → Text
unfolding assigned assigned_or_zero itoa
serialize_item m k = k ++ (b'=' ∷ itoa (assigned_or_zero (assigned k m)))

-- strings.Join(items, ",")
unfoldable pub join : List Text → Text
join [] = []
join (s ∷ []) = s
join (s ∷ t ∷ rest) = s ++ (b',' ∷ join (t ∷ rest))

module _ {Q : Type 0} where
  unfoldable pub assign_load_indexes : ℕ → List (LoadIndex Q) → Assignments → Assignments
  unfolding assign
  assign_load_indexes id [] m = m
  assign_load_indexes id (l ∷ ls) m = assign_load_indexes id ls (assign l.shard.uid id m)

  unfoldable pub assign_replicas : ReplicaList Q → Assignments → Assignments
  unfolding assign_load_indexes
  assign_replicas [] m = m
  assign_replicas (r ∷ rs) m = assign_replicas rs (assign_load_indexes r.id r.load_indexes m)

  unfoldable pub assignments : ReplicaList Q → Assignments
  unfolding assign_replicas
  assignments rs = assign_replicas rs []

unfoldable pub serialize_assignments : Assignments → Text
unfolding sort_texts insert_text serialize_item join
serialize_assignments m = join (map (serialize_item m) (sort_texts (keys m)))

unfoldable pub serialize_to_string : {Q : Type 0} → ReplicaList Q → Text
unfolding assignments serialize_assignments
serialize_to_string rs = serialize_assignments (assignments rs)
