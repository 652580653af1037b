-- ===== src/ShardManager/Writing.antt =====
-- What a pass makes of the secrets, and what the next pass finds.
use argocd_autoscaler.Base.{
  ℕ, ◌<◌, ◌≡◌, refl, ap, sym, ◌∙◌, none, some, List, [], ◌∷◌, ◌==◌, arith, Bool-cases, Option-cases,
  inl, inr, if◌then◌else◌, some_inj,
}
use mathlib.Core.Option
use argocd_autoscaler.Text.{Text, text_eq, bytes, itoa, atoi, to_int32, int32_mod}
use argocd_autoscaler.Text.Order.{text_eq_refl, text_eq→eq}
use argocd_autoscaler.Text.Decimal.{to_int32-atoi-itoa}
use argocd_autoscaler.Api.{Replica}
use argocd_autoscaler.ShardManager.{
  Secret, find_key, lookup, put_key, shard_key, shard_of, replica_of, parsed, actual_of, Check,
  current, update, malformed, nil_map, written, check_actual, check,
}

find-put :
    (k j v : Text) (rest : List (Text × Text))
    → find_key j (put_key k v rest) ≡ (if text_eq k j then some v else find_key j rest)
unfolding find_key put_key
find-put k j v [] = refl
find-put k j v ((i, w) ∷ rest) =
    ground
      (arith, text_eq→eq i k, text_eq→eq k j, text_eq→eq i j, text_eq_refl k, find-put k j v rest)

-- A secret as the pass leaves it.
unfoldable pub after_check : Check → Secret → Secret
after_check current s = s
after_check (update s') s = s'
after_check malformed s = s
after_check nil_map s = s

abbrev put_shard : ℕ → Secret → List (Text × Text) → Secret
put_shard id s entries = record s { secret_data = some (put_key shard_key (itoa id) entries) }

shard_of-put_shard :
    (id : ℕ) (s : Secret) (entries : List (Text × Text))
    → s.secret_data ≡ some entries
    → shard_of (put_shard id s entries) ≡ shard_of s
unfolding shard_of lookup text_eq
shard_of-put_shard id s entries e = simp (
  e,
  find-put shard_key (bytes "name") (itoa id) entries,
  find-put shard_key (bytes "server") (itoa id) entries,
)

lookup-put_shard :
    (id : ℕ) (s : Secret) (entries : List (Text × Text))
    → lookup shard_key (put_shard id s entries).secret_data ≡ some (itoa id)
unfolding lookup text_eq
lookup-put_shard id s entries = find-put shard_key shard_key (itoa id) entries

-- A number that reads as the one that is wanted.
parsed_lem :
    (v : Text) (id : ℕ)
    → Option.map to_int32 (atoi v) ≡ some id
    → (k : ℕ) × atoi v ≡ some k × id ≡ to_int32 k
parsed_lem v id h = elim (Option-cases (atoi v)) [
  | inl e ↦ ground (arith, e)
  | inr (k, e) ↦ (k, e, sym (some_inj (ap (Option.map to_int32) (sym e) ∙ h)))
]

module _ {Q : Type 0} (known : List (Text × Replica Q)) where
  -- The secret has the number of the replica that `known` gives it, if it gives it one.
  unfoldable pub HasReplica : Secret → Type 0
  HasReplica s =
      (r : Replica Q)
      → replica_of s.uid known ≡ some r
      → (v : Text) × lookup shard_key s.secret_data ≡ some v
        × Option.map to_int32 (atoi v) ≡ some r.id

  current_lem :
      (s : Secret) (r : Replica Q) (v : Text)
      → replica_of s.uid known ≡ some r
      → lookup shard_key s.secret_data ≡ some v
      → Option.map to_int32 (atoi v) ≡ some r.id
      → check known s ≡ current
  unfolding check
  current_lem s r v e e' h =
      let (k, e'', same) = parsed_lem v r.id h in
      ap (λ d. check_actual d (actual_of (lookup shard_key s.secret_data)) s) e
      ∙ ap (λ l. check_actual (some r) (actual_of l) s) e'
      ∙ ap (λ o. check_actual (some r) (parsed o) s) e''
      ∙ ground arith

  -- What becomes of a secret that is not malformed.
  pub record IsWritten (s s' : Secret) : Type 0 where
    pub has : HasReplica s'
    pub again : check known s' ≡ current
    pub shard : shard_of s' ≡ shard_of s

  has_lem :
      (s : Secret) (r : Replica Q) (v : Text)
      → replica_of s.uid known ≡ some r
      → lookup shard_key s.secret_data ≡ some v
      → Option.map to_int32 (atoi v) ≡ some r.id
      → HasReplica s
  unfolding HasReplica
  has_lem s r v e e' h r' e'' = (v, e', h ∙ ap (λ q. some q.id) (some_inj (sym e ∙ e'')))

  written_lem :
      (s : Secret) (r : Replica Q) (entries : List (Text × Text))
      → r.id < int32_mod
      → replica_of s.uid known ≡ some r
      → s.secret_data ≡ some entries
      → IsWritten s (put_shard r.id s entries)
  written_lem s r entries h e e' =
      let s' = put_shard r.id s entries in
      let l = lookup-put_shard r.id s entries in
      let h' = to_int32-atoi-itoa r.id h in
      record {
        has = has_lem s' r (itoa r.id) e l h';
        again = current_lem s' r (itoa r.id) e l h';
        shard = shard_of-put_shard r.id s entries e';
      }

  -- The numbers of replicas are int32.
  unfoldable pub AreInt32 : Type 0
  AreInt32 = (uid : Text) (r : Replica Q) → replica_of uid known ≡ some r → r.id < int32_mod

  -- A secret that is read, with its update if it gets one.
  pub data IsRead (s : Secret) : Type 0 where
    kept : check known s ≡ current → HasReplica s → IsRead s
    changed : (s' : Secret) → check known s ≡ update s' → s'.uid ≡ s.uid → IsWritten s s' → IsRead s
    refused : check known s ≡ malformed → IsRead s
    panics : check known s ≡ nil_map → IsRead s

  check_missing : (s : Secret) → replica_of s.uid known ≡ none → IsRead s
  unfolding check HasReplica
  check_missing s e = elim (Option-cases (lookup shard_key s.secret_data)) [
    | inl e' ↦ kept (rw (e, e') refl) (λ r e''. ground (arith, e, e''))
    | inr (v, e') ↦ elim (Option-cases (atoi v)) [
      | inl e'' ↦ refused (rw (e, e', e'') refl)
      | inr (k, e'') ↦ kept (rw (e, e', e'') refl) (λ r e0. ground (arith, e, e0))
    ]
  ]

  check_written :
      (s : Secret) (r : Replica Q)
      → AreInt32
      → replica_of s.uid known ≡ some r
      → check known s ≡ written r.id s s.secret_data
      → IsRead s
  unfolding AreInt32
  check_written s r h e e' = elim (Option-cases s.secret_data) [
    | inl e'' ↦ panics (e' ∙ ap (written r.id s) e'')
    | inr (entries, e'') ↦
        changed (put_shard r.id s entries) (e' ∙ ap (written r.id s) e'') refl
          (written_lem s r entries (h s.uid r e) e e'')
  ]

  pub check_lem : (s : Secret) → AreInt32 → IsRead s
  unfolding check
  check_lem s h = elim (Option-cases (replica_of s.uid known)) [
    | inl e ↦ check_missing s e
    | inr (r, e) ↦ elim (Option-cases (lookup shard_key s.secret_data)) [
      | inl e' ↦ check_written s r h e (simp (e, e'))
      | inr (v, e') ↦ elim (Option-cases (atoi v)) [
        | inl e'' ↦ refused (simp (e, e', e''))
        | inr (k, e'') ↦ elim (Bool-cases (r.id == to_int32 k)) [
          | inl same ↦
              let h' = ap (Option.map to_int32) e'' ∙ ap some (ground (arith, same)) in
              kept (current_lem s r v e e' h') (has_lem s r v e e' h')
          | inr differs ↦ check_written s r h e (simp (e, e', e'', differs))
        ]
      ]
    ]
  ]
