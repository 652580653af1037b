-- ===== src/ShardManager/Reading.antt =====
-- The loop over the secrets, and the cluster after its updates.
use argocd_autoscaler.Base.{
  ◌≡◌, refl, ap, sym, ◌∙◌, subst, false, List, [], ◌∷◌, map, if◌then◌else◌, All,
}
use mathlib.Core.Path.{ap₂}
use argocd_autoscaler.Text.{Text, text_eq}
use argocd_autoscaler.Text.Order.{text_eq_refl, text_eq_sym}
use argocd_autoscaler.Api.{Shard, Replica}
use argocd_autoscaler.ShardManager.{
  Secret, shard_of, Check, check, current, update, malformed, nil_map, Read, read, read_malformed,
  read_nil_map, and_current, and_update, and_read, read_secrets,
}
use argocd_autoscaler.ShardManager.Writing.{
  HasReplica, IsWritten, AreInt32, kept, changed, refused, panics, check_lem,
}

-- The API server keeps the last update of each secret.
unfoldable pub latest : List Secret → Secret → Secret
latest [] s = s
latest (u ∷ us) s = if text_eq u.uid s.uid then latest us u else latest us s

unfoldable pub stored : List Secret → List Secret → List Secret
unfolding latest
stored updates secrets = map (latest updates) secrets

-- The secrets have different UIDs.
unfoldable pub IsDistinct : List Secret → Type 0
IsDistinct [] = Unit
IsDistinct (s ∷ ss) = All (λ t. text_eq t.uid s.uid ≡ false) ss × IsDistinct ss

latest-none :
    (updates : List Secret) (s : Secret)
    → All (λ u. text_eq u.uid s.uid ≡ false) updates
    → latest updates s ≡ s
unfolding latest
latest-none [] s h = refl
latest-none (u ∷ us) s h = rw h.0 (latest-none us s h.1)

stored-cons :
    (u : Secret) (us ss : List Secret)
    → All (λ t. text_eq t.uid u.uid ≡ false) ss
    → stored (u ∷ us) ss ≡ stored us ss
unfolding stored latest
stored-cons u us [] h = refl
stored-cons u us (s ∷ ss) h =
    ap₂ ◌∷◌ (rw (text_eq_sym u.uid s.uid, h.0) refl) (stored-cons u us ss h.1)

module _ {Q : Type 0} (known : List (Text × Replica Q)) where
  -- What a loop that was not cut short has seen to.
  pub record IsSynchronized (ss : List Secret) (shards : List Shard) (updates : List Secret)
      : Type 0 where
    pub fresh :
        (uid : Text)
        → All (λ t. text_eq t.uid uid ≡ false) ss
        → All (λ t. text_eq t.uid uid ≡ false) updates
    pub has : IsDistinct ss → All (HasReplica known) (stored updates ss)
    pub again : IsDistinct ss → read_secrets known (stored updates ss) ≡ read shards []

  unfoldable WhenRead : List Secret → Read → Type 0
  WhenRead ss (read shards updates) = IsSynchronized ss shards updates
  WhenRead ss read_malformed = Unit
  WhenRead ss read_nil_map = Unit

  current_again :
      (s : Secret) (ss : List Secret) (shards : List Shard)
      → check known s ≡ current
      → read_secrets known ss ≡ read shards []
      → read_secrets known (s ∷ ss) ≡ read (shard_of s ∷ shards) []
  unfolding read_secrets
  current_again s ss shards c e =
      ap (λ x. and_read x (shard_of s) (read_secrets known ss)) c ∙ ap (and_current (shard_of s)) e

  when_current :
      (s : Secret) (ss : List Secret) (x : Read)
      → check known s ≡ current
      → HasReplica known s
      → WhenRead ss x
      → WhenRead (s ∷ ss) (and_current (shard_of s) x)
  unfolding WhenRead IsDistinct stored
  when_current s ss (read shards us) c h w =
      let same = λ (d : IsDistinct (s ∷ ss)). latest-none us s (w.fresh s.uid d.0) in
      record {
        fresh = λ uid f. w.fresh uid f.1;
        has = λ d. (subst (HasReplica known) (sym (same d)) h, w.has d.1);
        again = λ d.
            ap (λ t. read_secrets known (t ∷ stored us ss)) (same d)
            ∙ current_again s (stored us ss) shards c (w.again d.1);
      }
  when_current s ss read_malformed c h w = tt
  when_current s ss read_nil_map c h w = tt

  when_changed :
      (s s' : Secret) (ss : List Secret) (x : Read)
      → s'.uid ≡ s.uid
      → IsWritten known s s'
      → WhenRead ss x
      → WhenRead (s ∷ ss) (and_update (shard_of s) s' x)
  unfolding WhenRead IsDistinct stored latest
  when_changed s s' ss (read shards us) e h w =
      let other = λ (d : IsDistinct (s ∷ ss)).
        subst (λ u. All (λ t. text_eq t.uid u ≡ false) ss) (sym e) d.0 in
      let first = λ (d : IsDistinct (s ∷ ss)).
        ap (λ b. if b then latest us s' else latest us s)
          (ap (λ u. text_eq u s.uid) e ∙ text_eq_refl s.uid)
        ∙ latest-none us s' (w.fresh s'.uid (other d)) in
      let all = λ (d : IsDistinct (s ∷ ss)). ap₂ ◌∷◌ (first d) (stored-cons s' us ss (other d)) in
      record {
        fresh = λ uid f. (subst (λ u. text_eq u uid ≡ false) (sym e) f.0, w.fresh uid f.1);
        has = λ d. subst (All (HasReplica known)) (sym (all d)) (h.has, w.has d.1);
        again = λ d.
            ap (read_secrets known) (all d)
            ∙ current_again s' (stored us ss) shards h.again (w.again d.1)
            ∙ ap (λ sh. read (sh ∷ shards) []) h.shard;
      }
  when_changed s s' ss read_malformed e h w = tt
  when_changed s s' ss read_nil_map e h w = tt

  when_read : (ss : List Secret) → AreInt32 known → WhenRead ss (read_secrets known ss)
  unfolding read_secrets WhenRead stored
  when_read [] h = record { fresh = λ uid f. tt; has = λ d. tt; again = λ d. refl }
  when_read (s ∷ ss) h =
      let rest = read_secrets known ss in
      let back = λ (c : Check) (e : check known s ≡ c).
        λ (w : WhenRead (s ∷ ss) (and_read c (shard_of s) rest)).
          subst (λ c. WhenRead (s ∷ ss) (and_read c (shard_of s) rest)) (sym e) w in
      elim (check_lem known s h) [
        | kept c has ↦ back current c (when_current s ss rest c has (when_read ss h))
        | changed s' c same written ↦
            back (update s') c (when_changed s s' ss rest same written (when_read ss h))
        | refused c ↦ back malformed c tt
        | panics c ↦ back nil_map c tt
      ]

  -- Where the numbers of the replicas are int32 and the secrets that are listed have different UIDs,
  -- a loop that comes to an end asks for these updates: once they are stored, each secret that the
  -- replicas assign has as its shard a text that `strconv.Atoi` reads as a number which, cut down to
  -- an int32 as the code does, is the number of its replica, and the loop over the secrets then
  -- reads the same shards and asks for no update. So a shard such as 4294967296 counts as 0.
  pub read_secrets-HasReplica :
      (ss : List Secret) (shards : List Shard) (updates : List Secret)
      → AreInt32 known
      → IsDistinct ss
      → read_secrets known ss ≡ read shards updates
      → All (HasReplica known) (stored updates ss)
        × read_secrets known (stored updates ss) ≡ read shards []
  unfolding WhenRead
  read_secrets-HasReplica ss shards updates h d e =
      let w = subst (WhenRead ss) e (when_read ss h) in (w.has d, w.again d)
