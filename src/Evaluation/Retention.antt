-- ===== src/Evaluation/Retention.antt =====
-- A retention period of 0, which a stabilization period of 0 gives.
use argocd_autoscaler.Base.{
  ℕ, suc, ◌≤◌, ◌≡◌, refl, sym, ap, ◌∙◌, ◌≢◌, inl, inr, true, false, Option, some, List, [], ◌∷◌,
  All, All-append, length-Permᴰ, arith, Bool-cases, Option-cases, some_inj, map-eq_some,
}
use mathlib.Core.List.{Permᴰ}
use argocd_autoscaler.Text.{Text, text_eq}
use argocd_autoscaler.Text.Order.{text_eq→eq}
use argocd_autoscaler.Arithmetic.{Arithmetic}
use argocd_autoscaler.Api.{ReplicaList}
use argocd_autoscaler.Api.Serialize.{serialize_to_string}
use argocd_autoscaler.Controller.{Error, ok, Meta, is_ready, not_ready, done, finish-calls}
use argocd_autoscaler.Evaluation.{
  Tally, HistoricalRecord, bump, note_seen, trim, tally_from, top_seen, history_retention_period,
}
use argocd_autoscaler.Evaluation.Reconcile.{
  found, Clock, PartitionProvider, Evaluation', Call, update_status, with_condition, hash_of,
  observe, project, top_hash, evaluate, check_provider, find_provider, reconcile,
}

abbrev SeenBy : ℕ → HistoricalRecord → Type 0
SeenBy t r = r.timestamp ≤ t

bump-SeenBy :
    (h : Text) (now : ℕ) (rs : List HistoricalRecord) {rs' : List HistoricalRecord}
    → bump h now rs ≡ some rs'
    → All (SeenBy now) rs
    → All (SeenBy now) rs'
unfolding bump
bump-SeenBy h now [] e a = cc
bump-SeenBy h now (r ∷ rs) e a = elim (Bool-cases (text_eq r.replicas_hash h)) [
  | inl hit ↦ rw (← some_inj (rw hit at e)) (omega arith, a.1)
  | inr miss ↦
      let (ys, e', e'') = map-eq_some (◌∷◌ r) (bump h now rs) (rw miss at e) in
      rw (← e'') (a.0, bump-SeenBy h now rs e' a.1)
]

note_seen-SeenBy :
    (h : Text) (now : ℕ) (rs : List HistoricalRecord)
    → All (SeenBy now) rs
    → All (SeenBy now) (note_seen h now rs)
unfolding note_seen
note_seen-SeenBy h now rs a = elim (Option-cases (bump h now rs)) [
  | inl e ↦ rw (e, note_seen) (All-append (SeenBy now) rs _ a (omega arith, tt))
  | inr (ys, e) ↦ rw (e, note_seen) (bump-SeenBy h now rs e a)
]

trim_all :
    (t : ℕ) (clock : ℕ → ℕ) (rs : List HistoricalRecord)
    → ((i : ℕ) → t ≤ clock i)
    → All (SeenBy t) rs
    → trim 0 clock rs ≡ []
unfolding trim
trim_all t clock [] h a = refl
trim_all t clock (r ∷ rs) h a =
    ground (arith, h 0, a.0, trim_all t (λ i. clock (suc i)) rs (λ i. h (suc i)) a.1)

module _ (n : Arithmetic) (m : Meta) (sha256 : Text → Text) (order : List Tally → List Tally)
    (clock : Clock) where
  -- The order of a map is a rearrangement of its entries.
  order_nil : ((ts : List Tally) → Permᴰ (order ts) ts) → order [] ≡ []
  order_nil h = go (order []) (h [])
    where
      go : (ts : List Tally) → Permᴰ ts [] → ts ≡ []
      go [] p = refl
      go (t ∷ ts) p = absurd (omega (arith, length-Permᴰ p))

  top_hash-empty :
      ((ts : List Tally) → Permᴰ (order ts) ts)
      → (e : Evaluation' n m) → e.status.history ≡ []
      → top_hash n m sha256 order clock e ≡ []
  unfolding top_hash tally_from top_seen
  top_hash-empty h e none_left =
      ap (λ ts. (top_seen ts).replicas_hash)
        (ap (λ rs. order (tally_from rs [])) none_left ∙ order_nil h)

  evaluate-unknown :
      (answer : Call n m → Option Error) (desired : ReplicaList n.Quantity) (e e' : Evaluation' n m)
      → project n m sha256 order clock desired (observe n m sha256 order clock desired e) ≡ e'
      → text_eq
          (top_hash n m sha256 order clock e')
          (hash_of n m sha256 order clock e'.status.projection)
        ≡ false
      → (evaluate n m sha256 order clock answer desired e).calls
        ≡ update_status (with_condition n m (not_ready "AwaitingNewProjection") e') ∷ []
  unfolding evaluate
  evaluate-unknown answer desired e e' same unknown =
      rw (same, unknown) (finish-calls answer _ done)

  project-unknown :
      (desired : ReplicaList n.Quantity) (e : Evaluation' n m)
      → text_eq (top_hash n m sha256 order clock e) (hash_of n m sha256 order clock desired) ≡ false
      → project n m sha256 order clock desired e ≡ e
  unfolding project
  project-unknown desired e h = rw h

  observe-empty :
      (desired : ReplicaList n.Quantity) (e : Evaluation' n m)
      → history_retention_period e ≡ 0
      → ((i : ℕ) → clock.seen ≤ clock.trimmed i)
      → All (SeenBy clock.seen) e.status.history
      → observe n m sha256 order clock desired e
        ≡ record e { status = record (e.status) { history = [] } }
  unfolding observe
  observe-empty desired e zero_period clock_ok seen =
      ap (λ rs. record e { status = record (e.status) { history = rs } })
        (ap
            (λ d.
              trim d clock.trimmed
                (note_seen (hash_of n m sha256 order clock desired) clock.seen e.status.history))
            zero_period
          ∙ trim_all clock.seen clock.trimmed _ clock_ok (
              note_seen-SeenBy (hash_of n m sha256 order clock desired) clock.seen e.status.history
                seen))

  nil-ne-hash : (s : Text) → sha256 s ≢ [] → text_eq [] (sha256 s) ≡ false
  nil-ne-hash s h = elim (Bool-cases (text_eq [] (sha256 s))) [
    | inl e ↦ absurd (h (sym (text_eq→eq [] (sha256 s) e)))
    | inr e ↦ e
  ]

  top_hash-unknown :
      ((ts : List Tally) → Permᴰ (order ts) ts)
      → ((s : Text) → sha256 s ≢ [])
      → (e : Evaluation' n m) (rs : ReplicaList n.Quantity) → e.status.history ≡ []
      → text_eq (top_hash n m sha256 order clock e) (hash_of n m sha256 order clock rs) ≡ false
  top_hash-unknown rearranges hashes e rs none_left =
      ap (λ h. text_eq h (hash_of n m sha256 order clock rs))
        (top_hash-empty rearranges e none_left)
      ∙ nil-ne-hash (serialize_to_string rs) (hashes (serialize_to_string rs))

  -- The evaluation that keeps no history: where the retention period is 0, no record of the history
  -- is later than the clock, which does not run backwards, sha256 gives no empty text, maps are
  -- walked whole and the provider is ready, a pass writes one status, which is not ready for want
  -- of a projection, with an empty history and the replicas as they were, whatever the desired
  -- replicas are.
  pub never_elects :
      (answer : Call n m → Option Error) (e : Evaluation' n m)
      (p : PartitionProvider n.Quantity m.Conditions)
      → ((ts : List Tally) → Permᴰ (order ts) ts)
      → ((s : Text) → sha256 s ≢ [])
      → history_retention_period e ≡ 0
      → ((i : ℕ) → clock.seen ≤ clock.trimmed i)
      → All (SeenBy clock.seen) e.status.history
      → is_ready m p.conditions ≡ true
      → (reconcile n m sha256 order clock answer (found e) (ok p)).calls
        ≡ update_status (
            with_condition n m
              (not_ready "AwaitingNewProjection")
              (record e { status = record (e.status) { history = [] } }))
          ∷ []
  unfolding reconcile find_provider check_provider
  never_elects answer e p rearranges hashes zero_period clock_ok seen good = rw good (
      evaluate-unknown answer p.replicas e emptied
        (ap (project n m sha256 order clock p.replicas)
            (observe-empty p.replicas e zero_period clock_ok seen)
          ∙ project-unknown p.replicas emptied
              (top_hash-unknown rearranges hashes emptied p.replicas refl))
        (top_hash-unknown rearranges hashes emptied emptied.status.projection refl))
    where
      emptied : Evaluation' n m
      emptied = record e { status = record (e.status) { history = [] } }
