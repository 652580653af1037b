-- ===== src/Evaluation/History.antt =====
-- The history, and the hashes of its records.
use argocd_autoscaler.Base.{
  ℕ, suc, ◌+◌, ◌≡◌, refl, ap, ◌∙◌, inl, inr, Bool, false, ◌||◌, some, none, List, [], ◌∷◌, ◌++◌,
  arith, some_inj, map-eq_some, Bool-cases, Option-cases, ltb,
}
use argocd_autoscaler.Text.{Text, text_eq}
use argocd_autoscaler.Text.Order.{text_eq_sym}
use argocd_autoscaler.Arithmetic.{Arithmetic}
use argocd_autoscaler.Api.{ReplicaList}
use argocd_autoscaler.Controller.{Meta}
use argocd_autoscaler.Evaluation.Reconcile.{
  Evaluation', Clock, observe, project, elect, expired, hash_of, top_hash,
}
use argocd_autoscaler.Evaluation.{stabilization_period_for_projection, history_retention_period}
use argocd_autoscaler.Evaluation.{HistoricalRecord, Tally, bump, note_seen, trim, new_record}

unfoldable pub has_hash : Text → List HistoricalRecord → Bool
has_hash h [] = false
has_hash h (r ∷ rs) = text_eq r.replicas_hash h || has_hash h rs

-- No two records have the same hash.
abbrev pub OneEach : List HistoricalRecord → Type 0
OneEach [] = Unit
OneEach (r ∷ rs) = (has_hash r.replicas_hash rs ≡ false) × OneEach rs

bump-has_hash :
    (h k : Text) (now : ℕ) (rs : List HistoricalRecord) {rs' : List HistoricalRecord}
    → bump h now rs ≡ some rs'
    → has_hash k rs' ≡ has_hash k rs
unfolding bump has_hash
bump-has_hash h k now [] e = cc
bump-has_hash h k now (r ∷ rs) e = elim (Bool-cases (text_eq r.replicas_hash h)) [
  | inl hit ↦ rw (← some_inj (rw hit at e)) refl
  | inr miss ↦
      let (ys, e', e'') = map-eq_some (◌∷◌ r) (bump h now rs) (rw miss at e) in
      rw (← e'') (ap (◌||◌ (text_eq r.replicas_hash k)) (bump-has_hash h k now rs e'))
]

bump-OneEach :
    (h : Text) (now : ℕ) (rs : List HistoricalRecord) {rs' : List HistoricalRecord}
    → bump h now rs ≡ some rs'
    → OneEach rs
    → OneEach rs'
unfolding bump
bump-OneEach h now [] e o = cc
bump-OneEach h now (r ∷ rs) e o = elim (Bool-cases (text_eq r.replicas_hash h)) [
  | inl hit ↦ rw (← some_inj (rw hit at e)) o
  | inr miss ↦
      let (ys, e', e'') = map-eq_some (◌∷◌ r) (bump h now rs) (rw miss at e) in
      rw (← e'') (bump-has_hash h r.replicas_hash now rs e' ∙ o.0, bump-OneEach h now rs e' o.1)
]

bump-none :
    (h : Text) (now : ℕ) (rs : List HistoricalRecord) → bump h now rs ≡ none → has_hash h rs ≡ false
unfolding bump has_hash
bump-none h now [] e = refl
bump-none h now (r ∷ rs) e = elim (Option-cases (bump h now rs)) [
  | inl e' ↦ ground (arith, bump-none h now rs e')
  | inr (ys, e') ↦ absurd (ground arith)
]

has_hash-append :
    (k : Text) (rs : List HistoricalRecord) (r : HistoricalRecord)
    → has_hash k (rs ++ r ∷ []) ≡ has_hash k rs || text_eq r.replicas_hash k
unfolding has_hash
has_hash-append k [] r = ground arith
has_hash-append k (s ∷ rs) r = ground (arith, has_hash-append k rs r)

append_new-OneEach :
    (h : Text) (now : ℕ) (rs : List HistoricalRecord)
    → has_hash h rs ≡ false
    → OneEach rs
    → OneEach (rs ++ new_record h now ∷ [])
unfolding has_hash
append_new-OneEach h now [] e o = (refl, tt)
append_new-OneEach h now (r ∷ rs) e o = (
  ground
      (arith, has_hash-append r.replicas_hash rs (new_record h now), text_eq_sym r.replicas_hash h),
  append_new-OneEach h now rs (ground arith) o.1,
)

pub note_seen-OneEach :
    (h : Text) (now : ℕ) (rs : List HistoricalRecord) → OneEach rs → OneEach (note_seen h now rs)
unfolding note_seen
note_seen-OneEach h now rs o = elim (Option-cases (bump h now rs)) [
  | inl e ↦ rw (e, note_seen) (append_new-OneEach h now rs (bump-none h now rs e) o)
  | inr (ys, e) ↦ rw (e, note_seen) (bump-OneEach h now rs e o)
]

trim-has_hash :
    (h : Text) (retention : ℕ) (clock : ℕ → ℕ) (rs : List HistoricalRecord)
    → has_hash h rs ≡ false
    → has_hash h (trim retention clock rs) ≡ false
unfolding trim has_hash
trim-has_hash h retention clock [] e = refl
trim-has_hash h retention clock (r ∷ rs) e =
    ground (arith, trim-has_hash h retention (λ i. clock (suc i)) rs)

pub trim-OneEach :
    (retention : ℕ) (clock : ℕ → ℕ) (rs : List HistoricalRecord)
    → OneEach rs
    → OneEach (trim retention clock rs)
unfolding trim
trim-OneEach retention clock [] o = tt
trim-OneEach retention clock (r ∷ rs) o =
    elim (Bool-cases (ltb (clock 0) (r.timestamp + retention))) [
      | inl kept ↦ rw kept (
        trim-has_hash r.replicas_hash retention (λ i. clock (suc i)) rs o.0,
        trim-OneEach retention (λ i. clock (suc i)) rs o.1,
      )
      | inr dropped ↦ rw dropped (trim-OneEach retention (λ i. clock (suc i)) rs o.1)
    ]

module _ (n : Arithmetic) (m : Meta) (sha256 : Text → Text) (order : List Tally → List Tally)
    (clock : Clock) where
  elect-OneEach :
      (e : Evaluation' n m)
      → OneEach e.status.history
      → OneEach (elect n m sha256 order clock e).status.history
  unfolding elect has_hash
  elect-OneEach e o =
      elim (Bool-cases (
        expired n m sha256 order clock e.status.last_evaluation_timestamp
          (stabilization_period_for_projection e))) [
            | inl due ↦ rw (elect, due) (refl, tt)
            | inr early ↦ rw (elect, early) o
          ]

  observed-OneEach :
      (desired : ReplicaList n.Quantity) (e : Evaluation' n m)
      → OneEach e.status.history
      → OneEach
          (project n m sha256 order clock desired
            (observe n m sha256 order clock desired e)).status.history
  unfolding project observe
  observed-OneEach desired e o =
      let o' = trim-OneEach (history_retention_period e) clock.trimmed _ (
        note_seen-OneEach (hash_of n m sha256 order clock desired) clock.seen e.status.history o) in
      elim (Bool-cases (
        text_eq (top_hash n m sha256 order clock (observe n m sha256 order clock desired e))
          (hash_of n m sha256 order clock desired))) [ inl e' ↦ rw e' o' | inr e' ↦ rw e' o' ]

  -- A pass that notes the desired partition, trims the history, projects and elects leaves at most
  -- one record of each hash, if there was at most one before: whatever the clock shows, whichever
  -- order the maps are walked in, and whether or not it elects.
  pub observe-OneEach :
      (desired : ReplicaList n.Quantity) (e : Evaluation' n m)
      → OneEach e.status.history
      → OneEach
          (project n m sha256 order clock desired
            (observe n m sha256 order clock desired e)).status.history
        × OneEach
            (elect n m sha256 order clock (
              project n m sha256 order clock desired
                (observe n m sha256 order clock desired e))).status.history
  observe-OneEach desired e o =
      let noted = observe n m sha256 order clock desired e in
      let o' = observed-OneEach desired e o in
      (o', elect-OneEach (project n m sha256 order clock desired noted) o')
