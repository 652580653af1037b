-- ===== src/Evaluation/Winner.antt =====
-- The top seen record of a history with one record for each hash.
use argocd_autoscaler.Base.{
  ℕ, zero, suc, ◌≤◌, ◌<◌, ◌≡◌, refl, ap, ◌∙◌, sym, subst, ◌⊎◌, false, ◌≢◌, some, List, [], ◌∷◌,
  ◌++◌, map, get_elem?, get_elem?-Permᴰ, All, All-Permᴰ, length-Permᴰ, arith,
}
use mathlib.Core.List.{Permᴰ, append-nil, append_assoc}
use mathlib.Core.List.Permᴰ
use argocd_autoscaler.Text.{Text, text_eq}
use argocd_autoscaler.Text.Order.{text_eq_sym}
use argocd_autoscaler.Evaluation.{HistoricalRecord, Tally, tally_record, tally_from, top_seen}
use argocd_autoscaler.Evaluation.History.{has_hash, OneEach}
use argocd_autoscaler.Evaluation.Election.{IsCount, IsAhead, Wins, top_seen-Wins}

abbrev tally_of : HistoricalRecord → Tally
tally_of r = record { first = r; last_seen = r.timestamp; seen_times = r.seen_times }

-- No tally is of the hash.
abbrev Misses : Text → List Tally → Type 0
Misses h = All (λ t. text_eq t.first.replicas_hash h ≡ false)

tally_record-new :
    (r : HistoricalRecord) (ts : List Tally)
    → Misses r.replicas_hash ts
    → tally_record r ts ≡ ts ++ tally_of r ∷ []
unfolding tally_record
tally_record-new r [] h = refl
tally_record-new r (t ∷ ts) h = rw h.0 (ap (◌∷◌ t) (tally_record-new r ts h.1))

Misses-append :
    (h : Text) (ts : List Tally) (t : Tally)
    → Misses h ts
    → text_eq t.first.replicas_hash h ≡ false
    → Misses h (ts ++ t ∷ [])
Misses-append h [] t a e = (e, tt)
Misses-append h (u ∷ ts) t a e = (a.0, Misses-append h ts t a.1 e)

-- Each record of the list is missed by the tallies.
abbrev AllMissed : List HistoricalRecord → List Tally → Type 0
AllMissed rs ts = All (λ r. Misses r.replicas_hash ts) rs

AllMissed-append :
    (r : HistoricalRecord) (rs : List HistoricalRecord) (ts : List Tally)
    → has_hash r.replicas_hash rs ≡ false
    → AllMissed rs ts
    → AllMissed rs (ts ++ tally_of r ∷ [])
unfolding has_hash
AllMissed-append r [] ts e a = tt
AllMissed-append r (s ∷ rs) ts e a = (
  Misses-append s.replicas_hash ts (tally_of r) a.0
      (ground (arith, text_eq_sym s.replicas_hash r.replicas_hash)),
  AllMissed-append r rs ts (ground arith) a.1,
)

tally_from-map :
    (rs : List HistoricalRecord) (ts : List Tally)
    → OneEach rs
    → AllMissed rs ts
    → tally_from rs ts ≡ ts ++ map tally_of rs
unfolding tally_from
tally_from-map [] ts o a = sym (append-nil ts)
tally_from-map (r ∷ rs) ts o a = rw (tally_record-new r ts a.0) (
    tally_from-map rs (ts ++ tally_of r ∷ []) o.1 (AllMissed-append r rs ts o.0 a.1)
    ∙ append_assoc ts (tally_of r ∷ []) (map tally_of rs))

no_tallies : (rs : List HistoricalRecord) → AllMissed rs []
no_tallies [] = tt
no_tallies (r ∷ rs) = (tt, no_tallies rs)

pub tally_from-records :
    (rs : List HistoricalRecord) → OneEach rs → tally_from rs [] ≡ map tally_of rs
tally_from-records rs o = tally_from-map rs [] o (no_tallies rs)

-- The record is in the history, no record was seen more often, and of those seen as often none is
-- later.
abbrev pub MostSeen : List HistoricalRecord → HistoricalRecord → Type 0
MostSeen history r =
    (i : ℕ) × (get_elem? history i ≡ some r)
    × All
        (λ s.
          (s.seen_times < r.seen_times)
          ⊎ ((s.seen_times ≡ r.seen_times) × (s.timestamp ≤ r.timestamp)))
        history

get_elem?-tallies :
    (rs : List HistoricalRecord) (i : ℕ) {t : Tally}
    → get_elem? (map tally_of rs) i ≡ some t
    → (get_elem? rs i ≡ some t.first) × (t.seen_times ≡ t.first.seen_times)
get_elem?-tallies [] i e = cc
get_elem?-tallies (r ∷ rs) zero e = ground arith
get_elem?-tallies (r ∷ rs) (suc i) e = get_elem?-tallies rs i e

All-tallies :
    (P : Tally → Type 0) (rs : List HistoricalRecord)
    → All P (map tally_of rs)
    → All (λ r. P (tally_of r)) rs
All-tallies P [] h = tt
All-tallies P (r ∷ rs) h = (h.0, All-tallies P rs h.1)

All-to_tallies :
    (P : Tally → Type 0) (rs : List HistoricalRecord)
    → All (λ r. P (tally_of r)) rs
    → All P (map tally_of rs)
All-to_tallies P [] h = tt
All-to_tallies P (r ∷ rs) h = (h.0, All-to_tallies P rs h.1)

Wins-MostSeen :
    (rs : List HistoricalRecord) (ts : List Tally) (r : HistoricalRecord)
    → Permᴰ ts (map tally_of rs)
    → Wins ts r
    → MostSeen rs r
Wins-MostSeen rs ts r p (i, t, at, e, ahead) =
    let (j, at') = get_elem?-Permᴰ i p at in
    let (here, count) = get_elem?-tallies rs j at' in
    (
      j,
      rw e here,
      rw (e, ← count)
          (All-tallies (IsAhead t.seen_times t.first.timestamp) rs
            (All-Permᴰ (IsAhead t.seen_times t.first.timestamp) p ahead)),
    )

-- Whatever the order in which the maps are walked: in a history that is not empty, has one record
-- for each hash and counts that are positive and have not overflowed, the top seen record is a
-- record of the history that was seen most often, and among those one seen last.
pub top_seen-MostSeen :
    (order : List Tally → List Tally)
    → ((ts : List Tally) → Permᴰ (order ts) ts)
    → (history : List HistoricalRecord) → history ≢ []
    → OneEach history
    → All (λ r. IsCount r.seen_times) history
    → MostSeen history (top_seen (order (tally_from history [])))
top_seen-MostSeen order rearranges [] nonempty o counts = absurd (nonempty refl)
top_seen-MostSeen order rearranges (r ∷ rs) nonempty o counts =
    go (order (tally_from (r ∷ rs) [])) (
      subst (Permᴰ (order (tally_from (r ∷ rs) []))) (tally_from-records (r ∷ rs) o)
        (rearranges (tally_from (r ∷ rs) [])))
  where
    go : (ts : List Tally) → Permᴰ ts (map tally_of (r ∷ rs)) → MostSeen (r ∷ rs) (top_seen ts)
    go [] p = absurd (omega (arith, length-Permᴰ p))
    go (t ∷ ts) p = Wins-MostSeen (r ∷ rs) (t ∷ ts) (top_seen (t ∷ ts)) p (
        top_seen-Wins t ts (
          All-Permᴰ (λ u. IsCount u.seen_times) (Permᴰ.symm p)
            (All-to_tallies (λ u. IsCount u.seen_times) (r ∷ rs) counts)))
