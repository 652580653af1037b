-- ===== src/Evaluation/Election.antt =====
-- The loop that determines the top seen record.
use argocd_autoscaler.Base.{
  ℕ, suc, ◌≤◌, ◌<◌, ◌≡◌, refl, ap, ◌∙◌, subst, ◌⊎◌, inl, inr, some, List, [], ◌∷◌, get_elem?, All,
  All-map, arith,
}
use argocd_autoscaler.Evaluation.{
  HistoricalRecord, Tally, Leader, zero_record, challenge, elect_from, top_seen,
}

-- A count that an int32 holds without a sign, and at least one.
abbrev pub IsCount : ℕ → Type 0
IsCount k = (0 < k) × (k < 2147483648)

-- The leader is ahead of the tally, by the count and then by the timestamp.
abbrev pub IsAhead : ℕ → ℕ → Tally → Type 0
IsAhead count time t =
    (t.seen_times < count) ⊎ ((t.seen_times ≡ count) × (t.first.timestamp ≤ time))

abbrev Ahead : Leader → Tally → Type 0
Ahead l t = IsAhead l.max_seen_count l.top_seen_record.timestamp t

challenge-Ahead :
    (t : Tally) (l : Leader)
    → t.seen_times < 2147483648
    → l.max_seen_count < 2147483648
    → Ahead (challenge t l) t
unfolding challenge
challenge-Ahead t l h k = ground arith

challenge-keeps :
    (t u : Tally) (l : Leader)
    → t.seen_times < 2147483648
    → l.max_seen_count < 2147483648
    → Ahead l u
    → Ahead (challenge t l) u
unfolding challenge
challenge-keeps t u l h k a = ground arith

-- The leader is the tally at a place of the list, or the one before.
challenge-leads :
    (t : Tally) (l : Leader)
    → (challenge t l ≡ l)
      ⊎ (challenge t l ≡ record { top_seen_record = t.first; max_seen_count = t.seen_times })
unfolding challenge
challenge-leads t l = ground arith

challenge-small :
    (t : Tally) (l : Leader)
    → t.seen_times < 2147483648
    → l.max_seen_count < 2147483648
    → (challenge t l).max_seen_count < 2147483648
unfolding challenge
challenge-small t l h k = ground arith

elect_from-keeps :
    (u : Tally) (ts : List Tally) (l : Leader)
    → All (λ t. t.seen_times < 2147483648) ts
    → l.max_seen_count < 2147483648
    → Ahead l u
    → Ahead (elect_from ts l) u
unfolding elect_from
elect_from-keeps u [] l h k a = a
elect_from-keeps u (t ∷ ts) l h k a =
    elect_from-keeps u ts (challenge t l) h.1 (challenge-small t l h.0 k)
      (challenge-keeps t u l h.0 k a)

elect_from-Ahead :
    (ts : List Tally) (l : Leader)
    → All (λ t. t.seen_times < 2147483648) ts
    → l.max_seen_count < 2147483648
    → All (Ahead (elect_from ts l)) ts
unfolding elect_from
elect_from-Ahead [] l h k = tt
elect_from-Ahead (t ∷ ts) l h k = (
  elect_from-keeps t ts (challenge t l) h.1 (challenge-small t l h.0 k) (challenge-Ahead t l h.0 k),
  elect_from-Ahead ts (challenge t l) h.1 (challenge-small t l h.0 k),
)

abbrev Leads : List Tally → Leader → Leader → Type 0
Leads ts l l' =
    (l' ≡ l)
    ⊎ ((i : ℕ) × (t : Tally) × (get_elem? ts i ≡ some t)
        × (l' ≡ record { top_seen_record = t.first; max_seen_count = t.seen_times }))

elect_from-Leads : (ts : List Tally) (l : Leader) → Leads ts l (elect_from ts l)
unfolding elect_from
elect_from-Leads [] l = inl refl
elect_from-Leads (t ∷ ts) l = go (challenge-leads t l) (elect_from-Leads ts (challenge t l))
  where
    go :
        (challenge t l ≡ l)
          ⊎ (challenge t l ≡ record { top_seen_record = t.first; max_seen_count = t.seen_times })
        → Leads ts (challenge t l) (elect_from ts (challenge t l))
        → Leads (t ∷ ts) l (elect_from ts (challenge t l))
    go c (inr (i, u, at, e)) = inr (suc i, u, at, e)
    go (inl c) (inl e) = inl (e ∙ c)
    go (inr c) (inl e) = inr (0, t, refl, e ∙ c)

-- A tally of the list that is ahead of all others.
abbrev pub Wins : List Tally → HistoricalRecord → Type 0
Wins ts r =
    (i : ℕ) × (t : Tally) × (get_elem? ts i ≡ some t)
    × (r ≡ t.first)
    × All (IsAhead t.seen_times t.first.timestamp) ts

-- The loop over the map of counts takes, in whatever order it runs, the record of a hash with the
-- greatest count, and among those of equal count one with the latest timestamp, if there is a hash
-- at all and every count is positive and has not overflowed.
pub top_seen-Wins :
    (t : Tally) (ts : List Tally)
    → All (λ u. IsCount u.seen_times) (t ∷ ts)
    → Wins (t ∷ ts) (top_seen (t ∷ ts))
unfolding top_seen
top_seen-Wins t ts h =
    go (elect_from-Leads (t ∷ ts) start) (elect_from-Ahead (t ∷ ts) start small (omega arith))
  where
    start : Leader
    start = record { top_seen_record = zero_record; max_seen_count = 0 }

    small : All (λ u. u.seen_times < 2147483648) (t ∷ ts)
    small = All-map {P = λ u. IsCount u.seen_times} (t ∷ ts) (λ u c. c.1) h

    go :
        Leads (t ∷ ts) start (elect_from (t ∷ ts) start)
        → All (Ahead (elect_from (t ∷ ts) start)) (t ∷ ts)
        → Wins (t ∷ ts) (elect_from (t ∷ ts) start).top_seen_record
    go (inl e) a = absurd (ground (arith, a.0, h.0, ap (λ l. l.max_seen_count) e))
    go (inr (i, u, at, e)) a =
        (i, u, at, ap (λ l. l.top_seen_record) e, subst (λ l. All (Ahead l) (t ∷ ts)) e a)
