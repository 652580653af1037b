-- ===== src/Controller/RateLimit.antt =====
-- The first lines of every Reconcile: `lastReconciled`, a sync.Map from requests to times.
-- The clock is read at each place where the code reads it.
use argocd_autoscaler.Base.{
  ℕ, ◌+◌, ◌-◌, ◌≤◌, ◌<◌, ◌≡◌, refl, Option, none, some, List, [], ◌∷◌, false, ltb, if◌then◌else◌,
  arith, ap, ◌∙◌, All,
}
use argocd_autoscaler.Text.{Text, text_eq}
use argocd_autoscaler.Text.Order.{text_eq_refl, text_eq→eq}
use argocd_autoscaler.Controller.{Outcome, requeue_after, global_rate_limit}

abbrev pub LastReconciled : Type 0
LastReconciled = List (Text × ℕ)

unfoldable pub load_time : Text → LastReconciled → Option ℕ
load_time k [] = none
load_time k ((j, t) ∷ m) = if text_eq j k then some t else load_time k m

unfoldable pub store_time : Text → ℕ → LastReconciled → LastReconciled
store_time k t [] = (k, t) ∷ []
store_time k t ((j, u) ∷ m) = if text_eq j k then (k, t) ∷ m else (j, u) ∷ store_time k t m

-- A pass is turned away with an outcome, or goes on.
pub data Admission : Type 0 where
  limited : Outcome → Admission
  admitted : LastReconciled → Admission

-- The times of a pass: of the test, of the requeue, and of the store.
pub record Readings : Type 0 where
  pub tested : ℕ
  pub requeued : ℕ
  pub stored : ℕ

abbrev admit_after : Option ℕ → Text → Readings → LastReconciled → Admission
admit_after none req now last = admitted (store_time req now.stored last)
admit_after (some t) req now last =
    if ltb now.tested (t + global_rate_limit)
    then limited (requeue_after (t + global_rate_limit - now.requeued))
    else admitted (store_time req now.stored last)

unfoldable pub admit : Text → Readings → LastReconciled → Admission
unfolding load_time store_time
admit req now last = admit_after (load_time req last) req now last

load-store :
    (k j : Text) (t : ℕ) (m : LastReconciled)
    → load_time j (store_time k t m) ≡ (if text_eq k j then some t else load_time j m)
unfolding load_time store_time
load-store k j t [] = refl
load-store k j t ((i, u) ∷ m) =
    ground
      (arith, text_eq→eq i k, text_eq→eq k j, text_eq→eq i j, text_eq_refl k, load-store k j t m)

-- The map after a pass, and after several.
abbrev after : Admission → LastReconciled → LastReconciled
after (limited o) last = last
after (admitted last') last = last'

pub passes : List (Text × Readings) → LastReconciled → LastReconciled
passes [] last = last
passes ((req, now) ∷ rest) last = passes rest (after (admit req now last) last)

admit-stores :
    (req : Text) (now : Readings) (last : LastReconciled) {last' : LastReconciled}
    → admit req now last ≡ admitted last'
    → last' ≡ store_time req now.stored last
unfolding admit
admit-stores req now last h = ground arith

admit-other :
    (req other : Text) (now : Readings) (last : LastReconciled)
    → text_eq other req ≡ false
    → load_time req (after (admit other now last) last) ≡ load_time req last
unfolding admit
admit-other req other now last h = ground (arith, load-store other req now.stored last)

passes-other :
    (req : Text) (between : List (Text × Readings)) (last : LastReconciled)
    → All (λ e. text_eq e.0 req ≡ false) between
    → load_time req (passes between last) ≡ load_time req last
unfolding passes
passes-other req [] last h = refl
passes-other req ((other, now) ∷ rest) last h =
    passes-other req rest (after (admit other now last) last) h.1
    ∙ admit-other req other now last h.0

admit-known :
    (req : Text) (now : Readings) (last : LastReconciled) (t : ℕ)
    → load_time req last ≡ some t
    → (now.tested < t + global_rate_limit
        → admit req now last ≡ limited (requeue_after (t + global_rate_limit - now.requeued)))
      × (t + global_rate_limit ≤ now.tested
          → admit req now last ≡ admitted (store_time req now.stored last))
unfolding admit
admit-known req now last t h = rw (h, admit_after) (ground arith)

-- After an admitted pass, and any passes on other requests since, a pass on the same request is
-- turned away until five seconds have gone by since the admitted pass stored its time, and is told
-- to come back at the end of the five seconds; from then on it is admitted.
pub admit_spaces :
    (req : Text) (first now : Readings) (between : List (Text × Readings))
    (last last' : LastReconciled)
    → admit req first last ≡ admitted last'
    → All (λ e. text_eq e.0 req ≡ false) between
    → (now.tested < first.stored + global_rate_limit
        → admit req now (passes between last')
          ≡ limited (requeue_after (first.stored + global_rate_limit - now.requeued)))
      × (first.stored + global_rate_limit ≤ now.tested
          → admit req now (passes between last')
            ≡ admitted (store_time req now.stored (passes between last')))
admit_spaces req first now between last last' h others =
    admit-known req now (passes between last') first.stored (
      passes-other req between last' others
      ∙ ap (load_time req) (admit-stores req first last h)
      ∙ load-store req req first.stored last
      ∙ rw (text_eq_refl req))
