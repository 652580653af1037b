-- ===== src/Polling/Uids.antt =====
-- The shards of the values that a poll returns.
use argocd_autoscaler.Base.{
  ℕ, suc, ◌+◌, ◌≡◌, refl, ap, sym, ◌∙◌, Bool, true, false, ◌&&◌, ◌||◌, List, [], ◌∷◌, map, Pairwise,
  arith, length,
}
use mathlib.Core.Path.{ap₂}
use mathlib.Core.List.{map-append}
use argocd_autoscaler.Text.{Text}
use argocd_autoscaler.Text.Sorted.{has}
use argocd_autoscaler.Text.Sets.{has-append}
use argocd_autoscaler.Arithmetic.{Arithmetic}
use argocd_autoscaler.Api.{Shard}
use argocd_autoscaler.LoadIndexing.{Metric}
use argocd_autoscaler.Polling.{
  PrometheusMetric, Polled, ok, err, ◌>>=◌, or_error, Prometheus, sample_value, poll_one,
}
use argocd_autoscaler.Polling.Pairs.{Pair, pairs_with, pairs, Gives}

>>=-eq_ok :
    {A B : Type 0} (o : Polled A) (f : A → Polled B) {y : B}
    → (o >>= f) ≡ ok y
    → (x : A) × (o ≡ ok x) × (f x ≡ ok y)
>>=-eq_ok (ok x) f h = (x, refl, h)
>>=-eq_ok (err e) f h = cc

ok_inj : {A : Type 0} {x y : A} → Polled.ok x ≡ Polled.ok y → x ≡ y
ok_inj h = cc

abbrev pub filled : {A : Type 0} → List A → Bool
filled [] = false
filled (x ∷ xs) = true

module _ (n : Arithmetic) (api : Prometheus n.Float) where
  poll_one-names :
      (k : ℕ) (m : PrometheusMetric n.Quantity) (s : Shard) {y : Metric n}
      → poll_one n api k m s ≡ ok y
      → (y.id ≡ m.id) × (y.shard ≡ s)
  unfolding poll_one
  poll_one-names k m s {y} h =
      let (t, e, h1) = >>=-eq_ok (or_error _ (api.parse_template m.id m.query)) _ h in
      let (query, e', h2) = >>=-eq_ok (or_error _ (api.execute t s)) _ h1 in
      let (x, e'', h3) = >>=-eq_ok (sample_value n api m query (api.answer k query)) _ h2 in
      let (q, read, same) = >>=-eq_ok (or_error _ (n.parse (n.format x))) _ h3 in
      (ap (λ z. z.id) (sym (ok_inj same)), ap (λ z. z.shard) (sym (ok_inj same)))

  pub uids_lem :
      (ps : List (Pair n api)) (ys : List (Metric n))
      → Pairwise (Gives n api) ps ys
      → map (λ y. y.shard.uid) ys ≡ map (λ p. p.2.uid) ps
  uids_lem [] [] h = refl
  uids_lem [] (y ∷ ys) h = absurd h
  uids_lem (p ∷ ps) [] h = absurd h
  uids_lem (p ∷ ps) (y ∷ ys) h =
      ap₂ ◌∷◌ (ap (λ s. s.uid) (poll_one-names p.0 p.1 p.2 h.0).1) (uids_lem ps ys h.1)

  with_uids :
      (k : ℕ) (m : PrometheusMetric n.Quantity) (ss : List Shard)
      → map (λ p. p.2.uid) (pairs_with n api k m ss) ≡ map (λ s. s.uid) ss
  with_uids k m [] = refl
  with_uids k m (s ∷ ss) = ap (λ l. s.uid ∷ l) (with_uids (suc k) m ss)

  pub pairs_uids :
      (k : ℕ) (ms : List (PrometheusMetric n.Quantity)) (ss : List Shard) (uid : Text)
      → has uid (map (λ p. p.2.uid) (pairs n api k ms ss))
        ≡ filled ms && has uid (map (λ s. s.uid) ss)
  pairs_uids k [] ss uid = nothing uid
    where
      nothing : (u : Text) → has u [] ≡ false
      nothing u = unfold has in refl
  pairs_uids k (m ∷ ms) ss uid =
      ap (has uid)
        (map-append (λ p. p.2.uid) (pairs_with n api k m ss) (pairs n api (k + length ss) ms ss))
      ∙ has-append uid _ _
      ∙ ap₂ ◌||◌ (ap (has uid) (with_uids k m ss)) (pairs_uids (k + length ss) ms ss uid)
      ∙ absorb (has uid (map (λ s. s.uid) ss)) (filled ms)
    where
      absorb : (a b : Bool) → a || (b && a) ≡ a
      absorb a b = ground arith
