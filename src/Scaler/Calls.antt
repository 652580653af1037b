-- ===== src/Scaler/Calls.antt =====
-- Properties of all the calls of a pass of the replica set scaler.
use argocd_autoscaler.Base.{
  ℕ, ◌≡◌, inl, inr, Bool, Option, some, List, All, arith, Bool-cases, Option-cases,
}
use Prim.Native.String.{String}
use argocd_autoscaler.Text.{Text}
use argocd_autoscaler.Controller.{Error, Meta, not_ready, Outcome, Pass}
use argocd_autoscaler.Controller.Calls.{try_call-All, finish-All}
use argocd_autoscaler.Scaler.{StatefulSet, scaled}
use argocd_autoscaler.Scaler.Objects.{
  Reconciler, Scaler', Call, update_status, update_stateful_set, refresh_stateful_set, event,
  count_change,
}
use argocd_autoscaler.Scaler.Reconcile.{with_condition, record_event, report, refresh, scale_to}

module _ {Q : Type 0} {m : Meta} (r : Reconciler) (answer : Call Q m → Option Error)
    (P : Call Q m → Type 0) (s : Scaler' Q m) where
  -- A property that updates of the status to one that is not ready and otherwise as before, events
  -- and the other calls that write no other object have anyway.
  pub record IsQuiet : Type 0 where
    pub status : (reason : String) → P (update_status (with_condition Q m (not_ready reason) s))
    pub refreshed : P refresh_stateful_set
    pub events : (reason : String) (numbers : List ℕ) → P (event reason numbers)
    pub counted : P count_change

  module _ (quiet : IsQuiet) where
    pub report-All : (reason : String) (o : Outcome) → All P (report Q m r answer reason o s).calls
    report-All reason o = finish-All P answer _ o (quiet.status reason)

    pub record_event-All :
        (reason : String) (numbers : List ℕ) (rest : Pass (Call Q m))
        → All P rest.calls
        → All P (record_event Q m r answer reason numbers rest).calls
    record_event-All reason numbers rest h = elim (Bool-cases r.has_recorder) [
      | inl e ↦ rw e (quiet.events reason numbers, h)
      | inr e ↦ rw e h
    ]

    pub refresh-All :
        (rest : Pass (Call Q m)) → All P rest.calls → All P (refresh Q m r answer rest).calls
    refresh-All rest h = elim (Bool-cases r.has_api_reader) [
      | inl e ↦ rw e (quiet.refreshed, h)
      | inr e ↦ rw e h
    ]

    pub scale_to-All :
        (sts : StatefulSet) (k : ℕ) (restart : Bool) (on_error : Error → Pass (Call Q m))
        (rest : Pass (Call Q m))
        → ((t : StatefulSet) → scaled r.now k restart sts ≡ some t → P (update_stateful_set t))
        → ((e : Error) → All P (on_error e).calls)
        → All P rest.calls
        → All P (scale_to Q m r answer sts k restart on_error rest).calls
    unfolding scale_to
    scale_to-All sts k restart on_error rest h on_err h' =
        elim (Option-cases (scaled r.now k restart sts)) [
          | inl e ↦ rw (e, scale_to) (on_err _)
          | inr (t, e) ↦
              rw (e, scale_to)
                (try_call-All P answer (update_stateful_set t) _ _ (h t e)
                  (λ x. refresh-All (on_error x) (on_err x)) (refresh-All rest h'))
        ]

-- Whatever is sent for the stateful set has the number of replicas that was asked for.
pub scaled-replicas :
    (now : Text) (k : ℕ) (restart : Bool) (sts t : StatefulSet)
    → scaled now k restart sts ≡ some t
    → t.spec_replicas ≡ some k
unfolding scaled
scaled-replicas now k restart sts t h = ground arith
