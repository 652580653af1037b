-- ===== src/Controller/Calls.antt =====
-- Properties of all the calls of a pass, by the shape of the code.
use Prim.Native.String.{String}
use argocd_autoscaler.Base.{false, ◌≡◌, subst, sym, Option, Option-cases, inl, inr, All}
use argocd_autoscaler.Controller.{
  Error, Meta, IsMeta, is_ready, status_of, not_ready, Outcome, Pass, answered, try_call, finish,
  finish-calls,
}

module _ {Call : Type 0} (P : Call → Type 0) (answer : Call → Option Error) where
  pub try_call-All :
      (c : Call) (on_error : Error → Pass Call) (rest : Pass Call)
      → P c
      → ((e : Error) → All P (on_error e).calls)
      → All P rest.calls
      → All P (try_call answer c on_error rest).calls
  try_call-All c on_error rest h k l = elim (Option-cases (answer c)) [
    | inl e ↦ rw (e, answered) (h, l)
    | inr (x, e) ↦ rw (e, answered) (h, k x)
  ]

  pub finish-All : (c : Call) (o : Outcome) → P c → All P (finish answer c o).calls
  finish-All c o h = subst (All P) (sym (finish-calls answer c o)) (h, tt)

-- A condition that was set to not ready is not ready.
pub not_ready-set :
    (m : Meta)
    → IsMeta m
    → (cs : m.Conditions) (reason : String) → is_ready m (m.set cs (not_ready reason)) ≡ false
not_ready-set m laws cs reason = rw (laws.find-set cs (not_ready reason), status_of)
