-- ===== src/Controller.antt =====
-- What the reconcilers of internal/controller/autoscaler share: conditions, calls to the API
-- server, the outcome of a pass and the rate limit at its start.
-- A pass is the list of the calls that it makes, in their order, with its outcome. How the API
-- server answers a call is a parameter; a call that fails stays in the list.
pub mod RateLimit
pub mod Calls
use argocd_autoscaler.Base.{
  ℕ, ◌+◌, ◌-◌, ◌*◌, ◌≡◌, Bool, true, false, Option, none, some, List, [], ◌∷◌, Option-cases, inl,
  inr,
}
use Prim.Native.String.{String}
use argocd_autoscaler.Text.{Text, text_eq}

-- An error is its text.
abbrev pub Error : Type 0
Error = String

pub data Result {ℓ} (A : Type ℓ) : Type ℓ where
  ok : A → Result A
  err : Error → Result A

-- A condition of type Ready, the only type that the program sets or reads. Its message, which is
-- for people, and its times are left out.
pub record Condition : Type 0 where
  pub status : Bool
  pub reason : String

-- k8s.io/apimachinery/pkg/api/meta over a list of conditions: SetStatusCondition and
-- FindStatusCondition at the type Ready.
pub record Meta : Type 1 where
  pub Conditions : Type 0
  pub set : Conditions → Condition → Conditions
  pub find : Conditions → Option Condition

-- The documentation of SetStatusCondition: the condition of that type is the new one.
pub record IsMeta (m : Meta) : Type 0 where
  pub find-set : (cs : m.Conditions) (c : Condition) → m.find (m.set cs c) ≡ some c

abbrev pub status_of : Option Condition → Bool
status_of none = false
status_of (some c) = c.status

-- IsStatusConditionPresentAndEqual(conditions, StatusTypeReady, ConditionTrue)
abbrev pub is_ready : (m : Meta) → m.Conditions → Bool
is_ready m cs = status_of (m.find cs)

abbrev pub not_ready : String → Condition
not_ready reason = record { status = false; reason = reason }

abbrev pub ready : Condition
ready = record { status = true; reason = "Ready" }

-- A list of conditions that keeps the last one only.
abbrev pub last_condition : Meta
last_condition = record { Conditions = Option Condition; set = λ cs c. some c; find = λ cs. cs }

-- Durations are in nanoseconds.
abbrev pub second : ℕ
second = 1000000000

abbrev pub global_rate_limit : ℕ
global_rate_limit = 5 * second

-- What Reconcile returns; `done` is an empty result. A requeue after 0 is no requeue.
pub data Outcome : Type 0 where
  done : Outcome
  requeue_after : ℕ → Outcome
  failed : Error → Outcome
  panicked : Outcome

pub record Pass (Call : Type 0) : Type 0 where
  pub calls : List Call
  pub outcome : Outcome

module _ {Call : Type 0} where
  abbrev pub stop : Outcome → Pass Call
  stop o = record { calls = []; outcome = o }

  -- A call whose answer the code does not look at.
  abbrev pub emit : Call → Pass Call → Pass Call
  emit c rest = record { calls = c ∷ rest.calls; outcome = rest.outcome }

  module _ (answer : Call → Option Error) where
    abbrev pub answered : Option Error → (Error → Pass Call) → Pass Call → Pass Call
    answered none on_error rest = rest
    answered (some e) on_error rest = on_error e

    -- `if err := call; err != nil { … }`
    abbrev pub try_call : Call → (Error → Pass Call) → Pass Call → Pass Call
    try_call c on_error rest = emit c (answered (answer c) on_error rest)

    -- The call that ends most passes: an update of the status.
    abbrev pub finish : Call → Outcome → Pass Call
    finish c o = try_call c (λ e. stop (failed e)) (stop o)

    -- It makes that one call, however it is answered.
    pub finish-calls : (c : Call) (o : Outcome) → (finish c o).calls ≡ c ∷ []
    finish-calls c o = elim (Option-cases (answer c)) [
      | inl e ↦ rw (e, answered)
      | inr (x, e) ↦ rw (e, answered)
    ]
