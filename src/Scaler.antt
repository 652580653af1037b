-- ===== src/Scaler.antt =====
-- The replica set scaler: its resource (api/autoscaler/v1alpha1/replicasetscaler_types.go) and
-- what internal/controller/autoscaler/replicasetscaler_controller.go does to a StatefulSet.
-- Numbers of replicas are int32 and not negative, as the API server validates. The kind of the
-- replica set controller is StatefulSet wherever these functions are called, so the branches that
-- panic as unreachable are left out.
pub mod Objects
pub mod Reconcile
pub mod Environment
pub mod Scaling
pub mod Calls
pub mod Guards
pub mod Guarding
pub mod Safety
pub mod Readiness
pub mod Pausing
pub mod Rollout
use argocd_autoscaler.Base.{
  ℕ, zero, suc, ◌+◌, Bool, true, false, ◌&&◌, ◌||◌, not, Option, none, some, List, [], ◌∷◌, ◌++◌,
  ltb, ◌==◌, if◌then◌else◌, map,
}
use Prim.Native.String.{String}
use argocd_autoscaler.Text.{Text, bytes, text_eq, itoa}
use argocd_autoscaler.Api.{ReplicaList}

pub record EnvVar : Type 0 where
  pub name : Text
  pub value : Text

pub record Container : Type 0 where
  pub name : Text
  pub env : List EnvVar

pub record StatefulSet : Type 0 where
  pub spec_replicas : Option ℕ
  pub annotations : List (Text × Text)  -- of the template
  pub containers : List Container
  pub status_replicas : ℕ

-- A mode is set if its pointer is not nil.
pub record ModeDefault : Type 0 where
  pub rollout_restart : Option Bool

pub record Modes : Type 0 where
  pub default : Option ModeDefault
  pub x0y : Bool

pub record Spec : Type 0 where
  pub paused : Option Bool
  pub mode : Option Modes
  pub replica_set_controller_kind : String

pub record Status (Q Conditions : Type 0) : Type 0 where
  pub conditions : Conditions
  pub replicas : ReplicaList Q

pub record Scaler (Q Conditions : Type 0) : Type 0 where
  pub spec : Spec
  pub status : Status Q Conditions

-- ReplicaSetReconcilerMode; rollout-restart is never assigned.
pub data Mode : Type 0 where
  default_mode x0y_mode : Mode

abbrev pub has_default : Modes → Bool
has_default ms = elim ms.default [ none ↦ false | some d ↦ true ]

-- Lines 135 to 166: `none` is the error that more than one mode is set.
unfoldable pub resolve_mode : Option Modes → Option Mode
resolve_mode none = some default_mode
resolve_mode (some ms) =
    if ms.x0y && has_default ms then none else if ms.x0y then some x0y_mode else some default_mode

abbrev pub container_name : Text
container_name = bytes "argocd-application-controller"

abbrev pub replicas_env_name : Text
replicas_env_name = bytes "ARGOCD_CONTROLLER_REPLICAS"

abbrev pub restarted_at : Text
restarted_at = bytes "autoscaler.argoproj.io/restartedAt"

abbrev pub is_controller : Container → Bool
is_controller c = text_eq c.name container_name

abbrev pub is_replicas_env : EnvVar → Bool
is_replicas_env v = text_eq v.name replicas_env_name

-- ScaleTo: every variable of the name takes the value, or one is appended.
unfoldable pub env_found : List EnvVar → Bool
env_found [] = false
env_found (v ∷ vs) = is_replicas_env v || env_found vs

unfoldable pub set_values : Text → List EnvVar → List EnvVar
set_values value [] = []
set_values value (v ∷ vs) =
    (if is_replicas_env v then record v { value = value } else v) ∷ set_values value vs

unfoldable pub set_env : Text → List EnvVar → List EnvVar
unfolding env_found set_values
set_env value vs =
    if env_found vs
    then set_values value vs
    else set_values value vs ++ record { name = replicas_env_name; value = value } ∷ []

unfoldable pub set_containers : Text → List Container → List Container
unfolding set_env
set_containers value [] = []
set_containers value (c ∷ cs) =
    (if is_controller c then record c { env = set_env value c.env } else c)
    ∷ set_containers value cs

unfoldable pub container_found : List Container → Bool
container_found [] = false
container_found (c ∷ cs) = is_controller c || container_found cs

unfoldable pub annotate : Text → Text → List (Text × Text) → List (Text × Text)
annotate k v [] = (k, v) ∷ []
annotate k v ((j, w) ∷ rest) = if text_eq j k then (k, v) ∷ rest else (j, w) ∷ annotate k v rest

-- The object that ScaleTo sends, or `none` if it has no container of the name. `now` is the time
-- in RFC 3339.
unfoldable pub scaled : Text → ℕ → Bool → StatefulSet → Option StatefulSet
unfolding set_containers container_found annotate
scaled now replicas restart s =
    if container_found s.containers
    then some (record s {
      spec_replicas = some replicas;
      containers = set_containers (itoa replicas) s.containers;
      annotations = if restart then annotate restarted_at now s.annotations else s.annotations;
    })
    else none

-- RSControllerIsZero
abbrev set_to_zero : Option ℕ → Bool
set_to_zero none = false
set_to_zero (some k) = k == 0

unfoldable pub is_zero : StatefulSet → Bool
is_zero s = set_to_zero s.spec_replicas || (s.status_replicas == 0)

-- RSControllerNeedsDesiredStateEnforcement: the first variable of the name in the first container
-- of the name counts.
unfoldable pub env_differs : Text → List EnvVar → Bool
env_differs expected [] = true
env_differs expected (v ∷ vs) =
    if is_replicas_env v then not (text_eq v.value expected) else env_differs expected vs

unfoldable pub containers_differ : Text → List Container → Bool
unfolding env_differs
containers_differ expected [] = true
containers_differ expected (c ∷ cs) =
    if is_controller c then env_differs expected c.env else containers_differ expected cs

abbrev spec_differs : Option ℕ → ℕ → Bool
spec_differs none replicas = true
spec_differs (some k) replicas = not (k == replicas)

unfoldable pub needs_enforcement : StatefulSet → ℕ → Bool
unfolding containers_differ
needs_enforcement s replicas =
    if spec_differs s.spec_replicas replicas
    then true
    else if ltb 0 replicas && s.status_replicas == 0
    then true
    else containers_differ (itoa replicas) s.containers
