-- ===== src/Watch.antt =====
-- The handlers that turn an event on a referenced object into requests, as mapLoadIndexProvider of
-- internal/controller/autoscaler/longestprocessingtimepartition_controller.go: the handlers of the
-- other controllers differ from it in the resource and the reference only.
pub mod Requests
pub mod Handlers
pub mod Registry
pub mod Setup
pub mod Lookup
pub mod Notified
pub mod Roles
pub mod Watching
use argocd_autoscaler.Base.{
  Bool, true, false, ◌&&◌, Option, none, some, List, [], ◌∷◌, if◌then◌else◌,
}
use argocd_autoscaler.Text.{Text, text_eq}
use argocd_autoscaler.Controller.{Result, ok, err}

-- A TypedLocalObjectReference, whose API group is a pointer.
pub record Ref : Type 0 where
  pub api_group : Option Text
  pub kind : Text
  pub name : Text

pub record Item : Type 0 where
  pub provider_ref : Ref
  pub name : Text
  pub namespace : Text

pub record GroupKind : Type 0 where
  pub group : Text
  pub kind : Text

pub record Request : Type 0 where
  pub name : Text
  pub namespace : Text

abbrev pub request_of : Item → Request
request_of i = record { name = i.name; namespace = i.namespace }

abbrev pub same_kind : Text → Ref → Text → GroupKind → Bool
same_kind group r name g = text_eq group g.group && text_eq r.kind g.kind && text_eq r.name name

-- Lines 287 to 300: whether the item refers to the object; `none` if a nil pointer is dereferenced.
unfoldable pub matches_any : Option Text → Ref → Text → List GroupKind → Option Bool
matches_any group r name [] = some false
matches_any none r name (g ∷ gs) = none
matches_any (some group) r name (g ∷ gs) =
    let rest = matches_any (some group) r name gs in
    if same_kind group r name g then some true else rest

abbrev pub and_requests : Option Bool → Item → Option (List Request) → Option (List Request)
and_requests none i rest = none
and_requests (some b) i none = none
and_requests (some true) i (some requests) = some (request_of i ∷ requests)
and_requests (some false) i (some requests) = some requests

-- Lines 286 to 301.
unfoldable pub enqueue : Text → List GroupKind → List Item → Option (List Request)
unfolding matches_any
enqueue name kinds [] = some []
enqueue name kinds (i ∷ is) =
    and_requests (matches_any i.provider_ref.api_group i.provider_ref name kinds) i
      (enqueue name kinds is)

-- mapLoadIndexProvider, with what ObjectKinds and List answer.
abbrev after_list : Text → List GroupKind → Result (List Item) → Option (List Request)
after_list name [] items = some []
after_list name (k ∷ kinds) (err e) = some []
after_list name (k ∷ kinds) (ok items) = enqueue name (k ∷ kinds) items

unfoldable pub map_object :
    Text → Result (List GroupKind) → Result (List Item) → Option (List Request)
unfolding enqueue
map_object name (err e) items = some []
map_object name (ok kinds) items = after_list name kinds items
