-- ===== src/Watch/Lookup.antt =====
-- findByRef of internal/controller/autoscaler/ref_finder.go. The REST mapper, the scheme and the
-- client are a record that the definition takes as a parameter.
use argocd_autoscaler.Base.{Bool, List, [], Option, none, some, if◌then◌else◌}
use argocd_autoscaler.Text.{Text}
use argocd_autoscaler.Controller.{Error, Result, ok, err}
use argocd_autoscaler.Watch.{Ref, GroupKind}
use argocd_autoscaler.Watch.Registry.{GroupVersionKind}

pub record ApiMachinery : Type 1 where
  pub Object : Type 0
  pub version : GroupKind → Result Text  -- the version in what RESTMapping answers
  pub create : GroupVersionKind → Result Object  -- scheme.New
  pub is_client_object : Object → Bool
  pub get : Object → Text → Text → Result Object  -- Get of a name in a namespace into an object
  pub name_of : Object → Text
  pub kinds_of : Object → Result (List GroupKind)  -- ObjectKinds of the scheme

pub data Lookup (A : Type 0) : Type 0 where
  located : A → Lookup A
  not_mapped : Error → Lookup A
  not_created : Error → Lookup A
  not_client_object : Lookup A
  not_fetched : Error → Lookup A
  wrong_type : Lookup A

infixl 5 ◌>>=◌
abbrev pub ◌>>=◌ : {A B : Type 0} → Lookup A → (A → Lookup B) → Lookup B
located x >>= f = f x
not_mapped e >>= f = not_mapped e
not_created e >>= f = not_created e
not_client_object >>= f = not_client_object
not_fetched e >>= f = not_fetched e
wrong_type >>= f = wrong_type

abbrev pub or_else : {A : Type 0} → (Error → Lookup A) → Result A → Lookup A
or_else f (ok x) = located x
or_else f (err e) = f e

-- Lines 42 to 45.
abbrev pub group_or_empty : Option Text → Text
group_or_empty none = []
group_or_empty (some g) = g

abbrev pub gvk_of : Ref → Text → GroupVersionKind
gvk_of ref version = record {
  group = group_or_empty ref.api_group;
  version = version;
  kind = ref.kind;
}

abbrev pub or_wrong_type : {A : Type 0} → Option A → Lookup A
or_wrong_type none = wrong_type
or_wrong_type (some x) = located x

-- `cast` is the conversion to the required interface.
module _ (api : ApiMachinery) {A : Type 0} (cast : api.Object → Option A) where
  unfoldable pub find_by_ref : Text → Ref → Lookup A
  find_by_ref namespace ref = do
    version ←
        or_else not_mapped
          (api.version (record { group = group_or_empty ref.api_group; kind = ref.kind }))
    object ← or_else not_created (api.create (gvk_of ref version))
    client_object ← if api.is_client_object object then located object else not_client_object
    fetched ← or_else not_fetched (api.get client_object ref.name namespace)
    or_wrong_type (cast fetched)
