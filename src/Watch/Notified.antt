-- ===== src/Watch/Notified.antt =====
-- An object that findByRef finds wakes the resource that refers to it.
use argocd_autoscaler.Base.{
  ℕ, zero, suc, ◌≡◌, ◌≢◌, refl, ap, ◌∙◌, Bool, true, false, ◌||◌, Option, none, some, List, [], ◌∷◌,
  map, All, All-get_elem?, get_elem?, Bool-cases, inl, inr, some_inj, if◌then◌else◌,
}
use argocd_autoscaler.Text.{Text}
use argocd_autoscaler.Text.Order.{text_eq_refl}
use argocd_autoscaler.Controller.{Result, ok, err}
use argocd_autoscaler.Watch.{Ref, Item, GroupKind, Request, request_of, same_kind, map_object}
use argocd_autoscaler.Watch.Requests.{
  has_kind, refers, refers_with, referring, map_object-referring,
}
use argocd_autoscaler.Watch.Registry.{GroupVersionKind}
use argocd_autoscaler.Watch.Lookup.{
  ApiMachinery, Lookup, located, not_mapped, not_created, not_client_object, not_fetched,
  wrong_type, ◌>>=◌, or_else, or_wrong_type, group_or_empty, gvk_of, find_by_ref,
}

-- What is documented of the scheme and the client: an object that is fetched into an object of a
-- kind has the name that was asked for, and that kind is one of its kinds.
pub record IsMachinery (api : ApiMachinery) : Type 0 where
  pub named :
      (o o' : api.Object) (name namespace : Text)
      → api.get o name namespace ≡ ok o'
      → api.name_of o' ≡ name
  pub kinds :
      (g : GroupVersionKind) (o o' : api.Object) (name namespace : Text)
      → api.create g ≡ ok o
      → api.get o name namespace ≡ ok o'
      → (k : GroupKind) × (ks : List GroupKind) × (j : ℕ) × (api.kinds_of o' ≡ ok (k ∷ ks))
        × (get_elem? (k ∷ ks) j ≡ some (record { group = g.group; kind = g.kind }))

>>=-eq_located :
    {A B : Type 0} (o : Lookup A) (f : A → Lookup B) {y : B}
    → (o >>= f) ≡ located y
    → (x : A) × (o ≡ located x) × (f x ≡ located y)
>>=-eq_located (located x) f h = (x, refl, h)
>>=-eq_located (not_mapped e) f h = cc
>>=-eq_located (not_created e) f h = cc
>>=-eq_located not_client_object f h = cc
>>=-eq_located (not_fetched e) f h = cc
>>=-eq_located wrong_type f h = cc

located_inj : {A : Type 0} {x y : A} → located x ≡ located y → x ≡ y
located_inj h = cc

not_created-eq_located :
    {A : Type 0} (r : Result A) {x : A} → or_else not_created r ≡ located x → r ≡ ok x
not_created-eq_located (ok y) h = ap ok (located_inj h)
not_created-eq_located (err e) h = cc

not_fetched-eq_located :
    {A : Type 0} (r : Result A) {x : A} → or_else not_fetched r ≡ located x → r ≡ ok x
not_fetched-eq_located (ok y) h = ap ok (located_inj h)
not_fetched-eq_located (err e) h = cc

or_wrong_type-eq_located :
    {A : Type 0} (o : Option A) {x : A} → or_wrong_type o ≡ located x → o ≡ some x
or_wrong_type-eq_located none h = cc
or_wrong_type-eq_located (some y) h = ap some (located_inj h)

if-eq_located :
    {A : Type 0} (b : Bool) {x y : A}
    → (if b then located x else not_client_object) ≡ located y
    → x ≡ y
if-eq_located true h = located_inj h
if-eq_located false h = cc

has_kind_lem :
    (group : Text) (r : Ref) (ks : List GroupKind) (j : ℕ)
    → get_elem? ks j ≡ some (record { group = group; kind = r.kind })
    → has_kind group r r.name ks ≡ true
unfolding has_kind
has_kind_lem group r [] j h = cc
has_kind_lem group r (k ∷ ks) zero h =
    rw (some_inj h, text_eq_refl group, text_eq_refl r.kind, text_eq_refl r.name) refl
has_kind_lem group r (k ∷ ks) (suc j) h =
    rw (has_kind_lem group r ks j h) (or_true (same_kind group r r.name k))
  where
    or_true : (b : Bool) → b || true ≡ true
    or_true true = refl
    or_true false = refl

refers_lem :
    (r : Ref) (o : Option Text) (ks : List GroupKind) (j : ℕ)
    → (o ≢ none)
    → get_elem? ks j ≡ some (record { group = group_or_empty o; kind = r.kind })
    → refers_with o r r.name ks ≡ true
refers_lem r none ks j n h = absurd (n refl)
refers_lem r (some group) ks j n h = has_kind_lem group r ks j h

referring_lem :
    (name : Text) (gs : List GroupKind) (is : List Item) (j : ℕ) {i : Item}
    → get_elem? is j ≡ some i
    → refers name gs i ≡ true
    → (k : ℕ) × (get_elem? (map request_of (referring name gs is)) k ≡ some (request_of i))
unfolding referring
referring_lem name gs [] j h r = cc
referring_lem name gs (x ∷ xs) zero {i} h r =
    let same = some_inj h in
    (0, rw (ap (refers name gs) same ∙ r) (ap (λ y. some (request_of y)) same))
referring_lem name gs (x ∷ xs) (suc j) {i} h r =
    let (k, e) = referring_lem name gs xs j h r in
    elim (Bool-cases (refers name gs x)) [ inl e' ↦ (suc k, rw e' e) | inr e' ↦ (k, rw e' e) ]

module _ (api : ApiMachinery) (laws : IsMachinery api) {A : Type 0}
    (cast : api.Object → Option A) where
  -- What findByRef went through on its way to what it returns.
  record IsLocated (namespace : Text) (ref : Ref) (a : A) : Type 0 where
    version : Text
    created : api.Object
    fetched : api.Object
    by_kind : api.create (gvk_of ref version) ≡ ok created
    by_name : api.get created ref.name namespace ≡ ok fetched
    target : cast fetched ≡ some a

  find_by_ref-IsLocated :
      (namespace : Text) (ref : Ref) {a : A}
      → find_by_ref api cast namespace ref ≡ located a
      → IsLocated namespace ref a
  unfolding find_by_ref
  find_by_ref-IsLocated namespace ref {a} h =
      let (version, e, h1) =
        >>=-eq_located
          (or_else not_mapped
            (api.version (record { group = group_or_empty ref.api_group; kind = ref.kind })))
          _ h in
      let (created, e', h2) =
        >>=-eq_located (or_else not_created (api.create (gvk_of ref version))) _ h1 in
      let (client_object, e'', h3) =
        >>=-eq_located (if api.is_client_object created then located created else not_client_object)
          _ h2 in
      let (fetched, e''', h4) =
        >>=-eq_located (or_else not_fetched (api.get client_object ref.name namespace)) _ h3 in
      let same = if-eq_located (api.is_client_object created) e'' in
      record {
        version = version;
        created = created;
        fetched = fetched;
        by_kind = not_created-eq_located (api.create (gvk_of ref version)) e';
        by_name =
            ap (λ o. api.get o ref.name namespace) same
            ∙ not_fetched-eq_located (api.get client_object ref.name namespace) e''';
        target = or_wrong_type-eq_located (cast fetched) h4;
      }

  -- Where a fetched object has the name and, among its kinds, the kind that were asked for, and every
  -- reference of the namespace names an API group: an object that findByRef finds by the reference of
  -- a resource is one on which an event makes a request for that resource.
  pub find_by_ref_notified :
      (is : List Item) (j : ℕ) (i : Item) {a : A}
      → All (λ x. x.provider_ref.api_group ≢ none) is
      → get_elem? is j ≡ some i
      → find_by_ref api cast i.namespace i.provider_ref ≡ located a
      → (o : api.Object) × (requests : List Request) × (k : ℕ) × (cast o ≡ some a)
        × (map_object (api.name_of o) (api.kinds_of o) (ok is) ≡ some requests)
        × (get_elem? requests k ≡ some (request_of i))
  find_by_ref_notified is j i groups here found =
      let l = find_by_ref-IsLocated i.namespace i.provider_ref found in
      let name = laws.named l.created l.fetched i.provider_ref.name i.namespace l.by_name in
      let (kind, kinds, at, all, stands) =
        laws.kinds (gvk_of i.provider_ref l.version) l.created l.fetched i.provider_ref.name
          i.namespace l.by_kind l.by_name in
      let group = All-get_elem? (λ x. x.provider_ref.api_group ≢ none) is j groups here in
      let refers' =
        refers_lem i.provider_ref i.provider_ref.api_group (kind ∷ kinds) at group stands in
      let (k, requested) = referring_lem i.provider_ref.name (kind ∷ kinds) is j here refers' in
      (
        l.fetched,
        map request_of (referring i.provider_ref.name (kind ∷ kinds) is),
        k,
        l.target,
        ap (λ n. map_object n (api.kinds_of l.fetched) (ok is)) name
            ∙ ap (λ ks. map_object i.provider_ref.name ks (ok is)) all
            ∙ map_object-referring i.provider_ref.name kind kinds is groups,
        requested,
      )
