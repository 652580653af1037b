-- ===== src/Watch/Requests.antt =====
-- Which requests an event makes.
use argocd_autoscaler.Base.{
  ◌≡◌, ◌≢◌, ◌++◌, refl, ap, ◌∙◌, Bool, true, false, ◌||◌, Option, none, some, List, [], ◌∷◌,
  if◌then◌else◌, map, Bool-cases, inl, inr, All,
}
use argocd_autoscaler.Text.{Text}
use argocd_autoscaler.Controller.{ok}
use argocd_autoscaler.Watch.{
  Ref, Item, GroupKind, Request, request_of, same_kind, matches_any, and_requests, enqueue,
  map_object,
}

-- The item names an API group, and refers to the object under one of its kinds.
unfoldable pub has_kind : Text → Ref → Text → List GroupKind → Bool
has_kind group r name [] = false
has_kind group r name (g ∷ gs) = same_kind group r name g || has_kind group r name gs

abbrev pub refers_with : Option Text → Ref → Text → List GroupKind → Bool
refers_with none r name gs = false
refers_with (some group) r name gs = has_kind group r name gs

abbrev pub refers : Text → List GroupKind → Item → Bool
refers name gs i = refers_with i.provider_ref.api_group i.provider_ref name gs

unfoldable pub referring : Text → List GroupKind → List Item → List Item
referring name gs [] = []
referring name gs (i ∷ is) =
    if refers name gs i then i ∷ referring name gs is else referring name gs is

abbrev pub has_group : Item → Bool
has_group i = elim i.provider_ref.api_group [ none ↦ false | some g ↦ true ]

matches_any_lem :
    (group : Text) (r : Ref) (name : Text) (gs : List GroupKind)
    → matches_any (some group) r name gs ≡ some (has_kind group r name gs)
unfolding matches_any has_kind
matches_any_lem group r name [] = refl
matches_any_lem group r name (g ∷ gs) = elim (Bool-cases (same_kind group r name g)) [
  | inl e ↦ rw e refl
  | inr e ↦ rw e (matches_any_lem group r name gs)
]

item_lem :
    (i : Item) (name : Text) (gs : List GroupKind) (rest : Option (List Request)) (o : Option Text)
    → (o ≢ none)
    → and_requests (matches_any o i.provider_ref name gs) i rest
      ≡ and_requests (some (refers_with o i.provider_ref name gs)) i rest
item_lem i name gs rest none h = absurd (h refl)
item_lem i name gs rest (some group) h =
    ap (λ b. and_requests b i rest) (matches_any_lem group i.provider_ref name gs)

enqueue_lem :
    (name : Text) (gs : List GroupKind) (is : List Item)
    → All (λ i. i.provider_ref.api_group ≢ none) is
    → enqueue name gs is ≡ some (map request_of (referring name gs is))
unfolding enqueue referring
enqueue_lem name gs [] h = refl
enqueue_lem name gs (i ∷ is) h =
    item_lem i name gs (enqueue name gs is) i.provider_ref.api_group h.0
    ∙ ap (and_requests (some (refers name gs i)) i) (enqueue_lem name gs is h.1)
    ∙ added (refers name gs i) (referring name gs is)
  where
    added :
        (b : Bool) (rest : List Item)
        → and_requests (some b) i (some (map request_of rest))
          ≡ some (map request_of (if b then i ∷ rest else rest))
    added true rest = refl
    added false rest = refl

-- Where every reference of the namespace names an API group, the event makes one request for each
-- item that refers to the object under one of its kinds, in the order of the list, and no other.
pub map_object-referring :
    (name : Text) (k : GroupKind) (kinds : List GroupKind) (is : List Item)
    → All (λ i. i.provider_ref.api_group ≢ none) is
    → map_object name (ok (k ∷ kinds)) (ok is)
      ≡ some (map request_of (referring name (k ∷ kinds) is))
unfolding map_object
map_object-referring name k kinds is h = enqueue_lem name (k ∷ kinds) is h

enqueue-panics :
    (name : Text) (k : GroupKind) (kinds : List GroupKind) (before after : List Item) (i : Item)
    → i.provider_ref.api_group ≡ none
    → enqueue name (k ∷ kinds) (before ++ i ∷ after) ≡ none
unfolding enqueue matches_any
enqueue-panics name k kinds [] after i h =
    ap
      (λ o.
        and_requests (matches_any o i.provider_ref name (k ∷ kinds)) i
          (enqueue name (k ∷ kinds) after))
      h
enqueue-panics name k kinds (b ∷ before) after i h =
    ap (and_requests (matches_any b.provider_ref.api_group b.provider_ref name (k ∷ kinds)) b)
      (enqueue-panics name k kinds before after i h)
    ∙ and_none (matches_any b.provider_ref.api_group b.provider_ref name (k ∷ kinds)) b
  where
    and_none : (o : Option Bool) (b : Item) → and_requests o b none ≡ none
    and_none none b = refl
    and_none (some true) b = refl
    and_none (some false) b = refl

-- A single item of the namespace whose reference names no API group makes the handler dereference a
-- nil pointer, whatever object of the kind the event is on and whatever the other items are.
pub map_object-panics :
    (name : Text) (k : GroupKind) (kinds : List GroupKind) (before after : List Item) (i : Item)
    → i.provider_ref.api_group ≡ none
    → map_object name (ok (k ∷ kinds)) (ok (before ++ i ∷ after)) ≡ none
unfolding map_object
map_object-panics name k kinds before after i h = enqueue-panics name k kinds before after i h
