-- ===== src/Grouping.antt =====
-- Loops that group the elements of a list under a text key in a Go map: what the map holds then.
pub mod Rearranging
use argocd_autoscaler.Base.{
  ◌≡◌, refl, ap, sym, subst, ◌∙◌, false, Option, none, some, List, [], ◌∷◌, ◌++◌, arith,
  if◌then◌else◌, Bool-cases, inl, inr, some_inj, All,
}
use argocd_autoscaler.Text.{Text, text_eq}
use argocd_autoscaler.Text.Order.{text_eq→eq, text_eq_refl}
use argocd_autoscaler.Maps.{find_key, alter, find_key-alter, IsMap, alter-IsMap, count_key}
use mathlib.Core.List.{append_assoc, append-nil}

module _ {A : Type 0} where
  -- append(m[k], x), where a missing key is an empty list.
  abbrev pub appended : A → Option (List A) → List A
  appended x none = x ∷ []
  appended x (some xs) = xs ++ x ∷ []

  abbrev pub kept : A → Option A → A
  kept x none = x
  kept x (some y) = y

module _ {A : Type 0} where
  -- The elements that a key picks out.
  unfoldable pub select_by : (A → Text) → Text → List A → List A
  select_by key k [] = []
  select_by key k (x ∷ xs) =
      if text_eq (key x) k then x ∷ select_by key k xs else select_by key k xs

  abbrev pub nonempty : List A → Option (List A)
  nonempty [] = none
  nonempty (x ∷ xs) = some (x ∷ xs)

  abbrev pub first_of : {B : Type 0} → (A → B) → List A → Option B
  first_of f [] = none
  first_of f (x ∷ xs) = some (f x)

  pub select_by-snoc :
      (key : A → Text) (k : Text) (xs : List A) (x : A)
      → select_by key k (xs ++ x ∷ [])
        ≡ (if text_eq (key x) k then select_by key k xs ++ x ∷ [] else select_by key k xs)
  unfolding select_by
  select_by-snoc key k [] x = refl
  select_by-snoc key k (y ∷ ys) x = elim (Bool-cases (text_eq (key y) k)) [
    | inl e ↦
        rw (e, select_by-snoc key k ys x)
          (elim (Bool-cases (text_eq (key x) k)) [ inl e' ↦ rw e' refl | inr e' ↦ rw e' refl ])
    | inr e ↦ rw e (select_by-snoc key k ys x)
  ]

  pub select_by-append :
      (key : A → Text) (k : Text) (xs ys : List A)
      → select_by key k (xs ++ ys) ≡ select_by key k xs ++ select_by key k ys
  unfolding select_by
  select_by-append key k [] ys = refl
  select_by-append key k (x ∷ xs) ys = elim (Bool-cases (text_eq (key x) k)) [
    | inl e ↦ rw (e, select_by-append key k xs ys)
    | inr e ↦ rw (e, select_by-append key k xs ys)
  ]

  -- What is selected has the key.
  pub select_by-All :
      (key : A → Text) (k : Text) (xs : List A) → All (λ x. key x ≡ k) (select_by key k xs)
  unfolding select_by
  select_by-All key k [] = tt
  select_by-All key k (x ∷ xs) = elim (Bool-cases (text_eq (key x) k)) [
    | inl e ↦ rw e (text_eq→eq (key x) k e, select_by-All key k xs)
    | inr e ↦ rw e (select_by-All key k xs)
  ]

  pub select_by_same :
      (key : A → Text) (k : Text) (xs : List A) → All (λ x. key x ≡ k) xs → select_by key k xs ≡ xs
  unfolding select_by
  select_by_same key k [] h = refl
  select_by_same key k (x ∷ xs) h = rw (h.0, text_eq_refl k, select_by_same key k xs h.1)

  pub select_by_other :
      (key : A → Text) (k j : Text) (xs : List A)
      → text_eq j k ≡ false
      → All (λ x. key x ≡ j) xs
      → select_by key k xs ≡ []
  unfolding select_by
  select_by_other key k j [] e h = refl
  select_by_other key k j (x ∷ xs) e h = rw (h.0, e) (select_by_other key k j xs e h.1)

  pub appended-nonempty :
      (x : A) (xs : List A) → some (appended x (nonempty xs)) ≡ nonempty (xs ++ x ∷ [])
  appended-nonempty x [] = refl
  appended-nonempty x (y ∷ ys) = refl

  pub kept-first :
      {B : Type 0} (f : A → B) (x : A) (xs : List A)
      → some (kept (f x) (first_of f xs)) ≡ first_of f (xs ++ x ∷ [])
  kept-first f x [] = refl
  kept-first f x (y ∷ ys) = refl

  -- One round of a loop that groups by a key: what is found under each key follows `view`.
  pub grouped_by :
      {B : Type 0} (key : A → Text) (view : List A → Option B) (x : A) (f : Option B → B)
      (xs : List A) (m : List (Text × B))
      → ((ys : List A) → some (f (view ys)) ≡ view (ys ++ x ∷ []))
      → ((k : Text) → find_key k m ≡ view (select_by key k xs))
      → (k : Text) → find_key k (alter (key x) f m) ≡ view (select_by key k (xs ++ x ∷ []))
  grouped_by key view x f xs m step h k =
      let found = find_key-alter (key x) k f m in
      let selected = ap view (select_by-snoc key k xs x) in
      elim (Bool-cases (text_eq (key x) k)) [
        | inl e ↦
            found
            ∙ ap (λ b. if b then some (f (find_key (key x) m)) else find_key k m) e
            ∙ ap (λ o. some (f o)) (h (key x))
            ∙ step (select_by key (key x) xs)
            ∙ ap (λ i. view (select_by key i xs ++ x ∷ [])) (text_eq→eq (key x) k e)
            ∙ sym
                (ap (λ b. view (if b then select_by key k xs ++ x ∷ [] else select_by key k xs)) e)
            ∙ sym selected
        | inr e ↦
            found
            ∙ ap (λ b. if b then some (f (find_key (key x) m)) else find_key k m) e
            ∙ h k
            ∙ sym
                (ap (λ b. view (if b then select_by key k xs ++ x ∷ [] else select_by key k xs)) e)
            ∙ sym selected
      ]

pub select_by-head :
    {A : Type 0} (key : A → Text) (k : Text) (xs : List A) {x : A} {rest : List A}
    → select_by key k xs ≡ x ∷ rest
    → key x ≡ k
unfolding select_by
select_by-head key k [] h = ground (arith, h)
select_by-head key k (y ∷ ys) {x} {rest} h = elim (Bool-cases (text_eq (key y) k)) [
  | inl e ↦
      let h' = ap (λ b. if b then y ∷ select_by key k ys else select_by key k ys) (sym e) ∙ h in
      subst (λ z. key z ≡ k) (some_inj (ap (first_of (λ z. z)) h')) (text_eq→eq (key y) k e)
  | inr e ↦
      select_by-head key k ys
        (ap (λ b. if b then y ∷ select_by key k ys else select_by key k ys) (sym e) ∙ h)
]

pub nonempty_lem :
    {A : Type 0} (ys : List A) (xs : List A)
    → nonempty ys ≡ some xs
    → (x : A) × (rest : List A) × ys ≡ x ∷ rest × xs ≡ ys
nonempty_lem [] xs h = ground (arith, h)
nonempty_lem (y ∷ ys) xs h = (y, ys, refl, sym (some_inj h))

module _ {A : Type 0} (key : A → Text) where
  -- The loop `for x in xs { m[key(x)] = append(m[key(x)], x) }`.
  unfoldable pub group_by : List A → List (Text × List A) → List (Text × List A)
  group_by [] m = m
  group_by (x ∷ xs) m = group_by xs (alter (key x) (appended x) m)

  -- A map that holds, under each key, the elements with that key, in their order.
  pub record IsGrouping (xs : List A) (m : List (Text × List A)) : Type 0 where
    pub is_map : IsMap m
    pub groups : (k : Text) → find_key k m ≡ nonempty (select_by key k xs)

  group_by-from :
      (ys xs : List A) (m : List (Text × List A))
      → IsGrouping xs m
      → IsGrouping (xs ++ ys) (group_by ys m)
  unfolding group_by
  group_by-from [] xs m h = subst (λ l. IsGrouping l m) (sym (append-nil xs)) h
  group_by-from (y ∷ ys) xs m h =
      subst (λ l. IsGrouping l (group_by ys (alter (key y) (appended y) m)))
        (append_assoc xs (y ∷ []) ys)
        (group_by-from ys (xs ++ y ∷ []) (alter (key y) (appended y) m) (record {
          is_map = alter-IsMap (key y) (appended y) m h.is_map;
          groups = grouped_by key nonempty y (appended y) xs m (appended-nonempty y) h.groups;
        }))

  pub group_by-IsGrouping : (xs : List A) → IsGrouping xs (group_by xs [])
  unfolding find_key count_key select_by
  group_by-IsGrouping xs =
      group_by-from xs [] [] (record { is_map = λ k. refl; groups = λ k. refl })
