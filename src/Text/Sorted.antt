-- ===== src/Text/Sorted.antt =====
-- Lists of texts in order: sort.Strings and slices.Sort on them, and slices.Contains. Of distinct
-- texts there is one list in order, so that the sorting algorithm does not show.
use argocd_autoscaler.Base.{
  List, [], ◌∷◌, Bool, true, false, ◌||◌, ◌≡◌, refl, sym, ◌∙◌, subst, arith, All, Bool-cases, inl,
  inr, if◌then◌else◌,
}
use mathlib.Core.Path.{ap₂}
use argocd_autoscaler.Text.{Text, text_eq, text_lt}
use argocd_autoscaler.Text.Order.{
  text_eq_refl, text_eq→eq, text_lt_trans, text_lt_total, text_lt_asymm, text_eq-of_lt,
}

unfoldable pub insert_text : Text → List Text → List Text
insert_text k [] = k ∷ []
insert_text k (j ∷ js) = if text_lt j k then j ∷ insert_text k js else k ∷ j ∷ js

unfoldable pub sort_texts : List Text → List Text
sort_texts [] = []
sort_texts (k ∷ ks) = insert_text k (sort_texts ks)

unfoldable pub has : Text → List Text → Bool
has k [] = false
has k (j ∷ js) = text_eq j k || has k js

abbrev pub Ascending : List Text → Type 0
Ascending [] = Unit
Ascending (k ∷ ks) = All (λ j. text_lt k j ≡ true) ks × Ascending ks

has-insert_text : (k j : Text) (js : List Text) → has k (insert_text j js) ≡ text_eq j k || has k js
unfolding has insert_text
has-insert_text k j [] = refl
has-insert_text k j (i ∷ js) = ground (arith, has-insert_text k j js)

pub has-sort_texts : (k : Text) (js : List Text) → has k (sort_texts js) ≡ has k js
unfolding has sort_texts
has-sort_texts k [] = refl
has-sort_texts k (j ∷ js) = rw (has-insert_text k j (sort_texts js), has-sort_texts k js)

All-insert_text :
    (j k : Text) (js : List Text)
    → text_lt j k ≡ true
    → All (λ i. text_lt j i ≡ true) js
    → All (λ i. text_lt j i ≡ true) (insert_text k js)
unfolding insert_text
All-insert_text j k [] h a = (h, tt)
All-insert_text j k (i ∷ js) h a = elim (Bool-cases (text_lt i k)) [
  | inl e ↦ rw e (a.0, All-insert_text j k js h a.1)
  | inr e ↦ rw e (h, a)
]

All-lt_trans :
    (k j : Text) (js : List Text)
    → text_lt k j ≡ true
    → All (λ i. text_lt j i ≡ true) js
    → All (λ i. text_lt k i ≡ true) js
All-lt_trans k j [] h a = tt
All-lt_trans k j (i ∷ js) h a = (text_lt_trans k j i h a.0, All-lt_trans k j js h a.1)

insert_text-Ascending :
    (k : Text) (js : List Text) → has k js ≡ false → Ascending js → Ascending (insert_text k js)
unfolding insert_text has
insert_text-Ascending k [] h a = (tt, tt)
insert_text-Ascending k (j ∷ js) h a = elim (text_lt_total j k) [
  | inl e ↦ rw e (All-insert_text j k js e a.0, insert_text-Ascending k js (ground arith) a.1)
  | inr (inl e) ↦ absurd (ground (arith, text_eq_refl k))
  | inr (inr e) ↦ rw (text_lt_asymm k j e) ((e, All-lt_trans k j js e a.0), a)
]

abbrev pub Distinct : List Text → Type 0
Distinct [] = Unit
Distinct (k ∷ ks) = (has k ks ≡ false) × Distinct ks

pub sort_texts-Ascending : (ks : List Text) → Distinct ks → Ascending (sort_texts ks)
unfolding sort_texts
sort_texts-Ascending [] d = tt
sort_texts-Ascending (k ∷ ks) d =
    insert_text-Ascending k (sort_texts ks) (has-sort_texts k ks ∙ d.0)
      (sort_texts-Ascending ks d.1)

-- Keys below all of a list are not in it.
has-below : (k : Text) (js : List Text) → All (λ i. text_lt k i ≡ true) js → has k js ≡ false
unfolding has
has-below k [] a = refl
has-below k (j ∷ js) a = rw (text_eq-of_lt k j a.0, has-below k js a.1)

has-nil : (k : Text) → has k [] ≡ false
unfolding has
has-nil k = refl

has-cons : (k j : Text) (js : List Text) → has k (j ∷ js) ≡ text_eq j k || has k js
unfolding has
has-cons k j js = refl

head_lt :
    (x y : Text) (l r : List Text)
    → text_lt x y ≡ true
    → All (λ i. text_lt y i ≡ true) r
    → has x (x ∷ l) ≡ has x (y ∷ r)
    → ⊥
unfolding has
head_lt x y l r h a same =
    ground (arith, text_eq_refl x, text_eq-of_lt x y h, has-below x r (All-lt_trans x y r h a))

same_tail :
    (x k : Text) (l r : List Text)
    → All (λ i. text_lt x i ≡ true) l
    → All (λ i. text_lt x i ≡ true) r
    → has k (x ∷ l) ≡ has k (x ∷ r)
    → has k l ≡ has k r
unfolding has
same_tail x k l r a b same = elim (Bool-cases (text_eq x k)) [
  | inl e ↦
      let here = text_eq→eq x k e in
      subst (λ i. has i l ≡ has i r) here (has-below x l a ∙ sym (has-below x r b))
  | inr e ↦ ground arith
]

pub Ascending-unique :
    (l r : List Text) → Ascending l → Ascending r → ((k : Text) → has k l ≡ has k r) → l ≡ r
Ascending-unique [] [] a b same = refl
Ascending-unique [] (y ∷ r) a b same =
    absurd (ground (arith, same y, has-cons y y r, text_eq_refl y, has-nil y))
Ascending-unique (x ∷ l) [] a b same =
    absurd (ground (arith, same x, has-cons x x l, text_eq_refl x, has-nil x))
Ascending-unique (x ∷ l) (y ∷ r) a b same = elim (text_lt_total x y) [
  | inl e ↦ absurd (head_lt x y l r e b.0 (same x))
  | inr (inl e) ↦
      let b' : Ascending (x ∷ r) = subst (λ k. Ascending (k ∷ r)) (sym e) b in
      let same' : (k : Text) → has k (x ∷ l) ≡ has k (x ∷ r) =
        subst (λ j. (k : Text) → has k (x ∷ l) ≡ has k (j ∷ r)) (sym e) same in
      ap₂ ◌∷◌ e (Ascending-unique l r a.1 b'.1 (λ k. same_tail x k l r a.0 b'.0 (same' k)))
  | inr (inr e) ↦ absurd (head_lt y x r l e a.0 (sym (same y)))
]
