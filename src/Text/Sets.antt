-- ===== src/Text/Sets.antt =====
-- Lists of texts as sets: those collected without repetition and sorted, and slices.Equal on them.
use argocd_autoscaler.Base.{
  List, [], ◌∷◌, ◌++◌, Bool, true, false, ◌&&◌, ◌||◌, ◌≡◌, refl, sym, ◌∙◌, ap, subst, arith,
  Bool-cases, inl, inr, if◌then◌else◌,
}
use argocd_autoscaler.Text.{Text, text_eq}
use argocd_autoscaler.Text.Order.{text_eq_refl, text_eq→eq, text_eq_sym}
use argocd_autoscaler.Text.Sorted.{
  sort_texts, has, has-sort_texts, Ascending, Distinct, sort_texts-Ascending, Ascending-unique,
}

-- The loop `for k in ks { if !slices.Contains(us, k) { us = append(us, k) } }`.
unfoldable pub collect : List Text → List Text → List Text
unfolding has
collect [] us = us
collect (k ∷ ks) us = collect ks (if has k us then us else us ++ k ∷ [])

unfoldable pub texts_eq : List Text → List Text → Bool
texts_eq [] [] = true
texts_eq [] (y ∷ ys) = false
texts_eq (x ∷ xs) [] = false
texts_eq (x ∷ xs) (y ∷ ys) = text_eq x y && texts_eq xs ys

texts_eq→eq : (xs ys : List Text) → texts_eq xs ys ≡ true → xs ≡ ys
unfolding texts_eq
texts_eq→eq [] [] h = refl
texts_eq→eq [] (y ∷ ys) h = cc
texts_eq→eq (x ∷ xs) [] h = cc
texts_eq→eq (x ∷ xs) (y ∷ ys) h = ground (arith, text_eq→eq x y, texts_eq→eq xs ys)

texts_eq_refl : (xs : List Text) → texts_eq xs xs ≡ true
unfolding texts_eq
texts_eq_refl [] = refl
texts_eq_refl (x ∷ xs) = rw (text_eq_refl x, texts_eq_refl xs)

pub has-append : (k : Text) (us vs : List Text) → has k (us ++ vs) ≡ has k us || has k vs
unfolding has
has-append k [] vs = refl
has-append k (u ∷ us) vs = ground (arith, has-append k us vs)

added_lem :
    (j k : Text) (us : List Text)
    → has j (if has k us then us else us ++ k ∷ []) ≡ has j us || text_eq k j
unfolding has
added_lem j k us = elim (Bool-cases (has k us)) [
  | inl e ↦ elim (Bool-cases (text_eq k j)) [
    | inl e' ↦ rw (e, e') (subst (λ i. has i us ≡ has i us || true) (text_eq→eq k j e') (rw e))
    | inr e' ↦ rw (e, e') (ground arith)
  ]
  | inr e ↦ rw (e, has-append j us (k ∷ [])) (ground arith)
]

has-collect : (j : Text) (ks us : List Text) → has j (collect ks us) ≡ has j us || has j ks
unfolding collect has
has-collect j [] us = ground arith
has-collect j (k ∷ ks) us =
    has-collect j ks (if has k us then us else us ++ k ∷ []) ∙ ground (arith, added_lem j k us)

Distinct-snoc :
    (us : List Text) (k : Text) → Distinct us → has k us ≡ false → Distinct (us ++ k ∷ [])
unfolding has
Distinct-snoc [] k d h = (refl, tt)
Distinct-snoc (u ∷ us) k d h = (
  ground (arith, has-append u us (k ∷ []), text_eq_sym u k, d.0),
  Distinct-snoc us k d.1 (ground arith),
)

collect-Distinct : (ks us : List Text) → Distinct us → Distinct (collect ks us)
unfolding collect
collect-Distinct [] us d = d
collect-Distinct (k ∷ ks) us d = elim (Bool-cases (has k us)) [
  | inl e ↦ rw e (collect-Distinct ks us d)
  | inr e ↦ rw e (collect-Distinct ks (us ++ k ∷ []) (Distinct-snoc us k d e))
]

abbrev pub sorted_set : List Text → List Text
sorted_set ks = sort_texts (collect ks [])

has-sorted_set : (k : Text) (ks : List Text) → has k (sorted_set ks) ≡ has k ks
unfolding has
has-sorted_set k ks = has-sort_texts k (collect ks []) ∙ has-collect k ks []

sorted_set-Ascending : (ks : List Text) → Ascending (sorted_set ks)
sorted_set-Ascending ks = sort_texts-Ascending (collect ks []) (collect-Distinct ks [] tt)

-- The sorted lists of what was collected are equal exactly if the same texts are in both.
pub sorted_set_same :
    (xs ys : List Text)
    → texts_eq (sorted_set xs) (sorted_set ys) ≡ true
    → (k : Text) → has k xs ≡ has k ys
sorted_set_same xs ys h k =
    sym (has-sorted_set k xs)
    ∙ ap (has k) (texts_eq→eq (sorted_set xs) (sorted_set ys) h)
    ∙ has-sorted_set k ys

pub same_sorted_set :
    (xs ys : List Text)
    → ((k : Text) → has k xs ≡ has k ys)
    → texts_eq (sorted_set xs) (sorted_set ys) ≡ true
same_sorted_set xs ys same =
    let e : sorted_set xs ≡ sorted_set ys =
      Ascending-unique (sorted_set xs) (sorted_set ys) (sorted_set-Ascending xs)
        (sorted_set-Ascending ys) (λ k. has-sorted_set k xs ∙ same k ∙ sym (has-sorted_set k ys)) in
    subst (λ l. texts_eq (sorted_set xs) l ≡ true) e (texts_eq_refl (sorted_set xs))
