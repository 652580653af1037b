-- ===== src/Grouping/Rearranging.antt =====
-- The groups of a list, one after another, are a rearrangement of it.
use argocd_autoscaler.Base.{
  ℕ, suc, ◌≡◌, refl, ap, sym, subst, ◌∙◌, Bool, true, false, ◌||◌, List, [], ◌∷◌, ◌++◌, map, Perm,
  arith, if◌then◌else◌, Bool-cases, inl, inr, length,
}
use mathlib.Core.Path.{ap₂}
use mathlib.Core.Bool.{Bool-set}
use mathlib.Core.Logic.{∥∥₁_elim}
use mathlib.Core.List.{Permᴰ, append_assoc, perm_middle}
use mathlib.Core.List.Perm
use native.Mathlib.Nat.{ℕ_set}
use argocd_autoscaler.Text.{Text, text_eq}
use argocd_autoscaler.Text.Sorted.{has}
use argocd_autoscaler.Maps.{alter, present}
use argocd_autoscaler.Grouping.{appended, select_by, nonempty, group_by}

module _ {A : Type 0} where
  abbrev pub all_groups : List (Text × List A) → List A
  all_groups [] = []
  all_groups (e ∷ es) = e.1 ++ all_groups es

  alter-perm :
      (k : Text) (x : A) (m : List (Text × List A))
      → Perm (all_groups (alter k (appended x) m)) (x ∷ all_groups m)
  unfolding alter
  alter-perm k x [] = Perm.refl (x ∷ [])
  alter-perm k x ((j, v) ∷ m) = elim (Bool-cases (text_eq j k)) [
    | inl e ↦ rw (e, append_assoc v (x ∷ []) (all_groups m)) (perm_middle v (all_groups m))
    | inr e ↦
        rw e (Perm.trans (Perm.append_left v (alter-perm k x m)) (perm_middle v (all_groups m)))
  ]

  pub group_by-perm :
      (key : A → Text) (xs : List A) (m : List (Text × List A))
      → Perm (all_groups (group_by key xs m)) (xs ++ all_groups m)
  unfolding group_by
  group_by-perm key [] m = Perm.refl (all_groups m)
  group_by-perm key (x ∷ xs) m =
      Perm.trans (group_by-perm key xs (alter (key x) (appended x) m))
        (Perm.trans (Perm.append_left xs (alter-perm (key x) x m)) (perm_middle xs (all_groups m)))

  swap_lem : (u v l : List A) → Perm (u ++ (v ++ l)) (v ++ (u ++ l))
  swap_lem [] v l = Perm.refl (v ++ l)
  swap_lem (x ∷ u) v l =
      Perm.trans (Perm.cons x (swap_lem u v l)) (Perm.symm (perm_middle v (u ++ l)))

  pub all_groups-Permᴰ :
      {l r : List (Text × List A)} → Permᴰ l r → Perm (all_groups l) (all_groups r)
  all_groups-Permᴰ Permᴰ.nil = Perm.refl []
  all_groups-Permᴰ (Permᴰ.cons {a = a} {b = b} {l₁ = l} {l₂ = r} e d) =
      subst (λ g. Perm (a.1 ++ all_groups l) (g.1 ++ all_groups r)) e
        (Perm.append_left a.1 (all_groups-Permᴰ d))
  all_groups-Permᴰ (Permᴰ.swap {a = a} {b = b} {a' = a'} {b' = b'} {l = l} e e') =
      subst (λ g. Perm (a.1 ++ (b.1 ++ all_groups l)) (g.1 ++ (b'.1 ++ all_groups l))) e'
        (subst (λ g. Perm (a.1 ++ (b.1 ++ all_groups l)) (b.1 ++ (g.1 ++ all_groups l))) e
          (swap_lem a.1 b.1 (all_groups l)))
  all_groups-Permᴰ (Permᴰ.trans d d') = Perm.trans (all_groups-Permᴰ d) (all_groups-Permᴰ d')

abbrev pub bit : Bool → ℕ
bit true = 1
bit false = 0

-- How many elements have a key, and whether one does.
module _ {A : Type 0} (key : A → Text) where
  or_swap : (a b c : Bool) → a || (b || c) ≡ b || (a || c)
  or_swap a b c = ground arith

  has_key-Permᴰ : (k : Text) {l r : List A} → Permᴰ l r → has k (map key l) ≡ has k (map key r)
  unfolding has
  has_key-Permᴰ k Permᴰ.nil = refl
  has_key-Permᴰ k (Permᴰ.cons e d) = ap₂ (λ x b. text_eq (key x) k || b) e (has_key-Permᴰ k d)
  has_key-Permᴰ k (Permᴰ.swap {a' = u} {b' = v} {l = l} e e') =
      ap₂ (λ x y. text_eq (key x) k || (text_eq (key y) k || has k (map key l))) e e'
      ∙ or_swap (text_eq (key v) k) (text_eq (key u) k) (has k (map key l))
  has_key-Permᴰ k (Permᴰ.trans d d') = has_key-Permᴰ k d ∙ has_key-Permᴰ k d'

  pub has_key-perm : (k : Text) {l r : List A} → Perm l r → has k (map key l) ≡ has k (map key r)
  has_key-perm k p = ∥∥₁_elim p (Bool-set _ _) (λ d. has_key-Permᴰ k d)

  abbrev counted : Text → A → ℕ → ℕ
  counted k x c = if text_eq (key x) k then suc c else c

  length-select_by :
      (k : Text) (x : A) (xs : List A)
      → length (select_by key k (x ∷ xs)) ≡ counted k x (length (select_by key k xs))
  unfolding select_by
  length-select_by k x xs = elim (Bool-cases (text_eq (key x) k)) [
    | inl e ↦ rw e refl
    | inr e ↦ rw e refl
  ]

  counted-swap :
      (k : Text) (x y : A) (c : ℕ) → counted k x (counted k y c) ≡ counted k y (counted k x c)
  counted-swap k x y c = ground arith

  count-Permᴰ :
      (k : Text) {l r : List A}
      → Permᴰ l r
      → length (select_by key k l) ≡ length (select_by key k r)
  count-Permᴰ k Permᴰ.nil = refl
  count-Permᴰ k (Permᴰ.cons {a = a} {b = b} {l₁ = l} {l₂ = r} e d) =
      length-select_by k a l ∙ ap₂ (counted k) e (count-Permᴰ k d) ∙ sym (length-select_by k b r)
  count-Permᴰ k (Permᴰ.swap {a = a} {b = b} {a' = u} {b' = v} {l = l} e e') =
      length-select_by k a (b ∷ l)
      ∙ ap (counted k a) (length-select_by k b l)
      ∙ ap₂ (λ x y. counted k x (counted k y (length (select_by key k l)))) e e'
      ∙ counted-swap k v u (length (select_by key k l))
      ∙ ap (counted k u) (sym (length-select_by k v l))
      ∙ sym (length-select_by k u (v ∷ l))
  count-Permᴰ k (Permᴰ.trans d d') = count-Permᴰ k d ∙ count-Permᴰ k d'

  pub count-perm :
      (k : Text) {l r : List A} → Perm l r → length (select_by key k l) ≡ length (select_by key k r)
  count-perm k p = ∥∥₁_elim p (ℕ_set _ _) (λ d. count-Permᴰ k d)

  -- A key is selected somewhere exactly if it is among the keys.
  pub present-select_by :
      (k : Text) (xs : List A) → present (nonempty (select_by key k xs)) ≡ bit (has k (map key xs))
  unfolding select_by has
  present-select_by k [] = refl
  present-select_by k (x ∷ xs) = elim (Bool-cases (text_eq (key x) k)) [
    | inl e ↦ rw e refl
    | inr e ↦ rw e (present-select_by k xs)
  ]
