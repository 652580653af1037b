-- ===== src/Maps.antt =====
-- Go maps with text keys as association lists.
use argocd_autoscaler.Base.{
  ℕ, suc, ◌≡◌, refl, ap, sym, subst, ◌∙◌, Bool, true, false, Option, none, some, List, [], ◌∷◌,
  arith, if◌then◌else◌, All, All-map, Bool-cases, inl, inr,
}
use argocd_autoscaler.Text.{Text, text_eq}
use argocd_autoscaler.Text.Order.{text_eq→eq, text_eq_refl}
use mathlib.Core.Path.{ap₂}
use mathlib.Core.List.{Permᴰ}

module _ {A : Type 0} where
  -- v, ok := m[k]
  unfoldable pub find_key : Text → List (Text × A) → Option A
  find_key k [] = none
  find_key k ((j, v) ∷ m) = if text_eq j k then some v else find_key k m

  -- m[k] = f(m[k])
  unfoldable pub alter : Text → (Option A → A) → List (Text × A) → List (Text × A)
  alter k f [] = (k, f none) ∷ []
  alter k f ((j, v) ∷ m) = if text_eq j k then (k, f (some v)) ∷ m else (j, v) ∷ alter k f m

  pub find_key-alter :
      (k j : Text) (f : Option A → A) (m : List (Text × A))
      → find_key j (alter k f m) ≡ (if text_eq k j then some (f (find_key k m)) else find_key j m)
  unfolding find_key alter
  find_key-alter k j f [] = refl
  find_key-alter k j f ((i, v) ∷ m) = ground (
    arith,
    text_eq→eq i k,
    text_eq→eq k j,
    text_eq→eq i j,
    text_eq_refl k,
    find_key-alter k j f m,
  )

  -- How often a key stands in the list, and whether it is found.
  abbrev add_key : Text → Text × A → ℕ → ℕ
  add_key k e c = if text_eq e.0 k then suc c else c

  unfoldable pub count_key : Text → List (Text × A) → ℕ
  count_key k [] = 0
  count_key k (e ∷ m) = add_key k e (count_key k m)

  abbrev pub present : Option A → ℕ
  present none = 0
  present (some v) = 1

  count_key-alter-other :
      (k j : Text) (f : Option A → A) (m : List (Text × A))
      → text_eq k j ≡ false
      → count_key j (alter k f m) ≡ count_key j m
  unfolding count_key alter
  count_key-alter-other k j f [] h = rw h refl
  count_key-alter-other k j f ((i, v) ∷ m) h =
      ground (arith, text_eq→eq i k, h, count_key-alter-other k j f m)

  count_key-alter :
      (k : Text) (f : Option A → A) (m : List (Text × A))
      → count_key k m ≡ present (find_key k m)
      → count_key k (alter k f m) ≡ 1
  unfolding count_key alter find_key
  count_key-alter k f [] h = rw (text_eq_refl k) refl
  count_key-alter k f ((i, v) ∷ m) h =
      ground (arith, text_eq→eq i k, text_eq_refl k, count_key-alter k f m)

  -- Each key stands in the list once.
  abbrev pub IsMap : List (Text × A) → Type 0
  IsMap m = (k : Text) → count_key k m ≡ present (find_key k m)

  pub alter-IsMap :
      (k : Text) (f : Option A → A) (m : List (Text × A)) → IsMap m → IsMap (alter k f m)
  alter-IsMap k f m h j =
      let found = λ (t : Bool) (e : text_eq k j ≡ t).
        ap present (find_key-alter k j f m)
        ∙ ap (λ b. present (if b then some (f (find_key k m)) else find_key j m)) e in
      elim (Bool-cases (text_eq k j)) [
        | inl e ↦
            subst (λ i. count_key i (alter k f m) ≡ 1) (text_eq→eq k j e)
              (count_key-alter k f m (h k))
            ∙ sym (found true e)
        | inr e ↦ count_key-alter-other k j f m e ∙ h j ∙ sym (found false e)
      ]

  absent : (k : Text) (m : List (Text × A)) → count_key k m ≡ 0 → find_key k m ≡ none
  unfolding count_key find_key
  absent k [] h = refl
  absent k ((j, v) ∷ m) h = ground (arith, absent k m)

  tail_lem :
      (j : Text) (v : A) (m : List (Text × A)) (k : Text)
      → IsMap ((j, v) ∷ m)
      → text_eq j k ≡ true
      → find_key k m ≡ none
  unfolding count_key find_key
  tail_lem j v m k h e = absent k m (
      ground (
        arith,
        h k,
        e,
        ap (λ b. if b then suc (count_key k m) else count_key k m) e,
        ap (λ b. present (if b then some v else find_key k m)) e,
      ))

  tail-IsMap : (j : Text) (v : A) (m : List (Text × A)) → IsMap ((j, v) ∷ m) → IsMap m
  unfolding count_key find_key
  tail-IsMap j v m h k = elim (Bool-cases (text_eq j k)) [
    | inl e ↦ let e' = tail_lem j v m k h e in ground (arith, h k, e, e')
    | inr e ↦ ground (arith, h k, e)
  ]

  -- Each entry is found.
  pub entries-found : (m : List (Text × A)) → IsMap m → All (λ e. find_key e.0 m ≡ some e.1) m
  unfolding find_key
  entries-found [] h = tt
  entries-found ((j, v) ∷ m) h = (
    rw (text_eq_refl j) refl,
    All-map m
        (λ e found. elim (Bool-cases (text_eq j e.0)) [
          | inl e' ↦ ground (arith, found, tail_lem j v m e.0 h e')
          | inr e' ↦ rw e' found
        ])
        (entries-found m (tail-IsMap j v m h)),
  )

  add_key-swap :
      (k : Text) (x y : Text × A) (c : ℕ)
      → add_key k x (add_key k y c) ≡ add_key k y (add_key k x c)
  add_key-swap k x y c = ground arith

  pub count_key-Permᴰ :
      (k : Text) {l r : List (Text × A)} → Permᴰ l r → count_key k l ≡ count_key k r
  unfolding count_key
  count_key-Permᴰ k Permᴰ.nil = refl
  count_key-Permᴰ k (Permᴰ.cons e d) = ap₂ (add_key k) e (count_key-Permᴰ k d)
  count_key-Permᴰ k (Permᴰ.swap {a' = u} {b' = v} {l = l} e e') =
      ap₂ (λ x y. add_key k x (add_key k y (count_key k l))) e e'
      ∙ add_key-swap k v u (count_key k l)
  count_key-Permᴰ k (Permᴰ.trans d d') = count_key-Permᴰ k d ∙ count_key-Permᴰ k d'
