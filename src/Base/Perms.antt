-- ===== src/Base/Perms.antt =====
-- What a rearrangement of a list keeps.
use Prim.Native.Nat.{ℕ, zero, suc}
use mathlib.Core.Path.{◌≡◌, refl, ap, ◌∙◌, sym, subst}
use mathlib.Core.Logic.{∥∥₁_elim}
use mathlib.Core.HLevel.{×_prop}
use mathlib.Core.List.{List, [], ◌∷◌, Perm, Permᴰ}
use mathlib.Core.Option.{some}
use native.Mathlib.Nat.{ℕ_set}
use argocd_autoscaler.Base.Lists.{length, get_elem?, All}

module _ {ℓ} {A : Type ℓ} where
  pub length-Permᴰ : {l r : List A} → Permᴰ l r → length l ≡ length r
  length-Permᴰ Permᴰ.nil = refl
  length-Permᴰ (Permᴰ.cons e d) = ap suc (length-Permᴰ d)
  length-Permᴰ (Permᴰ.swap e e') = refl
  length-Permᴰ (Permᴰ.trans d d') = length-Permᴰ d ∙ length-Permᴰ d'

  pub length-perm : {l r : List A} → Perm l r → length l ≡ length r
  length-perm {l} {r} p = ∥∥₁_elim p (ℕ_set (length l) (length r)) length-Permᴰ

module _ {ℓ κ} {A : Type ℓ} (P : A → Type κ) where
  pub All-Permᴰ : {l r : List A} → Permᴰ l r → All P l → All P r
  All-Permᴰ Permᴰ.nil h = tt
  All-Permᴰ (Permᴰ.cons e d) h = (subst P e h.0, All-Permᴰ d h.1)
  All-Permᴰ (Permᴰ.swap e e') h = (subst P e' h.1.0, (subst P e h.0, h.1.1))
  All-Permᴰ (Permᴰ.trans d d') h = All-Permᴰ d' (All-Permᴰ d h)

  All-prop : ((a : A) → IsProp (P a)) → (l : List A) → IsProp (All P l)
  All-prop h [] = hlevel
  All-prop h (x ∷ xs) = ×_prop (h x) (All-prop h xs)

  pub All-perm : ((a : A) → IsProp (P a)) → {l r : List A} → Perm l r → All P l → All P r
  All-perm h {l} {r} p a = ∥∥₁_elim p (All-prop h r) (λ d. All-Permᴰ d a)

module _ {ℓ} {A : Type ℓ} where
  -- An element of a list is somewhere in each of its rearrangements.
  pub get_elem?-Permᴰ :
      {l r : List A} {x : A} (i : ℕ)
      → Permᴰ l r
      → get_elem? l i ≡ some x
      → (j : ℕ) × (get_elem? r j ≡ some x)
  get_elem?-Permᴰ i Permᴰ.nil h = (i, h)
  get_elem?-Permᴰ zero (Permᴰ.cons e d) h = (0, ap some (sym e) ∙ h)
  get_elem?-Permᴰ (suc i) (Permᴰ.cons e d) h = let (j, h') = get_elem?-Permᴰ i d h in (suc j, h')
  get_elem?-Permᴰ zero (Permᴰ.swap e e') h = (1, ap some (sym e) ∙ h)
  get_elem?-Permᴰ (suc zero) (Permᴰ.swap e e') h = (0, ap some (sym e') ∙ h)
  get_elem?-Permᴰ (suc (suc i)) (Permᴰ.swap e e') h = (suc (suc i), h)
  get_elem?-Permᴰ i (Permᴰ.trans d d') h =
      let (j, h') = get_elem?-Permᴰ i d h in get_elem?-Permᴰ j d' h'
