-- ===== src/Outcomes.antt =====
-- What a call of Go comes to, a value, an error or a panic, and how such calls are taken apart.
use argocd_autoscaler.Base.{◌≡◌, refl, ap, ◌∙◌, Option, none, some}

-- The error is that of ParseQuantity wherever a call returns one.
pub data Outcome (A : Type 0) : Type 0 where
  returned : A → Outcome A
  failed : Outcome A
  panicked : Outcome A

infixl 5 ◌>>=◌
abbrev pub ◌>>=◌ : {A B : Type 0} → Outcome A → (A → Outcome B) → Outcome B
returned x >>= f = f x
failed >>= f = failed
panicked >>= f = panicked

abbrev pub or_panic : {A : Type 0} → Option A → Outcome A
or_panic none = panicked
or_panic (some x) = returned x

abbrev pub or_fail : {A : Type 0} → Option A → Outcome A
or_fail none = failed
or_fail (some x) = returned x

module _ {A : Type 0} where
  abbrev value_or : A → Outcome A → A
  value_or d (returned x) = x
  value_or d failed = d
  value_or d panicked = d

  pub returned_inj : {x y : A} → returned x ≡ returned y → x ≡ y
  returned_inj {x} h = cc

module _ {A B : Type 0} where
  pub >>=-eq_returned :
      (o : Outcome A) (f : A → Outcome B) {y : B}
      → (o >>= f) ≡ returned y
      → (x : A) × (o ≡ returned x) × (f x ≡ returned y)
  >>=-eq_returned (returned x) f h = (x, refl, h)
  >>=-eq_returned failed f h = cc
  >>=-eq_returned panicked f h = cc

-- A call that does not panic, and a call that returns.
abbrev pub Survives : {A : Type 0} → Outcome A → Type 0
Survives (returned x) = Unit
Survives failed = Unit
Survives panicked = ⊥

abbrev pub Returns : {A : Type 0} → Outcome A → Type 0
Returns {A} o = (x : A) × (o ≡ returned x)

module _ {A B : Type 0} where
  pub >>=-Survives :
      (o : Outcome A) (f : A → Outcome B)
      → Survives o
      → ((x : A) → o ≡ returned x → Survives (f x))
      → Survives (o >>= f)
  >>=-Survives (returned x) f h k = k x refl
  >>=-Survives failed f h k = tt
  >>=-Survives panicked f h k = h

  pub >>=-Returns :
      (o : Outcome A) (f : A → Outcome B)
      → Returns o
      → ((x : A) → Returns (f x))
      → Returns (o >>= f)
  >>=-Returns o f (x, h) k = let (y, e) = k x in (y, ap (λ p. p >>= f) h ∙ e)

pub or_panic-eq_returned :
    {A : Type 0} (o : Option A) {x : A} → or_panic o ≡ returned x → o ≡ some x
or_panic-eq_returned none h = cc
or_panic-eq_returned (some y) h = ap some (returned_inj h)

pub or_fail-eq_returned : {A : Type 0} (o : Option A) {x : A} → or_fail o ≡ returned x → o ≡ some x
or_fail-eq_returned none h = cc
or_fail-eq_returned (some y) h = ap some (returned_inj h)

module _ {A B : Type 0} where
  pub map-eq_returned :
      (f : A → B) (o : Outcome A) {y : B}
      → (o >>= λ x. returned (f x)) ≡ returned y
      → (x : A) × (o ≡ returned x) × (f x ≡ y)
  map-eq_returned f o h =
      let (x, e, e') = >>=-eq_returned o (λ x. returned (f x)) h in (x, e, returned_inj e')
