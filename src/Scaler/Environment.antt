-- ===== src/Scaler/Environment.antt =====
-- What the loops of ScaleTo do to containers, environments and annotations.
use mathlib.Core.Path.{ap₂}
use argocd_autoscaler.Base.{
  ◌≡◌, refl, ◌∙◌, true, false, not, ◌||◌, List, [], ◌∷◌, ◌++◌, arith, Bool-cases, inl, inr,
  if◌then◌else◌,
}
use argocd_autoscaler.Text.{Text, text_eq}
use argocd_autoscaler.Text.Order.{text_eq_refl}
use argocd_autoscaler.Scaler.{
  EnvVar, Container, is_controller, is_replicas_env, replicas_env_name, env_found, set_values,
  set_env, set_containers, container_found, annotate, env_differs, containers_differ,
}

abbrev pub replicas_env : Text → EnvVar
replicas_env v = record { name = replicas_env_name; value = v }

is_replicas_env-set :
    (v : Text) (x : EnvVar)
    → is_replicas_env (if is_replicas_env x then record x { value = v } else x) ≡ is_replicas_env x
is_replicas_env-set v x = elim (Bool-cases (is_replicas_env x)) [ inl e ↦ simp e | inr e ↦ simp e ]

pub env_found-set_values :
    (v : Text) (xs : List EnvVar) → env_found (set_values v xs) ≡ env_found xs
unfolding env_found set_values
env_found-set_values v [] = refl
env_found-set_values v (x ∷ xs) =
    ap₂ (λ a b. a || b) (is_replicas_env-set v x) (env_found-set_values v xs)

env_differs-set_values :
    (v : Text) (xs : List EnvVar) → env_differs v (set_values v xs) ≡ not (env_found xs)
unfolding env_found set_values env_differs
env_differs-set_values v [] = refl
env_differs-set_values v (x ∷ xs) = elim (Bool-cases (is_replicas_env x)) [
  | inl e ↦ simp (e, text_eq_refl v)
  | inr e ↦ simp (e, env_differs-set_values v xs)
]

pub set_values_idem :
    (v : Text) (xs : List EnvVar) → set_values v (set_values v xs) ≡ set_values v xs
unfolding set_values
set_values_idem v [] = refl
set_values_idem v (x ∷ xs) = elim (Bool-cases (is_replicas_env x)) [
  | inl e ↦ simp (e, set_values_idem v xs)
  | inr e ↦ simp (e, set_values_idem v xs)
]

-- Where no variable has the name, one is appended.
module _ (v : Text) where
  env_found-append : (xs : List EnvVar) → env_found (xs ++ replicas_env v ∷ []) ≡ true
  unfolding env_found
  env_found-append [] = simp (text_eq_refl replicas_env_name)
  env_found-append (x ∷ xs) = elim (Bool-cases (is_replicas_env x)) [
    | inl e ↦ simp e
    | inr e ↦ simp (e, env_found-append xs)
  ]

  env_differs-append :
      (xs : List EnvVar) → env_found xs ≡ false → env_differs v (xs ++ replicas_env v ∷ []) ≡ false
  unfolding env_found env_differs
  env_differs-append [] h = simp (text_eq_refl replicas_env_name, text_eq_refl v)
  env_differs-append (x ∷ xs) h = elim (Bool-cases (is_replicas_env x)) [
    | inl e ↦ ground arith
    | inr e ↦ simp (e, env_differs-append xs (ground arith))
  ]

  set_values-append :
      (xs : List EnvVar)
      → set_values v (xs ++ replicas_env v ∷ []) ≡ set_values v xs ++ replicas_env v ∷ []
  unfolding set_values
  set_values-append [] = simp (text_eq_refl replicas_env_name)
  set_values-append (x ∷ xs) = simp (set_values-append xs)

pub env_differs-set_env : (v : Text) (xs : List EnvVar) → env_differs v (set_env v xs) ≡ false
unfolding set_env
env_differs-set_env v xs = elim (Bool-cases (env_found xs)) [
  | inl e ↦ rw (e, env_differs-set_values v xs, e) refl
  | inr e ↦ rw e (env_differs-append v _ (env_found-set_values v xs ∙ e))
]

pub set_env_idem : (v : Text) (xs : List EnvVar) → set_env v (set_env v xs) ≡ set_env v xs
unfolding set_env
set_env_idem v xs = elim (Bool-cases (env_found xs)) [
  | inl e ↦ simp (e, env_found-set_values v xs, set_values_idem v xs)
  | inr e ↦ simp (
    e,
    env_found-append v (set_values v xs),
    set_values-append v (set_values v xs),
    set_values_idem v xs,
  )
]

pub containers_differ-set_containers :
    (v : Text) (cs : List Container)
    → container_found cs ≡ true
    → containers_differ v (set_containers v cs) ≡ false
unfolding container_found set_containers containers_differ
containers_differ-set_containers v [] h = ground arith
containers_differ-set_containers v (c ∷ cs) h = elim (Bool-cases (is_controller c)) [
  | inl e ↦ simp (e, env_differs-set_env v c.env)
  | inr e ↦ simp (e, containers_differ-set_containers v cs (ground arith))
]

pub container_found-set_containers :
    (v : Text) (cs : List Container) → container_found (set_containers v cs) ≡ container_found cs
unfolding container_found set_containers
container_found-set_containers v [] = refl
container_found-set_containers v (c ∷ cs) = elim (Bool-cases (is_controller c)) [
  | inl e ↦ simp e
  | inr e ↦ simp (e, container_found-set_containers v cs)
]

pub set_containers_idem :
    (v : Text) (cs : List Container) → set_containers v (set_containers v cs) ≡ set_containers v cs
unfolding set_containers
set_containers_idem v [] = refl
set_containers_idem v (c ∷ cs) = elim (Bool-cases (is_controller c)) [
  | inl e ↦ simp (e, set_env_idem v c.env, set_containers_idem v cs)
  | inr e ↦ simp (e, set_containers_idem v cs)
]

pub annotate_idem :
    (k v : Text) (rest : List (Text × Text)) → annotate k v (annotate k v rest) ≡ annotate k v rest
unfolding annotate
annotate_idem k v [] = simp (text_eq_refl k)
annotate_idem k v ((j, w) ∷ rest) = elim (Bool-cases (text_eq j k)) [
  | inl e ↦ simp (e, text_eq_refl k)
  | inr e ↦ simp (e, annotate_idem k v rest)
]
