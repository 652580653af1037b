-- ===== src/Scaler/Scaling.antt =====
-- What ScaleTo sends, read by RSControllerNeedsDesiredStateEnforcement and by another ScaleTo.
use argocd_autoscaler.Base.{
  ℕ, ◌≡◌, refl, ◌∙◌, Bool, true, false, none, some, List, [], ◌∷◌, ◌++◌, arith, Bool-cases, inl,
  inr, if◌then◌else◌, map, some_inj, sym, subst,
}
use argocd_autoscaler.Text.{Text, itoa}
use argocd_autoscaler.Text.Order.{text_eq_refl}
use argocd_autoscaler.Scaler.{
  EnvVar, Container, StatefulSet, is_controller, is_replicas_env, replicas_env_name, env_found,
  set_values, set_env, set_containers, container_found, annotate, restarted_at, scaled,
  needs_enforcement,
}
use argocd_autoscaler.Scaler.Environment.{
  replicas_env, containers_differ-set_containers, container_found-set_containers,
  set_containers_idem, annotate_idem,
}

pub scaled_found :
    (now : Text) (k : ℕ) (restart : Bool) (s : StatefulSet)
    → container_found s.containers ≡ true
    → scaled now k restart s
      ≡ some (record s {
        spec_replicas = some k;
        containers = set_containers (itoa k) s.containers;
        annotations = if restart then annotate restarted_at now s.annotations else s.annotations;
      })
unfolding scaled
scaled_found now k restart s h = simp h

annotations_idem :
    (now : Text) (restart : Bool) (rest : List (Text × Text))
    → (if restart
        then annotate restarted_at now (if restart then annotate restarted_at now rest else rest)
        else (if restart then annotate restarted_at now rest else rest))
      ≡ (if restart then annotate restarted_at now rest else rest)
annotations_idem now true rest = annotate_idem restarted_at now rest
annotations_idem now false rest = refl

module _ (now : Text) (k : ℕ) (restart : Bool) (s : StatefulSet) where
  abbrev pub sent : StatefulSet
  sent = record s {
    spec_replicas = some k;
    containers = set_containers (itoa k) s.containers;
    annotations = if restart then annotate restarted_at now s.annotations else s.annotations;
  }

  pub sent_enforced :
      container_found s.containers ≡ true
      → needs_enforcement (record sent { status_replicas = k }) k ≡ false
  unfolding needs_enforcement
  sent_enforced h =
      let differ = containers_differ-set_containers (itoa k) s.containers h in ground arith

  sent_again : container_found s.containers ≡ true → scaled now k restart sent ≡ some sent
  sent_again h =
      scaled_found now k restart sent (container_found-set_containers (itoa k) s.containers ∙ h)
      ∙ rw (set_containers_idem (itoa k) s.containers, annotations_idem now restart s.annotations)
          refl

  -- An object that is sent with a number of replicas needs no enforcement of that number once as
  -- many replicas run, and sending it again at the same time changes nothing. The object is sent
  -- exactly if it has a container of the name.
  pub scaled_converges :
      (container_found s.containers ≡ false → scaled now k restart s ≡ none)
      × (container_found s.containers ≡ true
          → (t : StatefulSet) × scaled now k restart s ≡ some t
            × needs_enforcement (record t { status_replicas = k }) k ≡ false
            × scaled now k restart t ≡ some t)
  unfolding scaled
  scaled_converges =
      (λ h. simp h, λ h. (sent, scaled_found now k restart s h, sent_enforced h, sent_again h))

-- What ScaleTo has no business with: the variables of other names.
pub other_vars : List EnvVar → List EnvVar
other_vars [] = []
other_vars (x ∷ xs) = if is_replicas_env x then other_vars xs else x ∷ other_vars xs

pub without_replicas : Container → Container
without_replicas c = if is_controller c then record c { env = other_vars c.env } else c

module _ (v : Text) where
  other_vars-set_values : (xs : List EnvVar) → other_vars (set_values v xs) ≡ other_vars xs
  unfolding other_vars set_values
  other_vars-set_values [] = refl
  other_vars-set_values (x ∷ xs) = elim (Bool-cases (is_replicas_env x)) [
    | inl e ↦ simp (e, other_vars-set_values xs)
    | inr e ↦ simp (e, other_vars-set_values xs)
  ]

  other_vars-append : (xs : List EnvVar) → other_vars (xs ++ replicas_env v ∷ []) ≡ other_vars xs
  unfolding other_vars
  other_vars-append [] = simp (text_eq_refl replicas_env_name)
  other_vars-append (x ∷ xs) = simp (other_vars-append xs)

  other_vars-set_env : (xs : List EnvVar) → other_vars (set_env v xs) ≡ other_vars xs
  unfolding set_env
  other_vars-set_env xs = elim (Bool-cases (env_found xs)) [
    | inl e ↦ rw e (other_vars-set_values xs)
    | inr e ↦ rw e (other_vars-append (set_values v xs) ∙ other_vars-set_values xs)
  ]

  map-set_containers :
      (cs : List Container) → map without_replicas (set_containers v cs) ≡ map without_replicas cs
  unfolding set_containers without_replicas
  map-set_containers [] = refl
  map-set_containers (c ∷ cs) = elim (Bool-cases (is_controller c)) [
    | inl e ↦ simp (e, other_vars-set_env c.env, map-set_containers cs)
    | inr e ↦ simp (e, map-set_containers cs)
  ]

-- The object that is sent asks for the number of replicas, and differs from the one that was read
-- in nothing else than the variable of the name in the containers of the name and, at a restart, in
-- the annotations of the template: containers keep their number, order and names, and variables of
-- other names their values and order.
pub scaled_keeps :
    (now : Text) (k : ℕ) (restart : Bool) (s t : StatefulSet)
    → scaled now k restart s ≡ some t
    → t.spec_replicas ≡ some k
      × map without_replicas t.containers ≡ map without_replicas s.containers
      × t.status_replicas ≡ s.status_replicas
      × (restart ≡ false → t.annotations ≡ s.annotations)
unfolding scaled
scaled_keeps now k restart s t h = elim (Bool-cases (container_found s.containers)) [
  | inl e ↦
      let h' = some_inj (sym (scaled_found now k restart s e) ∙ h) in
      subst
        (λ u.
          u.spec_replicas ≡ some k
          × map without_replicas u.containers ≡ map without_replicas s.containers
          × u.status_replicas ≡ s.status_replicas
          × (restart ≡ false → u.annotations ≡ s.annotations))
        h' (refl, map-set_containers (itoa k) s.containers, refl, λ r. simp r)
  | inr e ↦ ground arith
]
