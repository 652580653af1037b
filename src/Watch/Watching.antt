-- ===== src/Watch/Watching.antt =====
-- What each controller watches, by the kinds that were registered.
use argocd_autoscaler.Base.{
  ◌≡◌, refl, ap, sym, ◌∙◌, Bool, true, false, ◌&&◌, Option, none, some, List, [], ◌∷◌, ◌++◌, ◌>>=◌,
  if◌then◌else◌,
}
use mathlib.Core.List.{append_assoc, append-nil}
use argocd_autoscaler.Watch.Registry.{
  GroupVersionKind, Registry, empty, get_shard_managers, get_metric_values_providers,
  get_load_index_providers, get_partition_providers, get_replica_set_controllers,
}
use argocd_autoscaler.Watch.Setup.{
  Made, creation_failed, no_client_object, client_object, Handler, map_partition_provider,
  map_shard_manager, map_replica_set_controller, Watches, watch_one, watch_all, setup_partition,
  setup_evaluation, setup_load_index, setup_normalizer, setup_poll, setup_scaler,
}
use argocd_autoscaler.Watch.Roles.{
  Controller, Registrations, Role, all_made, dependencies, evaluation, handled, is_made, load_index,
  load_index_provider, metric_values_provider, normalizer, partition, partition_provider, poll,
  register, register_all, registered, replica_set_controller, same_role, scaler, setup,
  shard_manager, watches_of,
}

kinds_for : Role → Registry → List GroupVersionKind
unfolding get_shard_managers get_metric_values_providers get_load_index_providers
    get_partition_providers get_replica_set_controllers
kinds_for shard_manager r = get_shard_managers r
kinds_for metric_values_provider r = get_metric_values_providers r
kinds_for load_index_provider r = get_load_index_providers r
kinds_for partition_provider r = get_partition_providers r
kinds_for replica_set_controller r = get_replica_set_controllers r

kinds_for-register :
    (role role' : Role) (g : GroupVersionKind) (r : Registry)
    → kinds_for role (register role' g r)
      ≡ kinds_for role r ++ (if same_role role role' then g ∷ [] else [])
unfolding register kinds_for
kinds_for-register shard_manager shard_manager g r = refl
kinds_for-register metric_values_provider metric_values_provider g r = refl
kinds_for-register load_index_provider load_index_provider g r = refl
kinds_for-register partition_provider partition_provider g r = refl
kinds_for-register replica_set_controller replica_set_controller g r = refl
kinds_for-register _ _ g r = sym (append-nil _)

kinds_for-register_all :
    (role : Role) (gs : Registrations) (r : Registry)
    → kinds_for role (register_all gs r) ≡ kinds_for role r ++ registered role gs
unfolding register_all registered
kinds_for-register_all role [] r = sym (append-nil (kinds_for role r))
kinds_for-register_all role ((role', g) ∷ gs) r =
    kinds_for-register_all role gs (register role' g r)
    ∙ ap (λ l. l ++ registered role gs) (kinds_for-register role role' g r)
    ∙ append_if (same_role role role')
  where
    append_if :
        (b : Bool)
        → (kinds_for role r ++ (if b then g ∷ [] else [])) ++ registered role gs
          ≡ kinds_for role r ++ (if b then g ∷ registered role gs else registered role gs)
    append_if true = append_assoc (kinds_for role r) (g ∷ []) (registered role gs)
    append_if false = append_assoc (kinds_for role r) [] (registered role gs)

none_for : (role : Role) → kinds_for role empty ≡ []
unfolding kinds_for
none_for shard_manager = refl
none_for metric_values_provider = refl
none_for load_index_provider = refl
none_for partition_provider = refl
none_for replica_set_controller = refl

all_made-append :
    (new : GroupVersionKind → Made) (us vs : Watches)
    → all_made new (us ++ vs) ≡ all_made new us && all_made new vs
unfolding all_made
all_made-append new [] vs = refl
all_made-append new ((g, h) ∷ us) vs =
    ap (λ b. is_made (new g) && b) (all_made-append new us vs)
    ∙ sym (and_assoc (is_made (new g)) (all_made new us) (all_made new vs))
  where
    and_assoc : (a b c : Bool) → (a && b) && c ≡ a && (b && c)
    and_assoc true b c = refl
    and_assoc false b c = refl

watch_all_lem :
    (new : GroupVersionKind → Made) (h : Handler) (gs : List GroupVersionKind) (ws : Watches)
    → watch_all new h gs ws
      ≡ (if all_made new (handled h gs) then some (ws ++ handled h gs) else none)
unfolding watch_all all_made
watch_all_lem new h [] ws = ap some (sym (append-nil ws))
watch_all_lem new h (g ∷ gs) ws = made (new g) (watch_all_lem new h gs (ws ++ (g, h) ∷ []))
  where
    made :
        (m : Made)
        → watch_all new h gs (ws ++ (g, h) ∷ []) ≡ (
            if all_made new (handled h gs)
            then some ((ws ++ (g, h) ∷ []) ++ handled h gs)
            else none)
        → (watch_one new m >>= λ u. watch_all new h gs (ws ++ (g, h) ∷ [])) ≡ (
            if is_made m && all_made new (handled h gs)
            then some (ws ++ (g, h) ∷ handled h gs)
            else none)
    made creation_failed rest = refl
    made no_client_object rest = refl
    made client_object rest =
        rest
        ∙ ap (λ l. if all_made new (handled h gs) then some l else none)
            (append_assoc ws ((g, h) ∷ []) (handled h gs))

module _ (new : GroupVersionKind → Made) (complete : Watches → Bool) where
  abbrev accepted : Watches → Option Watches
  accepted ws = if complete ws then some ws else none

  setup_each : List (Role × Handler) → Registry → Watches → Option Watches
  unfolding kinds_for watch_all
  setup_each [] r ws = accepted ws
  setup_each ((role, h) ∷ ds) r ws = watch_all new h (kinds_for role r) ws >>= setup_each ds r

  setup-setup_each :
      (c : Controller) (r : Registry) → setup new complete c r ≡ setup_each (dependencies c) r []
  unfolding setup setup_each setup_partition setup_evaluation setup_load_index setup_normalizer
      setup_poll setup_scaler kinds_for
  setup-setup_each partition r = refl
  setup-setup_each evaluation r = refl
  setup-setup_each load_index r = refl
  setup-setup_each normalizer r = refl
  setup-setup_each poll r = refl
  setup-setup_each scaler r =
      bind_assoc (watch_all new map_partition_provider (get_partition_providers r) [])
        (watch_all new map_shard_manager (get_shard_managers r))
        (watch_all new map_replica_set_controller (get_replica_set_controllers r)) accepted
    where
      bind_assoc :
          (o : Option Watches) (f g h : Watches → Option Watches)
          → (o >>= f >>= g >>= h) ≡ (o >>= λ x. f x >>= λ y. g y >>= h)
      bind_assoc none f g h = refl
      bind_assoc (some x) f g h = inner (f x) g h
        where
          inner :
              (o : Option Watches) (g h : Watches → Option Watches)
              → (o >>= g >>= h) ≡ (o >>= λ y. g y >>= h)
          inner none g h = refl
          inner (some y) g h = refl

  setup_each_lem :
      (ds : List (Role × Handler)) (gs : Registrations) (ws : Watches)
      → setup_each ds (register_all gs empty) ws
        ≡ (if all_made new (watches_of ds gs) then accepted (ws ++ watches_of ds gs) else none)
  unfolding setup_each watches_of all_made
  setup_each_lem [] gs ws = ap accepted (sym (append-nil ws))
  setup_each_lem ((role, h) ∷ ds) gs ws =
      let us = handled h (registered role gs) in
      let vs = watches_of ds gs in
      ap (λ l. watch_all new h l ws >>= setup_each ds (register_all gs empty))
        (kinds_for-register_all role gs empty ∙ ap (λ l. l ++ registered role gs) (none_for role))
      ∙ ap (λ o. o >>= setup_each ds (register_all gs empty))
          (watch_all_lem new h (registered role gs) ws)
      ∙ continued us vs (all_made new us) (setup_each_lem ds gs (ws ++ us))
      ∙ ap (λ b. if b then accepted (ws ++ (us ++ vs)) else none) (sym (all_made-append new us vs))
    where
      continued :
          (us vs : Watches) (b : Bool)
          → setup_each ds (register_all gs empty) (ws ++ us)
            ≡ (if all_made new vs then accepted ((ws ++ us) ++ vs) else none)
          → ((if b then some (ws ++ us) else none) >>= setup_each ds (register_all gs empty))
            ≡ (if b && all_made new vs then accepted (ws ++ (us ++ vs)) else none)
      continued us vs true rest =
          rest ∙ ap (λ l. if all_made new vs then accepted l else none) (append_assoc ws us vs)
      continued us vs false rest = refl

  -- After the kinds in `gs` were registered, in that order, for their roles: the setup of a
  -- controller other than the shard manager makes it watch exactly the kinds that were registered
  -- for the roles that it depends on, in order, each with the handler for that role, if all of them
  -- are kinds of client objects and the builder accepts the controller, and fails otherwise.
  pub setup_watches :
      (c : Controller) (gs : Registrations)
      → setup new complete c (register_all gs empty) ≡ (
          if all_made new (watches_of (dependencies c) gs)
          then (if complete (watches_of (dependencies c) gs)
              then some (watches_of (dependencies c) gs)
              else none)
          else none)
  setup_watches c gs =
      setup-setup_each c (register_all gs empty) ∙ setup_each_lem (dependencies c) gs []
