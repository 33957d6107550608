-- ===== src/Agent/Checks.antt =====
-- Which profiles the checks of agent/profile.rs accept.
use opendaemon.Prelude.{
  String, Bool, true, false, not, ◌&&◌, ◌≡◌, refl, sym, subst, ◌↔◌, ◌⊎◌, List, [], ◌∷◌, All, Option,
  none, some, eq_iff, ok, err, and_then, arith,
}
use mathlib.Core.Option.{some-injective}
use opendaemon.Text.{is_id, contains_nul, is_env_key}
use opendaemon.Text.Names.{Filled, NoRepeat, New, is_in, is_in-false_iff, New-cons_iff, New-nil}
use opendaemon.Registry.{ProviderRegistry, ProviderEntry, get}
use opendaemon.Agent.{CreateAgentProfile, ProviderConfig, AgentProfileError}
use opendaemon.Agent.Validate.{
  Checked, fail_if, validate_id, validate_required_string, validate_optional_string,
  validate_policy, is_bad_arg, check_args, check_env_keys, validate_config, validate,
  check_provider, default_permission_mode, validate_against_registry, is_direct,
}

then_iff : (a b : Checked) → (and_then a (λ _. b) ≡ ok tt) ↔ ((a ≡ ok tt) × (b ≡ ok tt))
then_iff (ok tt) b = (λ h. (refl, h), λ h. h.1)
then_iff (err e) b = (λ h. absurd (cc), λ h. absurd (cc))

fail_if_iff : (b : Bool) (e : AgentProfileError) → (fail_if b e ≡ ok tt) ↔ (b ≡ false)
unfolding fail_if
fail_if_iff true e = (λ h. absurd (cc), λ h. absurd (cc))
fail_if_iff false e = (λ h. refl, λ h. refl)

fail_unless_iff : (b : Bool) (e : AgentProfileError) → (fail_if (not b) e ≡ ok tt) ↔ (b ≡ true)
unfolding fail_if
fail_unless_iff true e = (λ h. refl, λ h. refl)
fail_unless_iff false e = (λ h. absurd (cc), λ h. absurd (cc))

abbrev pub Argument : String → Type 0
Argument a = is_bad_arg a ≡ false

abbrev pub EnvKey : String → Type 0
EnvKey k = is_env_key k ≡ true

check_args_iff :
    (seen vs : List String)
    → (check_args seen vs ≡ ok tt) ↔ (All Argument vs × NoRepeat vs × New seen vs)
check_args_iff seen [] = (λ h. (tt, tt, tt), λ h. refl)
check_args_iff seen (v ∷ vs) = (
  λ h.
      let (good, distinct, new) = (check_args_iff (v ∷ seen) vs).0 (ground (arith, h)) in
      let (others, new') = (New-cons_iff v seen vs).0 new in
      (
        (ground (arith, h), good),
        (others, distinct),
        ((is_in-false_iff seen v).0 (ground (arith, h)), new'),
      ),
  λ h.
      let (good, distinct, new) = h in
      let rest =
        (check_args_iff (v ∷ seen) vs).1
          (good.1, distinct.1, (New-cons_iff v seen vs).1 (distinct.0, new.1)) in
      ground (arith, rest, good.0, (is_in-false_iff seen v).1 new.0),
)

check_env_keys_iff :
    (seen vs : List String)
    → (check_env_keys seen vs ≡ ok tt) ↔ (All EnvKey vs × NoRepeat vs × New seen vs)
check_env_keys_iff seen [] = (λ h. (tt, tt, tt), λ h. refl)
check_env_keys_iff seen (v ∷ vs) = (
  λ h.
      let (good, distinct, new) = (check_env_keys_iff (v ∷ seen) vs).0 (ground (arith, h)) in
      let (others, new') = (New-cons_iff v seen vs).0 new in
      (
        (ground (arith, h), good),
        (others, distinct),
        ((is_in-false_iff seen v).0 (ground (arith, h)), new'),
      ),
  λ h.
      let (good, distinct, new) = h in
      let rest =
        (check_env_keys_iff (v ∷ seen) vs).1
          (good.1, distinct.1, (New-cons_iff v seen vs).1 (distinct.0, new.1)) in
      ground (arith, rest, good.0, (is_in-false_iff seen v).1 new.0),
)

-- the settings of the provider: arguments that are not empty, have no NUL and are not reserved, and
-- names of environment variables, none of them twice
pub record IsConfig (c : ProviderConfig) : Type 0 where
  pub args : All Argument c.custom_args
  pub args_distinct : NoRepeat c.custom_args
  pub env_keys : All EnvKey c.custom_env_keys
  pub env_keys_distinct : NoRepeat c.custom_env_keys
  pub permission_mode : Filled c.permission_mode

validate_config_iff : (c : ProviderConfig) → (validate_config c ≡ ok tt) ↔ IsConfig c
unfolding validate_config validate_required_string
validate_config_iff c = (
  λ h.
      let (args, more) = (then_iff _ _).0 h in
      let (keys, mode) = (then_iff _ _).0 more in
      let (a, b, _) = (check_args_iff [] c.custom_args).0 args in
      let (k, l, _) = (check_env_keys_iff [] c.custom_env_keys).0 keys in
      record {
        args = a;
        args_distinct = b;
        env_keys = k;
        env_keys_distinct = l;
        permission_mode = (fail_if_iff _ _).0 mode;
      },
  λ v. (then_iff _ _).1 (
    (check_args_iff [] c.custom_args).1 (v.args, v.args_distinct, New-nil c.custom_args),
    (then_iff _ _).1 (
      (check_env_keys_iff [] c.custom_env_keys).1
          (v.env_keys, v.env_keys_distinct, New-nil c.custom_env_keys),
      (fail_if_iff _ _).1 v.permission_mode,
    ),
  ),
)

abbrev pub NoNul : Option String → Type 0
NoNul none = Unit
NoNul (some s) = contains_nul s ≡ false

optional_iff : (o : Option String) → (validate_optional_string o ≡ ok tt) ↔ NoNul o
unfolding validate_optional_string
optional_iff none = (λ h. tt, λ h. refl)
optional_iff (some s) = fail_if_iff (contains_nul s) _

-- a profile that may be stored
pub record IsProfile (p : CreateAgentProfile) : Type 0 where
  pub id : is_id p.id ≡ true
  pub name : Filled p.name
  pub owner : Filled p.owner_product_id
  pub provider : Filled p.provider_id
  pub model : Filled p.model
  pub instructions : NoNul p.instructions
  pub policy :
      (is_direct p.execution_policy.default_workspace_mode
        && not p.execution_policy.allow_direct_directory)
      ≡ false
  pub config : IsConfig p.provider_config

pub validate_iff : (p : CreateAgentProfile) → (validate p ≡ ok tt) ↔ IsProfile p
unfolding validate validate_id validate_required_string validate_policy
validate_iff p = (
  λ h.
      let (id, h1) = (then_iff _ _).0 h in
      let (name, h2) = (then_iff _ _).0 h1 in
      let (owner, h3) = (then_iff _ _).0 h2 in
      let (provider, h4) = (then_iff _ _).0 h3 in
      let (model, h5) = (then_iff _ _).0 h4 in
      let (instructions, h6) = (then_iff _ _).0 h5 in
      let (policy, config) = (then_iff _ _).0 h6 in
      record {
        id = (fail_unless_iff _ _).0 id;
        name = (fail_if_iff _ _).0 name;
        owner = (fail_if_iff _ _).0 owner;
        provider = (fail_if_iff _ _).0 provider;
        model = (fail_if_iff _ _).0 model;
        instructions = (optional_iff _).0 instructions;
        policy = (fail_if_iff _ _).0 policy;
        config = (validate_config_iff _).0 config;
      },
  λ v. (then_iff _ _).1 (
    (fail_unless_iff _ _).1 v.id,
    (then_iff _ _).1 (
      (fail_if_iff _ _).1 v.name,
      (then_iff _ _).1 (
        (fail_if_iff _ _).1 v.owner,
        (then_iff _ _).1 (
          (fail_if_iff _ _).1 v.provider,
          (then_iff _ _).1 (
            (fail_if_iff _ _).1 v.model,
            (then_iff _ _).1 (
              (optional_iff _).1 v.instructions,
              (then_iff _ _).1 ((fail_if_iff _ _).1 v.policy, (validate_config_iff _).1 v.config),
            ),
          ),
        ),
      ),
    ),
  ),
)

-- the provider of the registry supports what the profile asks of it
pub record Supports (e : ProviderEntry) (p : CreateAgentProfile) : Type 0 where
  pub model : is_in e.manifest.models.supported p.model ≡ true
  pub permission_mode :
      (p.provider_config.permission_mode ≡ default_permission_mode)
      ⊎ (is_in e.manifest.permissions.provider_permission_modes p.provider_config.permission_mode
          ≡ true)

check_provider_iff :
    (p : CreateAgentProfile) (o : Option ProviderEntry)
    → (check_provider p o ≡ ok tt) ↔ ((e : ProviderEntry) × (o ≡ some e) × Supports e p)
check_provider_iff p none = (λ h. absurd (cc), λ h. absurd (let (e, q, s) = h in cc))
check_provider_iff p (some e) = (
  λ h. (
    e,
    refl,
    record {
      model = ground (arith, h);
      permission_mode =
          ground (arith, h, eq_iff p.provider_config.permission_mode default_permission_mode);
    },
  ),
  λ h.
      let (f, q, s) = h in
      let t = subst (λ x. Supports x p) (sym (some-injective e f q)) s in
      ground (
        arith,
        t.model,
        t.permission_mode,
        eq_iff p.provider_config.permission_mode default_permission_mode,
      ),
)

-- A profile is accepted just when its id, its texts, its policy and its settings are what they have
-- to be, its provider is in the registry, and that provider supports its model and, unless it is the
-- default one, its permission mode.
pub validate_against_registry_iff :
    (registry : ProviderRegistry) (p : CreateAgentProfile)
    → (validate_against_registry registry p ≡ ok tt)
      ↔ (IsProfile p × ((e : ProviderEntry) × (get registry p.provider_id ≡ some e) × Supports e p))
unfolding validate_against_registry
validate_against_registry_iff registry p = (
  λ h.
      let (a, b) = (then_iff (validate p) _).0 h in
      ((validate_iff p).0 a, (check_provider_iff p _).0 b),
  λ h. (then_iff (validate p) _).1 ((validate_iff p).1 h.0, (check_provider_iff p _).1 h.1),
)
