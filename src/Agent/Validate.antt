-- ===== src/Agent/Validate.antt =====
-- agent/profile.rs: what is checked of a profile before it is stored.
use opendaemon.Prelude.{
  String, Bool, true, false, not, ◌&&◌, ◌||◌, List, [], ◌∷◌, Option, none, some, str_eq,
  if◌then◌else◌, Result, ok, err, and_then,
}
use opendaemon.Text.{is_id, is_blank, contains_nul, is_env_key}
use opendaemon.Text.Names.{is_in}
use opendaemon.Registry.{ProviderRegistry, ProviderEntry, get}
use opendaemon.Agent.{
  WorkspaceMode, worktree, direct, ExecutionPolicy, ProviderConfig, CreateAgentProfile,
  AgentProfileError, invalid_agent_id, invalid_agent_profile, invalid_execution_policy,
  invalid_provider_config, provider_not_found, model_not_supported, permission_mode_not_supported,
}

abbrev pub Checked : Type 0
Checked = Result (Unit {0}) AgentProfileError

unfoldable pub fail_if : Bool → AgentProfileError → Checked
fail_if test e = if test then err e else ok tt

unfoldable pub validate_id : String → Checked
unfolding fail_if
validate_id id = fail_if (not (is_id id)) invalid_agent_id

unfoldable pub validate_required_string : String → Checked
unfolding fail_if
validate_required_string value = fail_if (is_blank value) invalid_agent_profile

unfoldable pub validate_optional_string : Option String → Checked
unfolding fail_if
validate_optional_string none = ok tt
validate_optional_string (some value) = fail_if (contains_nul value) invalid_agent_profile

abbrev pub is_direct : WorkspaceMode → Bool
is_direct direct = true
is_direct worktree = false

-- `ExecutionPolicy::validate`
unfoldable pub validate_policy : ExecutionPolicy → Checked
unfolding fail_if
validate_policy p =
    fail_if (is_direct p.default_workspace_mode && not p.allow_direct_directory)
      invalid_execution_policy

abbrev pub reserved_provider_args : List String
reserved_provider_args =
    "--provider" ∷ "--model" ∷ "--cwd" ∷ "--directory" ∷ "--workdir" ∷ "--permission-mode"
    ∷ "--dangerously-bypass-approvals-and-sandbox" ∷ []

abbrev pub is_empty_text : String → Bool
is_empty_text String.[] = true
is_empty_text (String.◌∷◌ c s) = false

-- an argument that is refused wherever it stands
abbrev pub is_bad_arg : String → Bool
is_bad_arg a = is_empty_text a || contains_nul a || is_in reserved_provider_args a

-- the loops of `ProviderConfig::validate`, `seen` being the values that came before
abbrev pub check_args : List String → List String → Checked
check_args seen [] = ok tt
check_args seen (a ∷ as') =
    let rest = check_args (a ∷ seen) as' in
    if is_bad_arg a || is_in seen a then err invalid_provider_config else rest

abbrev pub check_env_keys : List String → List String → Checked
check_env_keys seen [] = ok tt
check_env_keys seen (k ∷ ks) =
    let rest = check_env_keys (k ∷ seen) ks in
    if not (is_env_key k) || is_in seen k then err invalid_provider_config else rest

-- `ProviderConfig::validate`
unfoldable pub validate_config : ProviderConfig → Checked
unfolding validate_required_string
validate_config c = and_then (check_args [] c.custom_args) λ _.
    and_then (check_env_keys [] c.custom_env_keys) λ _. validate_required_string c.permission_mode

-- `CreateAgentProfile::validate`
unfoldable pub validate : CreateAgentProfile → Checked
unfolding validate_id validate_required_string validate_optional_string validate_policy
    validate_config
validate p = and_then (validate_id p.id) λ _. and_then (validate_required_string p.name) λ _.
    and_then (validate_required_string p.owner_product_id) λ _.
      and_then (validate_required_string p.provider_id) λ _.
        and_then (validate_required_string p.model) λ _.
          and_then (validate_optional_string p.instructions) λ _.
            and_then (validate_policy p.execution_policy) λ _. validate_config p.provider_config

abbrev pub default_permission_mode : String
default_permission_mode = "provider_default"

abbrev pub check_provider : CreateAgentProfile → Option ProviderEntry → Checked
check_provider p none = err provider_not_found
check_provider p (some e) =
    if not (is_in e.manifest.models.supported p.model)
    then err model_not_supported
    else if not (str_eq p.provider_config.permission_mode default_permission_mode)
        && not (
            is_in e.manifest.permissions.provider_permission_modes
              p.provider_config.permission_mode)
    then err permission_mode_not_supported
    else ok tt

unfoldable pub validate_against_registry : ProviderRegistry → CreateAgentProfile → Checked
unfolding validate
validate_against_registry registry p =
    and_then (validate p) λ _. check_provider p (get registry p.provider_id)
