-- ===== src/Agent.antt =====
-- agent/profile.rs: the profile under which a task runs. Its checks are in the child Validate, what
-- they accept in Checks.
pub mod Validate
pub mod Checks
use opendaemon.Prelude.{String, Bool, List, Option}
use opendaemon.Json.{Value}

pub data WorkspaceMode : Type 0 where
  worktree direct : WorkspaceMode

pub record ExecutionPolicy : Type 0 where
  pub default_workspace_mode : WorkspaceMode
  pub allow_direct_directory : Bool

pub record ProviderConfig : Type 0 where
  pub custom_args : List String
  pub custom_env_keys : List String
  pub mcp_config : Option Value
  pub permission_mode : String

pub record AgentProfile : Type 0 where
  pub id : String
  pub name : String
  pub owner_product_id : String
  pub provider_id : String
  pub model : String
  pub instructions : Option String
  pub execution_policy : ExecutionPolicy
  pub provider_config : ProviderConfig
  pub created_at : String
  pub updated_at : String

pub data AgentProfileError : Type 0 where
  agent_not_found invalid_agent_id invalid_agent_profile : AgentProfileError
  invalid_execution_policy invalid_provider_config provider_not_found : AgentProfileError
  model_not_supported permission_mode_not_supported : AgentProfileError
  agent_authorization_failed : AgentProfileError

pub record CreateAgentProfile : Type 0 where
  pub id : String
  pub name : String
  pub owner_product_id : String
  pub provider_id : String
  pub model : String
  pub instructions : Option String
  pub execution_policy : ExecutionPolicy
  pub provider_config : ProviderConfig

-- `CreateAgentProfile::into_profile`
abbrev pub into_profile : CreateAgentProfile → String → String → AgentProfile
into_profile p created_at updated_at = record {
  id = p.id;
  name = p.name;
  owner_product_id = p.owner_product_id;
  provider_id = p.provider_id;
  model = p.model;
  instructions = p.instructions;
  execution_policy = p.execution_policy;
  provider_config = p.provider_config;
  created_at = created_at;
  updated_at = updated_at;
}

unfoldable pub code : AgentProfileError → String
code agent_not_found = "agent_not_found"
code invalid_agent_id = "invalid_agent_id"
code invalid_agent_profile = "invalid_agent_profile"
code invalid_execution_policy = "invalid_execution_policy"
code invalid_provider_config = "invalid_provider_config"
code provider_not_found = "provider_not_found"
code model_not_supported = "model_not_supported"
code permission_mode_not_supported = "permission_mode_not_supported"
code agent_authorization_failed = "agent_authorization_failed"

unfoldable pub message : AgentProfileError → String
message agent_not_found = "agent profile not found"
message invalid_agent_id = "invalid agent id"
message invalid_agent_profile = "invalid agent profile"
message invalid_execution_policy = "invalid execution policy"
message invalid_provider_config = "invalid provider config"
message provider_not_found = "provider not found"
message model_not_supported = "model not supported"
message permission_mode_not_supported = "permission mode not supported"
message agent_authorization_failed = "agent authorization failed"
