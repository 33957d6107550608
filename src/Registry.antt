-- ===== src/Registry.antt =====
-- registry/manifest.rs and registry/mod.rs: the manifests of providers and the registry of them.
-- The checks of a manifest are in the child Validate, the loading of a directory in Load.
pub mod Validate
pub mod Checks
pub mod Manifests
pub mod Load
pub mod Sorting
use opendaemon.Prelude.{String, Bool, List, Option, find, str_eq}

pub data ProviderStatus : Type 0 where
  community verified first_party deprecated : ProviderStatus

pub data IntegrationType : Type 0 where
  cli acp http native : IntegrationType

pub record VendorInfo : Type 0 where
  pub name : String
  pub homepage : String
  pub support_url : Option String

pub record InstallInstructions : Type 0 where
  pub macos : List String
  pub linux : List String
  pub windows : List String

pub record DetectConfig : Type 0 where
  pub commands : List String
  pub version_args : List String
  pub version_regex : Option String

pub data ExecutionInputMode : Type 0 where
  arg stdin temp_file : ExecutionInputMode

pub data WorkingDirectoryMode : Type 0 where
  required optional unsupported : WorkingDirectoryMode

pub data CancelSignal : Type 0 where
  sigterm sigint kill none : CancelSignal

pub record ExecutionConfig : Type 0 where
  pub command : String
  pub args : List String
  pub input_mode : ExecutionInputMode
  pub working_directory : WorkingDirectoryMode
  pub supports_streaming : Bool
  pub cancel_signal : CancelSignal

pub record ModelConfig : Type 0 where
  pub default : String
  pub supported : List String

pub record ProviderCapabilities : Type 0 where
  pub filesystem_read : Bool
  pub filesystem_write : Bool
  pub shell : Bool
  pub git : Bool
  pub browser : Bool
  pub mcp : Bool
  pub remote_execution : Bool
  pub worktree : Bool
  pub direct_directory : Bool
  pub supports_resume : Bool
  pub supports_permission_requests : Bool

pub data AcpTransport : Type 0 where
  stdio local_socket : AcpTransport

pub data AcpWorkingDirectoryMode : Type 0 where
  workspace provider : AcpWorkingDirectoryMode

pub data HttpAuthScheme : Type 0 where
  none bearer : HttpAuthScheme

pub data HttpUploadMode : Type 0 where
  workspace_subset diff context_only : HttpUploadMode

pub record HttpConfig : Type 0 where
  pub endpoint : String
  pub auth_scheme : HttpAuthScheme
  pub upload_mode : HttpUploadMode
  pub supports_streaming : Bool
  pub supports_cancel : Bool
  pub cancel_endpoint : Option String

pub record AcpConfig : Type 0 where
  pub transport : AcpTransport
  pub command : Option (List String)
  pub endpoint : Option String
  pub working_directory_mode : AcpWorkingDirectoryMode
  pub env_allowlist : List String

pub data DirectoryLockMode : Type 0 where
  exclusive shared none : DirectoryLockMode

pub record ProviderPermissions : Type 0 where
  pub requires_directory_grant : Bool
  pub recommended_directory_lock : DirectoryLockMode
  pub provider_permission_modes : List String
  pub supports_permission_events : Bool

pub record EnvironmentConfig : Type 0 where
  pub required : List String
  pub optional : List String

pub data SecurityReviewLevel : Type 0 where
  standard strict experimental : SecurityReviewLevel

pub record SecurityConfig : Type 0 where
  pub runs_locally : Bool
  pub sends_code_to_vendor : Bool
  pub data_policy_url : Option String
  pub review_level : SecurityReviewLevel

pub record ProviderManifest : Type 0 where
  pub schema_version : String
  pub id : String
  pub display_name : String
  pub status : ProviderStatus
  pub vendor : VendorInfo
  pub integration_type : IntegrationType
  pub description : String
  pub install : InstallInstructions
  pub detect : DetectConfig
  pub execution : ExecutionConfig
  pub models : ModelConfig
  pub capabilities : ProviderCapabilities
  pub permissions : ProviderPermissions
  pub environment : EnvironmentConfig
  pub security : SecurityConfig
  pub acp : Option AcpConfig
  pub http : Option HttpConfig

pub record ProviderEntry : Type 0 where
  pub directory_name : String
  pub manifest_path : String
  pub manifest : ProviderManifest

pub record ProviderRegistry : Type 0 where
  pub providers : List ProviderEntry

-- `ProviderRegistry::get`
unfoldable pub get : ProviderRegistry → String → Option ProviderEntry
get registry provider_id = find (λ e. str_eq e.manifest.id provider_id) registry.providers
