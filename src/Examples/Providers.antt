-- ===== src/Examples/Providers.antt =====
-- A provider, the files of the registry that it is loaded from, and a profile that it supports.
use opendaemon.Prelude.{
  String, true, false, ◌≡◌, ◌⊎◌, ◌↔◌, refl, All, [], ◌∷◌, some, none, Result, ok, err,
}
use opendaemon.Agent
use opendaemon.Agent.{CreateAgentProfile}
use opendaemon.Agent.Validate.{validate_against_registry}
use opendaemon.Agent.Checks.{IsProfile, Supports, validate_against_registry_iff}
use opendaemon.Registry.{
  ProviderManifest, ProviderEntry, ProviderRegistry, ProviderStatus, IntegrationType,
  ExecutionInputMode, WorkingDirectoryMode, CancelSignal, DirectoryLockMode, SecurityReviewLevel,
  get,
}
use opendaemon.Registry.Load.{
  DirEntry, Sound, NoTwo, load_registry_from_dir, entry_of, load_entries, sort_entries,
}
use opendaemon.Registry.Validate.{validate_manifest_entry, push_if, validate_registry_entries}
use opendaemon.Registry.Sorting.{load_registry_lem}
use opendaemon.Runtime.Template.{TemplateValues, RenderError, render}
use opendaemon.Runtime.Template.Rendering.{Means, render_answers}

abbrev pub a_manifest : ProviderManifest
a_manifest = record {
  schema_version = "1";
  id = "codex";
  display_name = "Codex";
  status = ProviderStatus.verified;
  vendor = record { name = "Vendor"; homepage = "https://vendor.test"; support_url = none };
  integration_type = IntegrationType.cli;
  description = "a coding agent";
  install = record { macos = []; linux = []; windows = [] };
  detect = record { commands = "codex" ∷ []; version_args = []; version_regex = none };
  execution = record {
    command = "codex";
    args = "exec" ∷ "{{prompt}}" ∷ [];
    input_mode = ExecutionInputMode.arg;
    working_directory = WorkingDirectoryMode.required;
    supports_streaming = true;
    cancel_signal = CancelSignal.sigterm;
  };
  models = record { default = "small"; supported = "small" ∷ "large" ∷ [] };
  capabilities = record {
    filesystem_read = true;
    filesystem_write = true;
    shell = true;
    git = true;
    browser = false;
    mcp = false;
    remote_execution = false;
    worktree = true;
    direct_directory = false;
    supports_resume = false;
    supports_permission_requests = false;
  };
  permissions = record {
    requires_directory_grant = true;
    recommended_directory_lock = DirectoryLockMode.exclusive;
    provider_permission_modes = [];
    supports_permission_events = false;
  };
  environment = record { required = []; optional = [] };
  security = record {
    runs_locally = true;
    sends_code_to_vendor = true;
    data_policy_url = none;
    review_level = SecurityReviewLevel.standard;
  };
  acp = none;
  http = none;
}

abbrev a_directory : DirEntry
a_directory = record {
  name = "codex";
  path = "/registry/providers/codex";
  is_dir = some true;
  manifest = ok a_manifest;
  is_file = λ p. true;
}

-- a file beside the directories, which is passed over
abbrev a_file : DirEntry
a_file = record {
  name = "README.md";
  path = "/registry/providers/README.md";
  is_dir = some false;
  manifest = err "not read";
  is_file = λ p. true;
}

abbrev pub a_registry : ProviderRegistry
a_registry = record { providers = entry_of a_directory a_manifest ∷ [] }

loads : load_registry_from_dir (some (a_file ∷ a_directory ∷ [])) ≡ ok a_registry
unfolding load_registry_from_dir load_entries validate_manifest_entry push_if
    validate_registry_entries sort_entries
loads = refl

load_registry_lem_example :
    All Sound a_registry.providers
    × NoTwo a_registry.providers
    × ((id : String)
        → (get a_registry id ≡ none)
          ⊎ ((e : ProviderEntry) × (get a_registry id ≡ some e) × (e.manifest.id ≡ id) × Sound e))
load_registry_lem_example = load_registry_lem (some (a_file ∷ a_directory ∷ [])) a_registry loads

abbrev pub an_input : CreateAgentProfile
an_input = record {
  id = "agent";
  name = "Agent";
  owner_product_id = "product";
  provider_id = "codex";
  model = "large";
  instructions = none;
  execution_policy = record {
    default_workspace_mode = Agent.WorkspaceMode.worktree;
    allow_direct_directory = false;
  };
  provider_config = record {
    custom_args = "--quiet" ∷ [];
    custom_env_keys = "HOME" ∷ [];
    mcp_config = none;
    permission_mode = "provider_default";
  };
}

validate_against_registry_iff_example : (validate_against_registry a_registry an_input ≡ ok tt) ↔ (
    IsProfile an_input
    × ((e : ProviderEntry) × (get a_registry "codex" ≡ some e) × Supports e an_input))
validate_against_registry_iff_example = validate_against_registry_iff a_registry an_input

abbrev some_values : TemplateValues
some_values = record {
  prompt = some "tidy {{up}}";
  model = none;
  workspace = none;
  task_id = none;
  agent_id = none;
  directory_id = none;
}

render_answers_example :
    (r : Result String RenderError) × (render "do {{ prompt }}!" some_values ≡ some r)
    × Means some_values "do {{ prompt }}!" r
render_answers_example = render_answers some_values "do {{ prompt }}!"
