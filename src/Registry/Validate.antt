-- ===== src/Registry/Validate.antt =====
-- registry/validate.rs: the list of what is wrong with a manifest.
use Prim.Native.String.{◌++◌ as concat}
use opendaemon.Prelude.{
  ℕ, ◌+◌, String, Bool, true, false, not, ◌&&◌, ◌||◌, List, [], ◌∷◌, ◌++◌, Option, none, some,
  str_eq, is_none, if◌then◌else◌,
}
use opendaemon.Text.{is_blank, trim, begins_with, has_drive}
use opendaemon.Text.Decimal.{show}
use opendaemon.Text.Names.{is_in}
use opendaemon.Registry.{
  ProviderManifest, ProviderEntry, IntegrationType, AcpConfig, HttpConfig, cli, acp, http, native,
}

abbrev pub is_empty : {A : Type 0} → List A → Bool
is_empty [] = true
is_empty (x ∷ xs) = false

-- `errors` after all that is pushed on it, part by part
abbrev pub all_of : List (List String) → List String
all_of [] = []
all_of (es ∷ ess) = es ++ all_of ess

-- `format!("provider {provider}: …")`
abbrev pub problem : String → String → String
problem provider text = concat "provider " (concat provider (concat ": " text))

-- `if test { errors.push(…) }`
unfoldable pub push_if : Bool → String → List String
push_if true e = e ∷ []
push_if false e = []

unfoldable pub require_non_empty : String → String → String → List String
require_non_empty provider field value =
    push_if (is_blank value) (problem provider (concat field " must not be empty"))

-- the loop of `push_duplicate_errors`, `seen` being the values that came before
abbrev pub duplicate_errors : String → String → List String → List String → List String
duplicate_errors provider field seen [] = []
duplicate_errors provider field seen (v ∷ vs) =
    push_if (is_blank v) (problem provider (concat field " must not contain empty values"))
    ++ (push_if (is_in seen v)
          (problem provider (concat field (concat " contains duplicate value " v)))
        ++ duplicate_errors provider field (v ∷ seen) vs)

unfoldable pub push_duplicate_errors : String → String → List String → List String
push_duplicate_errors provider field values = duplicate_errors provider field [] values

unfoldable pub is_absolute_command : String → Bool
unfolding trim
is_absolute_command command =
    begins_with 47 (trim command) || begins_with 92 (trim command) || has_drive (trim command)

abbrev pub at_index : String → ℕ → String → String
at_index field i text = concat field (concat "[" (concat (show i) (concat "]" text)))

-- the loop over `detect.commands`, from the index `i` on
abbrev pub command_errors : String → ℕ → List String → List String
command_errors provider i [] = []
command_errors provider i (c ∷ cs) =
    push_if (is_blank c) (problem provider (at_index "detect.commands" i " must not be empty"))
    ++ (push_if (is_absolute_command c)
          (problem provider (at_index "detect.commands" i " must not be an absolute path"))
        ++ command_errors provider (i + 1) cs)

-- the loop over `acp.command`
abbrev pub segment_errors : String → ℕ → List String → List String
segment_errors provider i [] = []
segment_errors provider i (s ∷ ss) =
    push_if (is_blank s) (problem provider (at_index "acp.command" i " must not be empty"))
    ++ segment_errors provider (i + 1) ss

-- the loop over `environment.optional`
abbrev pub both_errors : String → List String → List String → List String
both_errors provider required [] = []
both_errors provider required (n ∷ ns) =
    push_if (is_in required n) (
      problem provider
        (concat "environment variable " (concat n " appears in both required and optional")))
    ++ both_errors provider required ns

-- `command.is_some_and(|command| !command.is_empty())`, and the same of the endpoint
abbrev pub has_command : Option (List String) → Bool
has_command none = false
has_command (some c) = not (is_empty c)

abbrev pub has_endpoint : Option String → Bool
has_endpoint none = false
has_endpoint (some e) = not (is_blank e)

abbrev pub same_bool : Bool → Bool → Bool
same_bool true b = b
same_bool false b = not b

abbrev pub segments : String → Option (List String) → List String
segments provider none = []
segments provider (some command) = segment_errors provider 0 command

abbrev pub acp_parts : String → AcpConfig → List (List String)
acp_parts provider a =
    push_if (same_bool (has_command a.command) (has_endpoint a.endpoint)) (
      problem provider "exactly one startup mode must be configured in acp.command or acp.endpoint")
    ∷ push_if (not (has_command a.command) && not (has_endpoint a.endpoint))
        (problem provider "acp.command or acp.endpoint must be configured")
    ∷ segments provider a.command
    ∷ push_duplicate_errors provider "acp.env_allowlist" a.env_allowlist
    ∷ []

abbrev pub acp_errors : String → AcpConfig → List String
acp_errors provider a = all_of (acp_parts provider a)

-- `validate_acp_fields`
abbrev pub acp_section : String → IntegrationType → Option AcpConfig → List String
acp_section provider acp none = problem provider "acp section is required for acp integration" ∷ []
acp_section provider acp (some a) = acp_errors provider a
acp_section provider cli o =
    push_if (not (is_none o)) (problem provider "acp section is only allowed for acp integration")
acp_section provider http o =
    push_if (not (is_none o)) (problem provider "acp section is only allowed for acp integration")
acp_section provider native o =
    push_if (not (is_none o)) (problem provider "acp section is only allowed for acp integration")

unfoldable pub validate_acp_fields : ProviderManifest → List String
unfolding push_duplicate_errors
validate_acp_fields m = acp_section m.id m.integration_type m.acp

abbrev pub http_parts : ProviderManifest → HttpConfig → List (List String)
http_parts m h =
    push_if (is_blank h.endpoint) (problem m.id "http.endpoint must not be empty")
    ∷ push_if (h.supports_cancel && not (has_endpoint h.cancel_endpoint))
        (problem m.id "http.cancel_endpoint is required when supports_cancel is true")
    ∷ push_if (not m.capabilities.remote_execution)
        (problem m.id "http integration requires capabilities.remote_execution")
    ∷ push_if m.security.runs_locally
        (problem m.id "http integration requires security.runs_locally = false")
    ∷ []

abbrev pub http_errors : ProviderManifest → HttpConfig → List String
http_errors m h = all_of (http_parts m h)

abbrev pub http_section : ProviderManifest → IntegrationType → Option HttpConfig → List String
http_section m http none = problem m.id "http section is required for http integration" ∷ []
http_section m http (some h) = http_errors m h
http_section m cli o =
    push_if (not (is_none o)) (problem m.id "http section is only allowed for http integration")
http_section m acp o =
    push_if (not (is_none o)) (problem m.id "http section is only allowed for http integration")
http_section m native o =
    push_if (not (is_none o)) (problem m.id "http section is only allowed for http integration")

unfoldable pub validate_http_fields : ProviderManifest → List String
validate_http_fields m = http_section m m.integration_type m.http

abbrev pub field_parts : ProviderManifest → List (List String)
field_parts m =
    require_non_empty m.id "schema_version" m.schema_version
    ∷ require_non_empty m.id "id" m.id
    ∷ require_non_empty m.id "display_name" m.display_name
    ∷ require_non_empty m.id "vendor.name" m.vendor.name
    ∷ require_non_empty m.id "vendor.homepage" m.vendor.homepage
    ∷ require_non_empty m.id "description" m.description
    ∷ require_non_empty m.id "execution.command" m.execution.command
    ∷ require_non_empty m.id "models.default" m.models.default
    ∷ push_if (is_empty m.detect.commands) (problem m.id "detect.commands must not be empty")
    ∷ push_if (is_absolute_command m.execution.command)
        (problem m.id "execution.command must not be an absolute path")
    ∷ command_errors m.id 0 m.detect.commands
    ∷ push_if (not (is_in m.models.supported m.models.default))
        (problem m.id "models.default must be present in models.supported")
    ∷ push_duplicate_errors m.id "models.supported" m.models.supported
    ∷ push_duplicate_errors m.id "environment.required" m.environment.required
    ∷ push_duplicate_errors m.id "environment.optional" m.environment.optional
    ∷ push_duplicate_errors m.id "permissions.provider_permission_modes"
        m.permissions.provider_permission_modes
    ∷ both_errors m.id m.environment.required m.environment.optional
    ∷ push_if (m.capabilities.remote_execution && not m.security.sends_code_to_vendor)
        (problem m.id "remote_execution requires security.sends_code_to_vendor")
    ∷ validate_acp_fields m
    ∷ validate_http_fields m
    ∷ []

unfoldable pub validate_manifest_fields : ProviderManifest → List String
unfolding require_non_empty push_duplicate_errors is_absolute_command validate_acp_fields
    validate_http_fields
validate_manifest_fields m = all_of (field_parts m)

abbrev pub entry_parts : String → String → (String → Bool) → ProviderManifest → List (List String)
entry_parts directory_name directory is_file m =
    push_if (not (str_eq m.id directory_name))
      (problem m.id (concat "manifest id does not match directory name " directory_name))
    ∷ push_if (not (is_file "README.md")) (
        problem m.id
          (concat "required file missing at " (concat directory (concat "/" "README.md"))))
    ∷ push_if (not (is_file "examples/basic.task.json")) (
        problem m.id (
          concat "required file missing at "
            (concat directory (concat "/" "examples/basic.task.json"))))
    ∷ validate_manifest_fields m
    ∷ []

-- `validate_manifest_entry`; `is_file` is `Path::is_file` of a path in the provider's directory
unfoldable pub validate_manifest_entry :
    String → String → (String → Bool) → ProviderManifest → List String
unfolding validate_manifest_fields
validate_manifest_entry directory_name directory is_file m =
    all_of (entry_parts directory_name directory is_file m)

-- `HashMap::insert` of an id with its path, and the path that it replaces
abbrev pub last_path : String → List ProviderEntry → Option String
last_path id [] = none
last_path id (e ∷ es) =
    let rest = last_path id es in if str_eq e.manifest.id id then some e.manifest_path else rest

abbrev pub duplicate_id : ProviderEntry → Option String → List String
duplicate_id e none = []
duplicate_id e (some path) =
    problem e.manifest.id
      (concat "duplicate provider id in " (concat path (concat " and " e.manifest_path)))
    ∷ []

-- the loop of `validate_registry_entries`, `seen` being the entries that came before, latest first
abbrev pub id_errors : List ProviderEntry → List ProviderEntry → List String
id_errors seen [] = []
id_errors seen (e ∷ es) = duplicate_id e (last_path e.manifest.id seen) ++ id_errors (e ∷ seen) es

unfoldable pub validate_registry_entries : List ProviderEntry → List String
validate_registry_entries entries = id_errors [] entries
