-- ===== src/Registry/Manifests.antt =====
-- Which manifests the checks of registry/validate.rs find nothing wrong with.
use opendaemon.Prelude.{
  String, Bool, true, false, ◌≡◌, refl, ◌↔◌, ◌⊎◌, inl, inr, List, [], All, Option, none, some,
  arith, is_none,
}
use opendaemon.Text.Names.{Filled, Names, New, is_in}
use opendaemon.Registry.{
  ProviderManifest, IntegrationType, AcpConfig, HttpConfig, cli, acp, http, native,
}
use opendaemon.Registry.Validate.{
  is_empty, is_absolute_command, has_command, has_endpoint, same_bool, acp_section, http_section,
  acp_errors, http_errors, acp_parts, http_parts, field_parts, validate_acp_fields,
  validate_http_fields, validate_manifest_fields,
}
use opendaemon.Registry.Checks.{
  Nothing, IsCommand, all_of_iff, push_if_iff, push_if-not_iff, push_if_unless_iff,
  push_duplicate_errors_iff, command_errors_iff, both_errors_iff, require_non_empty_iff,
  segments_iff,
}

-- exactly one of two
abbrev pub OneOf : Bool → Bool → Type 0
OneOf a b = ((a ≡ true) × (b ≡ false)) ⊎ ((a ≡ false) × (b ≡ true))

same_bool_iff : (a b : Bool) → (same_bool a b ≡ false) ↔ OneOf a b
same_bool_iff true b = (λ h. inl (refl, h), λ h. ground (arith, h))
same_bool_iff false b = (λ h. inr (refl, ground (arith, h)), λ h. ground (arith, h))

-- the section of an ACP provider: one way to start it, and clean lists
pub record IsAcp (a : AcpConfig) : Type 0 where
  pub startup : OneOf (has_command a.command) (has_endpoint a.endpoint)
  pub command : (c : List String) → a.command ≡ some c → All Filled c
  pub env_allowlist : Names a.env_allowlist

acp_errors_iff : (p : String) (a : AcpConfig) → Nothing (acp_errors p a) ↔ IsAcp a
acp_errors_iff p a = (
  λ h.
      let parts = (all_of_iff (acp_parts p a)).0 h in
      record {
        startup = (same_bool_iff _ _).0 ((push_if_iff _ _).0 parts.0);
        command = (segments_iff p a.command).0 parts.1.1.0;
        env_allowlist = (push_duplicate_errors_iff p _ _).0 parts.1.1.1.0;
      },
  λ v. (all_of_iff (acp_parts p a)).1 (
    (push_if_iff _ _).1 ((same_bool_iff _ _).1 v.startup),
    (
      (push_if_iff _ _).1 (ground (arith, v.startup)),
      (
        (segments_iff p a.command).1 v.command,
        ((push_duplicate_errors_iff p _ _).1 v.env_allowlist, tt),
      ),
    ),
  ),
)

-- the section is there just for an ACP provider
abbrev pub AcpSection : IntegrationType → Option AcpConfig → Type 0
AcpSection acp none = ⊥
AcpSection acp (some a) = IsAcp a
AcpSection cli o = is_none o ≡ true
AcpSection http o = is_none o ≡ true
AcpSection native o = is_none o ≡ true

acp_section_iff :
    (p : String) (t : IntegrationType) (o : Option AcpConfig)
    → Nothing (acp_section p t o) ↔ AcpSection t o
acp_section_iff p acp none = (λ h. absurd (cc), λ h. absurd h)
acp_section_iff p acp (some a) = acp_errors_iff p a
acp_section_iff p cli o = push_if-not_iff _ _
acp_section_iff p http o = push_if-not_iff _ _
acp_section_iff p native o = push_if-not_iff _ _

-- the section of an HTTP provider, which runs elsewhere
pub record IsHttp (m : ProviderManifest) (h : HttpConfig) : Type 0 where
  pub endpoint : Filled h.endpoint
  pub cancel : (h.supports_cancel ≡ false) ⊎ (has_endpoint h.cancel_endpoint ≡ true)
  pub remote : m.capabilities.remote_execution ≡ true
  pub not_local : m.security.runs_locally ≡ false

abbrev pub HttpSection : ProviderManifest → IntegrationType → Option HttpConfig → Type 0
HttpSection m http none = ⊥
HttpSection m http (some h) = IsHttp m h
HttpSection m cli o = is_none o ≡ true
HttpSection m acp o = is_none o ≡ true
HttpSection m native o = is_none o ≡ true

http_errors_iff : (m : ProviderManifest) (c : HttpConfig) → Nothing (http_errors m c) ↔ IsHttp m c
http_errors_iff m c = (
  λ h.
      let parts = (all_of_iff (http_parts m c)).0 h in
      record {
        endpoint = (push_if_iff _ _).0 parts.0;
        cancel = (push_if_unless_iff _ _ _).0 parts.1.0;
        remote = (push_if-not_iff _ _).0 parts.1.1.0;
        not_local = (push_if_iff _ _).0 parts.1.1.1.0;
      },
  λ v. (all_of_iff (http_parts m c)).1 (
    (push_if_iff _ _).1 v.endpoint,
    (
      (push_if_unless_iff _ _ _).1 v.cancel,
      ((push_if-not_iff _ _).1 v.remote, ((push_if_iff _ _).1 v.not_local, tt)),
    ),
  ),
)

http_section_iff :
    (m : ProviderManifest) (t : IntegrationType) (o : Option HttpConfig)
    → Nothing (http_section m t o) ↔ HttpSection m t o
http_section_iff m http none = (λ h. absurd (cc), λ h. absurd h)
http_section_iff m http (some h) = http_errors_iff m h
http_section_iff m cli o = push_if-not_iff _ _
http_section_iff m acp o = push_if-not_iff _ _
http_section_iff m native o = push_if-not_iff _ _

-- what a manifest has to be: its texts are filled, its lists hold no blank and no name twice, its
-- commands are not absolute paths, and its sections fit its kind
pub record IsManifest (m : ProviderManifest) : Type 0 where
  pub schema_version : Filled m.schema_version
  pub id : Filled m.id
  pub display_name : Filled m.display_name
  pub vendor_name : Filled m.vendor.name
  pub vendor_homepage : Filled m.vendor.homepage
  pub description : Filled m.description
  pub command : Filled m.execution.command
  pub default_model : Filled m.models.default
  pub some_detection : is_empty m.detect.commands ≡ false
  pub relative : is_absolute_command m.execution.command ≡ false
  pub detection : All IsCommand m.detect.commands
  pub default_supported : is_in m.models.supported m.models.default ≡ true
  pub models : Names m.models.supported
  pub required_names : Names m.environment.required
  pub optional_names : Names m.environment.optional
  pub permission_modes : Names m.permissions.provider_permission_modes
  pub disjoint : New m.environment.required m.environment.optional
  pub vendor_told :
      (m.capabilities.remote_execution ≡ false) ⊎ (m.security.sends_code_to_vendor ≡ true)
  pub acp_fields : AcpSection m.integration_type m.acp
  pub http_fields : HttpSection m m.integration_type m.http

-- The checks find nothing wrong with a manifest just when it is what it has to be.
pub validate_manifest_fields_iff :
    (m : ProviderManifest) → (validate_manifest_fields m ≡ []) ↔ IsManifest m
unfolding validate_manifest_fields validate_acp_fields validate_http_fields
validate_manifest_fields_iff m = (
  λ h.
      let parts = (all_of_iff (field_parts m)).0 h in
      record {
        schema_version = (require_non_empty_iff m.id "schema_version" m.schema_version).0 parts.0;
        id = (require_non_empty_iff m.id "id" m.id).0 parts.1.0;
        display_name = (require_non_empty_iff m.id "display_name" m.display_name).0 parts.1.1.0;
        vendor_name = (require_non_empty_iff m.id "vendor.name" m.vendor.name).0 parts.1.1.1.0;
        vendor_homepage =
            (require_non_empty_iff m.id "vendor.homepage" m.vendor.homepage).0 parts.1.1.1.1.0;
        description = (require_non_empty_iff m.id "description" m.description).0 parts.1.1.1.1.1.0;
        command =
            (require_non_empty_iff m.id "execution.command" m.execution.command).0
              parts.1.1.1.1.1.1.0;
        default_model =
            (require_non_empty_iff m.id "models.default" m.models.default).0 parts.1.1.1.1.1.1.1.0;
        some_detection = (push_if_iff _ _).0 parts.1.1.1.1.1.1.1.1.0;
        relative = (push_if_iff _ _).0 parts.1.1.1.1.1.1.1.1.1.0;
        detection = (command_errors_iff m.id 0 m.detect.commands).0 parts.1.1.1.1.1.1.1.1.1.1.0;
        default_supported = (push_if-not_iff _ _).0 parts.1.1.1.1.1.1.1.1.1.1.1.0;
        models =
            (push_duplicate_errors_iff m.id "models.supported" _).0 parts.1.1.1.1.1.1.1.1.1.1.1.1.0;
        required_names =
            (push_duplicate_errors_iff m.id "environment.required" _).0
              parts.1.1.1.1.1.1.1.1.1.1.1.1.1.0;
        optional_names =
            (push_duplicate_errors_iff m.id "environment.optional" _).0
              parts.1.1.1.1.1.1.1.1.1.1.1.1.1.1.0;
        permission_modes =
            (push_duplicate_errors_iff m.id "permissions.provider_permission_modes" _).0
              parts.1.1.1.1.1.1.1.1.1.1.1.1.1.1.1.0;
        disjoint = (both_errors_iff m.id _ _).0 parts.1.1.1.1.1.1.1.1.1.1.1.1.1.1.1.1.0;
        vendor_told = (push_if_unless_iff _ _ _).0 parts.1.1.1.1.1.1.1.1.1.1.1.1.1.1.1.1.1.0;
        acp_fields =
            (acp_section_iff m.id m.integration_type m.acp).0
              parts.1.1.1.1.1.1.1.1.1.1.1.1.1.1.1.1.1.1.0;
        http_fields =
            (http_section_iff m m.integration_type m.http).0
              parts.1.1.1.1.1.1.1.1.1.1.1.1.1.1.1.1.1.1.1.0;
      },
  λ v. (all_of_iff (field_parts m)).1 (
    (require_non_empty_iff m.id "schema_version" m.schema_version).1 v.schema_version,
    (
      (require_non_empty_iff m.id "id" m.id).1 v.id,
      (
        (require_non_empty_iff m.id "display_name" m.display_name).1 v.display_name,
        (
          (require_non_empty_iff m.id "vendor.name" m.vendor.name).1 v.vendor_name,
          (
            (require_non_empty_iff m.id "vendor.homepage" m.vendor.homepage).1 v.vendor_homepage,
            (
              (require_non_empty_iff m.id "description" m.description).1 v.description,
              (
                (require_non_empty_iff m.id "execution.command" m.execution.command).1 v.command,
                (
                  (require_non_empty_iff m.id "models.default" m.models.default).1 v.default_model,
                  (
                    (push_if_iff _ _).1 v.some_detection,
                    (
                      (push_if_iff _ _).1 v.relative,
                      (
                        (command_errors_iff m.id 0 m.detect.commands).1 v.detection,
                        (
                          (push_if-not_iff _ _).1 v.default_supported,
                          (
                            (push_duplicate_errors_iff m.id "models.supported" _).1 v.models,
                            (
                              (push_duplicate_errors_iff m.id "environment.required" _).1
                                  v.required_names,
                              (
                                (push_duplicate_errors_iff m.id "environment.optional" _).1
                                    v.optional_names,
                                (
                                  (push_duplicate_errors_iff m.id
                                        "permissions.provider_permission_modes" _).1
                                      v.permission_modes,
                                  (
                                    (both_errors_iff m.id _ _).1 v.disjoint,
                                    (
                                      (push_if_unless_iff _ _ _).1 v.vendor_told,
                                      (
                                        (acp_section_iff m.id m.integration_type m.acp).1
                                            v.acp_fields,
                                        (
                                          (http_section_iff m m.integration_type m.http).1
                                              v.http_fields,
                                          tt,
                                        ),
                                      ),
                                    ),
                                  ),
                                ),
                              ),
                            ),
                          ),
                        ),
                      ),
                    ),
                  ),
                ),
              ),
            ),
          ),
        ),
      ),
    ),
  ),
)
