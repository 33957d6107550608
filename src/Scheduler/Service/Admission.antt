-- ===== src/Scheduler/Service/Admission.antt =====
-- What `enqueue_task` of scheduler/service.rs lets in.
use opendaemon.Prelude.{
  String, Bool, true, false, not, ◌&&◌, ◌≡◌, refl, sym, subst, ◌∙◌, ◌⊎◌, Option, some, str_eq,
  eq_iff, ok, arith,
}
use mathlib.Core.Option.{some-injective}
use opendaemon.Security.{DirectoryGrant, WorkspaceMode, worktree, is_direct, lacks_one}
use opendaemon.Security.Authorize.{Permits}
use opendaemon.Agent.{AgentProfile}
use opendaemon.Task.Model
use opendaemon.Task.Model.{Task, TaskStatus, CreateTask, required_capabilities}
use opendaemon.Store.World.{Db}
use opendaemon.Store.Exec.{lift}
use opendaemon.Store.Logic.{Reads, Ensures, Ensures-read, Ensures-weaken, Reads-lift, Reads-map_err}
use opendaemon.Store.Logic.Writes.{Ensures-map_err}
use opendaemon.Store.Rows.{task_by_id}
use opendaemon.Store.Tasks.Effects.{Created, create_effect, next_task_id, created_rows}
use opendaemon.Store.Tasks.Rows.{created_task, created_task_found}
use opendaemon.Store.Grants
use opendaemon.Store.Grants.{grant_by_id}
use opendaemon.Store.Grants.Effects
use opendaemon.Store.Profiles
use opendaemon.Store.Profiles.{profile_by_id, overrides, Agrees, Agrees-overrides}
use opendaemon.Scheduler.Errors.{
  TaskValidationError, provider_override_not_allowed, model_override_not_allowed,
  permission_mode_override_not_allowed, map_model_error, map_agent_error, map_directory_error,
  from_store_error,
}
use opendaemon.Scheduler.Service.{
  unless, select_workspace_mode, map_override_error, request_of, filled, enqueue_task,
}

-- why a task was let in: its grant, its profile and the mode in which it will run
pub record Admitted (input : CreateTask) (d : Db) : Type 0 where
  pub grant : DirectoryGrant
  pub profile : AgentProfile
  pub mode : WorkspaceMode
  pub valid : Model.validate input ≡ ok tt
  pub grant_found : grant_by_id input.directory_id d ≡ some grant
  pub profile_found : profile_by_id input.agent_id d ≡ some profile
  pub chosen :
      select_workspace_mode input.workspace_mode grant input.direct_mode_task_opt_in ≡ ok mode
  pub owner : profile.owner_product_id ≡ input.owner_product_id
  pub provider : Agrees input.provider_id profile.provider_id
  pub model : Agrees input.model profile.model
  pub permission_mode : Agrees input.permission_mode profile.provider_config.permission_mode
  pub direct_mode : (mode ≡ worktree) ⊎ (profile.execution_policy.allow_direct_directory ≡ true)
  pub permits : Permits grant (request_of input mode)

pub Reads-unless : (b : Bool) (e : TaskValidationError) → Reads (λ _ _. b ≡ false) (unless b e)
unfolding unless
Reads-unless true e = record { same = λ w. refl; returns = λ w a h. cc }
Reads-unless false e = record { same = λ w. refl; returns = λ w a h. refl }

map_override_error-eq-ok :
    (requested : Option String) (actual : String) (kind : TaskValidationError)
    → map_override_error requested actual kind ≡ ok tt
    → Agrees requested actual
unfolding map_override_error
map_override_error-eq-ok requested actual kind h = Agrees-overrides requested actual (ground arith)

Reads-override :
    (requested : Option String) (actual : String) (kind : TaskValidationError)
    → Reads
        (λ _ u. map_override_error requested actual kind ≡ ok u)
        (lift (map_override_error requested actual kind))
Reads-override requested actual kind = Reads-lift (map_override_error requested actual kind)

-- the checks that have been passed when the task is created
abbrev Checks :
    CreateTask → Db → DirectoryGrant → WorkspaceMode → AgentProfile → DirectoryGrant → Type 0
Checks input d grant mode profile again =
    ((((((((((Unit {0} × (Model.validate input ≡ ok tt))
                      × (grant_by_id input.directory_id d ≡ some grant))
                    × (select_workspace_mode input.workspace_mode grant
                          input.direct_mode_task_opt_in
                        ≡ ok mode))
                  × (profile_by_id input.agent_id d ≡ some profile))
                × (not (str_eq profile.owner_product_id input.owner_product_id) ≡ false))
              × (map_override_error input.provider_id profile.provider_id
                    provider_override_not_allowed
                  ≡ ok tt))
            × (map_override_error input.model profile.model model_override_not_allowed ≡ ok tt))
          × (map_override_error input.permission_mode profile.provider_config.permission_mode
                permission_mode_override_not_allowed
              ≡ ok tt))
        × ((is_direct mode && not profile.execution_policy.allow_direct_directory) ≡ false))
      × (lacks_one grant (required_capabilities input) ≡ false))
    × ((grant_by_id input.directory_id d ≡ some again) × Permits again (request_of input mode))

admit :
    (input : CreateTask) (d : Db) (grant : DirectoryGrant) (mode : WorkspaceMode)
    (profile : AgentProfile) (again : DirectoryGrant)
    → Checks input d grant mode profile again
    → Admitted input d
admit input d grant mode profile again
      (
        (
          (
            (
              (((((((_, valid), found), chosen), profile_found), owner), provider), model),
              permission,
            ),
            direct_ok,
          ),
          _,
        ),
        (found', permits),
      ) =
    record {
      grant = grant;
      profile = profile;
      mode = mode;
      valid = valid;
      grant_found = found;
      profile_found = profile_found;
      chosen = chosen;
      owner = ground (arith, eq_iff profile.owner_product_id input.owner_product_id);
      provider = map_override_error-eq-ok input.provider_id profile.provider_id _ provider;
      model = map_override_error-eq-ok input.model profile.model _ model;
      permission_mode =
          map_override_error-eq-ok input.permission_mode profile.provider_config.permission_mode _
            permission;
      direct_mode = ground arith;
      permits =
          subst (λ g. Permits g (request_of input mode))
            (some-injective again grant (sym found' ∙ found)) permits;
    }

returned :
    (input : CreateTask) (now : String) (d d' : Db) (t : Task)
    → created_rows input now d ≡ some d'
    → task_by_id (next_task_id d) d' ≡ some t
    → t ≡ created_task input now d
returned input now d d' t rows found =
    some-injective t (created_task input now d) (sym found ∙ created_task_found input now d d' rows)

-- A task that `enqueue_task` stores was let in: it is valid, its profile and grant exist and are
-- its owner's, its overrides agree with the profile, and the grant permits its capabilities, its
-- mode and its remote execution. What is stored is the request with its mode and its profile's
-- settings filled in, queued under the next id, and what is returned is that row. Where it fails,
-- nothing is stored, or (the failure being in reading the row back) such a task is.
pub enqueue_task_effect :
    (input : CreateTask)
    → Ensures
        (λ _. Unit)
        (λ d t d'.
          (a : Admitted input d) × (now : String) × (t
            ≡ created_task (filled input a.mode a.profile) now d)
          × (created_rows (filled input a.mode a.profile) now d ≡ some d'))
        (λ d d'. (a : Admitted input d) × Created (filled input a.mode a.profile) d d')
        (enqueue_task input)
unfolding enqueue_task request_of admit
enqueue_task_effect input =
    Ensures-read {Pre = λ _. Unit} _ _
      (Reads-map_err map_model_error _ (Reads-lift (Model.validate input)))
      λ u.
        Ensures-read _ _
          (Reads-map_err map_directory_error _ (Grants.Effects.Reads-get input.directory_id))
          λ grant.
            Ensures-read _ _
              (Reads-lift
                (select_workspace_mode input.workspace_mode grant input.direct_mode_task_opt_in))
              λ mode.
                Ensures-read _ _
                  (Reads-map_err map_agent_error _ (Profiles.Reads-get input.agent_id))
                  λ profile. Ensures-read _ _ (Reads-unless _ _) λ _.
                    Ensures-read _ _ (Reads-override input.provider_id profile.provider_id _) λ _.
                      Ensures-read _ _ (Reads-override input.model profile.model _) λ _.
                        Ensures-read _ _
                          (Reads-override input.permission_mode
                            profile.provider_config.permission_mode _)
                          λ _. Ensures-read _ _ (Reads-unless _ _) λ _.
                            Ensures-read _ _ (Reads-unless _ _) λ _.
                              Ensures-read _ _
                                (Reads-map_err map_directory_error _
                                  (Grants.Effects.Reads-authorize (request_of input mode)))
                                λ again.
                                  Ensures-weaken _ (λ d q. tt)
                                    (λ d t d' q h. (
                                      admit input d grant mode profile again q,
                                      h.0.0,
                                      returned (filled input mode profile) h.0.0 d d' t h.0.2 h.1,
                                      h.0.2,
                                    ))
                                    (λ d d' q h. (admit input d grant mode profile again q, h))
                                    (Ensures-map_err from_store_error _
                                      (create_effect (filled input mode profile)))
