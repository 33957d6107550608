-- ===== src/Scheduler/Execution/Start.antt =====
-- In which state a runtime is started, and what a run of `execute_task` leaves.
use opendaemon.Prelude.{
  ℕ, String, Bool, true, false, ◌≡◌, ◌≢◌, refl, sym, subst, ap, ◌∙◌, List, Option, none, some,
  Result, ok, err, arith,
}
use mathlib.Core.Option.{some-injective}
use opendaemon.Json.{empty_object}
use opendaemon.Registry
use opendaemon.Registry.{ProviderRegistry, ProviderEntry, IntegrationType}
use opendaemon.Runtime.{RuntimeView, runtime_available}
use opendaemon.Task.Model.{Task, TaskStatus, is_terminal}
use opendaemon.Scheduler.Locks.{LockDecision, from_task}
use opendaemon.Scheduler.Errors.{from_store_error}
use opendaemon.Scheduler.Service.{Preparer, prepare_workspace, mark_running}
use opendaemon.Scheduler.Service.Allocation.{Allocated, try_acquire_directory_lock_effect}
use opendaemon.Store.World.{World, Db}
use opendaemon.Store.Exec.{map_err}
use opendaemon.Store.Logic.{
  Reads, Ensures, Reads-bind, Reads-map_err, Reads-lift, Reads-required, Reads-pure, Reads-weaken,
  Ensures-weaken, Ensures-of_Reads, Ensures-ok,
}
use opendaemon.Store.Logic.Writes.{Ensures-bind, Ensures-map_err, Ensures-any, bind-eq-ok}
use opendaemon.Store.Rows.{task_by_id}
use opendaemon.Store.Tasks.Reading.{Reads-get}
use opendaemon.Store.Tasks.Moves.{transition_effect}
use opendaemon.Store.Grants
use opendaemon.Store.Grants.{grant_by_id}
use opendaemon.Store.Grants.Effects
use opendaemon.Store.Profiles
use opendaemon.Store.Profiles.{profile_by_id}
use opendaemon.Scheduler.Execution.{
  RuntimeExecutionOutcome, PreparedWorkspace, ExecutionError, runtime_unavailable, from_store,
}
use opendaemon.Scheduler.Execution.Outcome.{
  Persisted, persist_outcome_effect, status_of_Transitioned,
}
use opendaemon.Scheduler.Execution.Running.{
  RuntimeAdapter, AdapterSelector, for_manifest, map_agent_store, map_directory_store,
  refuse_terminal, usable, proceed, loaded, Plan, plan, request, Started, begun, start, run_adapter,
  finish, execute_task,
}

Reads-refuse_terminal : (b : Bool) → Reads (λ _ _. b ≡ false) (refuse_terminal b)
unfolding refuse_terminal
Reads-refuse_terminal true = record { same = λ w. refl; returns = λ w a h. cc }
Reads-refuse_terminal false = record { same = λ w. refl; returns = λ w a h. refl }

Reads-proceed : (x : LockDecision) → Reads (λ _ _. x ≢ LockDecision.waiting) (proceed x)
unfolding proceed
Reads-proceed LockDecision.acquired = record { same = λ w. refl; returns = λ w a h e. cc }
Reads-proceed LockDecision.not_required = record { same = λ w. refl; returns = λ w a h e. cc }
Reads-proceed LockDecision.waiting = record { same = λ w. refl; returns = λ w a h. absurd (cc) }

ok_injective :
    (a b : RuntimeExecutionOutcome)
    → ◌≡◌ {A = Result RuntimeExecutionOutcome ExecutionError} (ok a) (ok b)
    → a ≡ b
ok_injective a b q = cc

usable-eq-some :
    (t : IntegrationType) (o : Option RuntimeView) (v : RuntimeView)
    → usable t o ≡ some v
    → (o ≡ some v) × (runtime_available v t ≡ true)
usable-eq-some t none v h = absurd (cc)
usable-eq-some t (some u) v h = ground (arith, h)

module _ {Error : Type 0} (registry : Result ProviderRegistry (List String))
    (runtimes : String → Option RuntimeView) (prepare : Preparer PreparedWorkspace Error)
    (adapters : AdapterSelector) (max : ℕ) (allow_env : Bool) (task_id : String) where
  -- what was found before the task took its lock: the task has not ended, its profile and its grant
  -- exist, and the provider is in the registry and has a runtime that is available for its kind
  pub record Planned (d : Db) (p : Plan registry runtimes prepare adapters max allow_env)
      : Type 0 where
    pub task_found : task_by_id task_id d ≡ some p.task
    pub not_ended : is_terminal p.task.status ≡ false
    pub profile_found : profile_by_id p.task.agent_id d ≡ some p.profile
    pub grant_found : grant_by_id p.task.directory_id d ≡ some p.grant
    pub providers : ProviderRegistry
    pub registry_loaded : registry ≡ ok providers
    pub provider_found : Registry.get providers p.profile.provider_id ≡ some p.entry
    pub runtime_found : runtimes p.profile.provider_id ≡ some p.runtime
    pub runtime_ready : runtime_available p.runtime p.entry.manifest.integration_type ≡ true
    pub executable_found : p.runtime.executable ≡ some p.executable

  loaded-eq-ok :
      (r : ProviderRegistry)
      → loaded registry runtimes prepare adapters max allow_env ≡ ok r
      → registry ≡ ok r
  loaded-eq-ok r h = go registry h
    where
      go :
          (x : Result ProviderRegistry (List String))
          → loaded x runtimes prepare adapters max allow_env ≡ ok r
          → x ≡ ok r
      go (ok s) q = cc
      go (err e) q = absurd (cc)

  Reads-plan : Reads Planned (plan registry runtimes prepare adapters max allow_env task_id)
  unfolding plan
  Reads-plan =
      Reads-weaken _
        (λ d p h.
          let (
            task,
            found,
            (u, live, (profile, pf, (grant, gf, (r, rl, (entry, ef, (runtime, rf, (x, xf, e))))))),
          ) =
            h in
          let (seen, ready) =
            usable-eq-some entry.manifest.integration_type (runtimes profile.provider_id) runtime
              rf in
          subst (Planned d) (sym e) (record {
            task_found = found;
            not_ended = live;
            profile_found = pf;
            grant_found = gf;
            providers = r;
            registry_loaded = loaded-eq-ok r rl;
            provider_found = ef;
            runtime_found = seen;
            runtime_ready = ready;
            executable_found = xf;
          }))
        (Reads-bind _ _ (Reads-map_err from_store _ (Reads-get task_id)) λ task.
          Reads-bind _ _ (Reads-refuse_terminal (is_terminal task.status)) λ u.
            Reads-bind _ _ (Reads-map_err map_agent_store _ (Profiles.Reads-get task.agent_id))
              λ profile.
                Reads-bind _ _
                  (Reads-map_err map_directory_store _ (Grants.Effects.Reads-get task.directory_id))
                  λ grant.
                    Reads-bind _ _
                      (Reads-lift (loaded registry runtimes prepare adapters max allow_env))
                      λ r.
                        Reads-bind _ _
                          (Reads-required runtime_unavailable (Registry.get r profile.provider_id))
                          λ entry.
                            Reads-bind _ _
                              (Reads-required runtime_unavailable (
                                usable entry.manifest.integration_type
                                  (runtimes profile.provider_id)))
                              λ runtime.
                                Reads-bind _ _
                                  (Reads-required runtime_unavailable runtime.executable)
                                  λ executable. Reads-pure _)

  -- the state in which the adapter is called: the lock was not refused, and the task runs
  pub record Running (p : Plan registry runtimes prepare adapters max allow_env) (d : Db)
      (s : Started registry runtimes prepare adapters max allow_env) (d' : Db) : Type 0 where
    pub same_plan : s.plan ≡ p
    pub decision : LockDecision
    pub locked : Db
    pub allocated : Allocated max (from_task p.task) d decision locked
    pub not_waiting : decision ≢ LockDecision.waiting
    pub running : s.current.status ≡ TaskStatus.running
    pub current_found : task_by_id task_id d' ≡ some s.current
    pub chosen : for_manifest adapters p.entry.manifest.integration_type ≡ ok s.adapter

  -- the part after the task was set to run
  Tail :
      Plan registry runtimes prepare adapters max allow_env
      → PreparedWorkspace
      → Db
      → Started registry runtimes prepare adapters max allow_env
      → Type 0
  Tail p workspace d s =
      (adapter : RuntimeAdapter) × (for_manifest adapters p.entry.manifest.integration_type
        ≡ ok adapter)
      × ((current : Task) × (task_by_id task_id d ≡ some current)
          × (s
              ≡ begun registry runtimes prepare adapters max allow_env p adapter workspace current))

  Ensures-start :
      (p : Plan registry runtimes prepare adapters max allow_env)
      → Ensures
          (λ _. Unit)
          (Running p)
          (λ _ _. Unit)
          (start registry runtimes prepare adapters max allow_env task_id p)
  unfolding start mark_running Tail
  Ensures-start p =
      Ensures-weaken {Pre = λ _. Unit} _ (λ d q. tt)
        (λ d s d' q h.
          let (
            decision,
            d1,
            allocated,
            (
              u,
              d2,
              (same, not_waiting),
              (workspace, d3, any, (t, d4, moved, (same', (adapter, chosen, (current, found, e))))),
            ),
          ) =
            h in
          let (t_found, t_running) =
            status_of_Transitioned task_id TaskStatus.running empty_object d3 t d4 moved in
          subst (λ x. Running p d x d') (sym e)
            (record {
              same_plan = refl;
              decision = decision;
              locked = d1;
              allocated = allocated;
              not_waiting = not_waiting;
              running =
                  ap (λ (x : Task). x.status) (some-injective current t (sym found ∙ t_found))
                  ∙ t_running;
              current_found = ap (task_by_id task_id) same' ∙ found;
              chosen = chosen;
            }))
        (λ d d' q h. tt)
        (Ensures-bind _ _
          (Ensures-map_err ExecutionError.task _
            (try_acquire_directory_lock_effect max (from_task p.task)))
          λ decision.
            Ensures-bind {Pre = λ _. Unit} {T = λ _ _. Unit} (proceed decision) _
              (Ensures-of_Reads _ (Reads-proceed decision))
              λ u.
                Ensures-bind {Pre = λ _. Unit} _ _
                  (Ensures-any (map_err ExecutionError.task (prepare_workspace task_id prepare)))
                  λ workspace.
                    Ensures-bind {Pre = λ _. Unit} _ _
                      (Ensures-map_err ExecutionError.task _ (
                        Ensures-map_err from_store_error _
                          (transition_effect task_id TaskStatus.running none)))
                      λ t. Ensures-of_Reads {Q = Tail p workspace} {T = λ _ _. Unit} _ (
                        Reads-bind _ _
                          (Reads-lift (for_manifest adapters p.entry.manifest.integration_type))
                          λ adapter.
                            Reads-bind _ _ (Reads-map_err from_store _ (Reads-get task_id))
                              λ current. Reads-pure _))

  -- a run that returned a task: the plan, the start, the adapter's outcome and what was kept of it
  pub record Executed (w : World) (t : Task) : Type 0 where
    pub before : Plan registry runtimes prepare adapters max allow_env
    pub started : Started registry runtimes prepare adapters max allow_env
    pub called : World
    pub outcome : RuntimeExecutionOutcome
    pub planned : Planned w.db before
    pub running : Running before w.db started called.db
    pub answered :
        (started.adapter.execute
          (request registry runtimes prepare adapters max allow_env task_id started.plan
            started.workspace started.current)
          called).0
        ≡ outcome
    pub persisted :
        Persisted task_id outcome started.workspace t
          (execute_task registry runtimes prepare adapters max allow_env task_id w).1.db

  -- Where `execute_task` returns a task: it had not ended, its provider was in the registry and had a
  -- runtime that was available for the provider's kind; the lock was not refused; the adapter of that
  -- kind was called while the task was running; and the task that is returned is its row, with the
  -- status and the result of what that adapter answered.
  pub execute_task_effect :
      (w : World) (t : Task)
      → (execute_task registry runtimes prepare adapters max allow_env task_id w).0 ≡ ok t
      → Executed w t
  unfolding execute_task finish
  execute_task_effect w t h =
      let (p, planned, h1, end1) =
        bind-eq-ok (plan registry runtimes prepare adapters max allow_env task_id) _ w t h in
      let (s, started, h2, end2) =
        bind-eq-ok (start registry runtimes prepare adapters max allow_env task_id p) _ _ t h1 in
      let (outcome, answer, h3, end3) =
        bind-eq-ok (run_adapter registry runtimes prepare adapters max allow_env task_id s) _ _ t
          h2 in
      record {
        before = p;
        started = s;
        called =
            (start registry runtimes prepare adapters max allow_env task_id p
              (plan registry runtimes prepare adapters max allow_env task_id w).1).1;
        outcome = outcome;
        planned = Reads-plan.returns w p planned;
        running =
            subst
              (λ d.
                Running p d s
                  (start registry runtimes prepare adapters max allow_env task_id p
                    (plan registry runtimes prepare adapters max allow_env task_id w).1).1.db)
              (Reads-plan.same w) (Ensures-ok _ (Ensures-start p) _ s tt started);
        answered = ok_injective _ outcome answer;
        persisted =
            subst (λ x. Persisted task_id outcome s.workspace t x.db) (sym (end1 ∙ end2 ∙ end3))
              (Ensures-ok _ (persist_outcome_effect task_id outcome s.workspace) _ t tt h3);
      }
