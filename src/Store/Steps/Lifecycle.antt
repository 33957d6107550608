-- ===== src/Store/Steps/Lifecycle.antt =====
-- The life of a task's row: its status follows the diagram of task/state.rs, and what was asked
-- for when the task was created never changes.
use opendaemon.Prelude.{
  String, Bool, true, false, ◌≡◌, refl, sym, subst, ap, ◌∙◌, some, none, List, [], ◌∷◌, find,
  if◌then◌else◌, update_where, find-append_of_some, find_passes, Bool-cases, inl, inr, arith,
  str_eq, eq_iff,
}
use opendaemon.Json.{Value}
use opendaemon.Task.Model.{Task, TaskStatus, TaskResult, CreateTask, is_terminal}
use opendaemon.Task.State.{
  ◌⟶◌, ◌⟶*◌, here, then_, wait, prepare, run, complete, time_out, fail_preparing, fail_running,
  cancel,
}
use opendaemon.Store.World.{Db}
use opendaemon.Store.Rows.{
  has_id, task_by_id, set_status, update_result, replace_lock, release_held,
}
use opendaemon.Store.Tasks.Moves.{Moved}
use opendaemon.Store.Tasks.Effects.{Created}
use opendaemon.Store.Tasks.Rows.{created_rows_lem}
use opendaemon.Store.Steps.{
  Step, Steps, create, move, append, request, decide, acquire, release, save, none, more,
}

-- the columns that are written once
pub record SameRequest (t u : Task) : Type 0 where
  pub id : t.id ≡ u.id
  pub owner_product_id : t.owner_product_id ≡ u.owner_product_id
  pub agent_id : t.agent_id ≡ u.agent_id
  pub directory_id : t.directory_id ≡ u.directory_id
  pub required_capabilities : t.required_capabilities ≡ u.required_capabilities
  pub workspace_mode : t.workspace_mode ≡ u.workspace_mode
  pub direct_mode_task_opt_in : t.direct_mode_task_opt_in ≡ u.direct_mode_task_opt_in
  pub prompt : t.prompt ≡ u.prompt
  pub metadata : t.metadata ≡ u.metadata
  pub provider_id : t.provider_id ≡ u.provider_id
  pub model : t.model ≡ u.model
  pub permission_mode : t.permission_mode ≡ u.permission_mode
  pub timeout_seconds : t.timeout_seconds ≡ u.timeout_seconds
  pub created_at : t.created_at ≡ u.created_at

-- the row of a task in two states of the tables, the second reached from the first
pub record Later (id : String) (t : Task) (d' : Db) : Type 0 where
  pub row : Task
  pub found : task_by_id id d' ≡ some row
  pub path : t.status ⟶* row.status
  pub same : SameRequest t row

pub find-update_where :
    (id j : String) (f : Task → Task)
    → ((t : Task) → (f t).id ≡ t.id)
    → (ts : List Task) (t : Task) → find (has_id id) ts ≡ some t
    → find (has_id id) (update_where (has_id j) f ts) ≡ some (if str_eq t.id j then f t else t)
find-update_where id j f keep [] t h = cc
find-update_where id j f keep (u ∷ us) t h =
    ground (arith, keep u, find-update_where id j f keep us t)

SameRequest-refl : (t : Task) → SameRequest t t
SameRequest-refl t = ground arith

SameRequest-set_status :
    (next : TaskStatus) (now : String) (t : Task) → SameRequest t (set_status next now t)
SameRequest-set_status next now t = ground arith

SameRequest-trans : (t u v : Task) → SameRequest t u → SameRequest u v → SameRequest t v
SameRequest-trans t u v h k = ground arith

⟶*-trans : {s t u : TaskStatus} → s ⟶* t → t ⟶* u → s ⟶* u
⟶*-trans p here = p
⟶*-trans p (then_ q e) = then_ (⟶*-trans p q) e

abbrev with_result : TaskResult → Task → Task
with_result result t = record t { result = some result; updated_at = result.updated_at }

unchanged : (id : String) (t : Task) (d' : Db) → task_by_id id d' ≡ some t → Later id t d'
unchanged id t d' h = record { row = t; found = h; path = here; same = SameRequest-refl t }

module _ (id : String) (t : Task) (d d' : Db) (found : task_by_id id d ≡ some t) where
  same_tasks : d'.tasks ≡ d.tasks → Later id t d'
  same_tasks e = unchanged id t d' (ap (find (has_id id)) e ∙ found)

  Later-create : (input : CreateTask) → Created input d d' → Later id t d'
  Later-create input (now, valid, rows) =
      let r = created_rows_lem input now d d' rows in
      unchanged id t d'
        (ap (find (has_id id)) r.tasks ∙ find-append_of_some (has_id id) d.tasks _ t found)

  Later-move :
      (j : String) (next : TaskStatus) (payload : Value) → Moved j next payload d d' → Later id t d'
  Later-move j next payload m = go (str_eq t.id j) refl
    where
      table : task_by_id id d' ≡ some (if str_eq t.id j then set_status next m.now t else t)
      table =
          ap (find (has_id id)) m.rows.tasks
          ∙ find-update_where id j (set_status next m.now) (λ u. refl) d.tasks t found

      go : (b : Bool) → str_eq t.id j ≡ b → Later id t d'
      go true e = record {
        row = set_status next m.now t;
        found = table ∙ ap (λ b. some (if b then set_status next m.now t else t)) e;
        path = then_ here (subst (λ (u : Task). u.status ⟶ next) is_current m.edge);
        same = SameRequest-set_status next m.now t;
      }
        where
          is_current : m.current ≡ t
          is_current = ground (
            arith,
            m.found,
            found,
            eq_iff t.id j,
            eq_iff t.id id,
            find_passes (has_id id) d.tasks t found,
          )
      go false e =
          unchanged id t d' (table ∙ ap (λ b. some (if b then set_status next m.now t else t)) e)

  Later-save : (j : String) (result : TaskResult) → d' ≡ update_result j result d → Later id t d'
  unfolding update_result
  Later-save j result e = record {
    row = if str_eq t.id j then with_result result t else t;
    found =
        ap (λ (x : Db). find (has_id id) x.tasks) e
        ∙ find-update_where id j (with_result result) (λ u. refl) d.tasks t found;
    path = elim (Bool-cases (str_eq t.id j)) [ inl q ↦ rw q here | inr q ↦ rw q here ];
    same = elim (Bool-cases (str_eq t.id j)) [
      | inl q ↦ rw q (ground arith)
      | inr q ↦ rw q (SameRequest-refl t)
    ];
  }

-- one step keeps the row of a task, up to an edge of the diagram
Step-Later :
    (id : String) (t : Task) (d d' : Db) → task_by_id id d ≡ some t → Step d d' → Later id t d'
unfolding replace_lock release_held
Step-Later id t d d' h (create input c) = Later-create id t d d' h input c
Step-Later id t d d' h (move j next payload m) = Later-move id t d d' h j next payload m
Step-Later id t d d' h (append j e payload (now, u, _, rows)) =
    same_tasks id t d d' h (ground arith)
Step-Later id t d d' h (request j r (now, u, _, rows)) = same_tasks id t d d' h (ground arith)
Step-Later id t d d' h (decide j r (now, u, _, _, rows)) = same_tasks id t d d' h (ground arith)
Step-Later id t d d' h (acquire r (now, _, e)) = same_tasks id t d d' h (ap (λ (x : Db). x.tasks) e)
Step-Later id t d d' h (release j (now, e)) = same_tasks id t d d' h (ap (λ (x : Db). x.tasks) e)
Step-Later id t d d' h (save j result e) = Later-save id t d d' h j result e

-- Whatever steps are made, a task that was in the tables stays there: its status has moved along
-- the diagram, and its owner, agent, directory, prompt, capabilities, workspace mode, provider,
-- model, permission mode, time limit and metadata are those of the first row.
pub Steps-Later :
    (id : String) (t : Task) (d d' : Db) → task_by_id id d ≡ some t → Steps d d' → Later id t d'
Steps-Later id t d d' h none = unchanged id t d h
Steps-Later id t d d' h (more {d' = m} before s) =
    let earlier = Steps-Later id t d m h before in
    let later = Step-Later id earlier.row m d' earlier.found s in
    record {
      row = later.row;
      found = later.found;
      path = ⟶*-trans earlier.path later.path;
      same = SameRequest-trans t earlier.row later.row earlier.same later.same;
    }

terminal_stays : {s t : TaskStatus} → is_terminal s ≡ true → s ⟶* t → t ≡ s
terminal_stays h here = refl
terminal_stays h (then_ p e) =
    absurd (stuck (subst (λ x. is_terminal x ≡ true) (sym (terminal_stays h p)) h) e)
  where
    stuck : {s t : TaskStatus} → is_terminal s ≡ true → s ⟶ t → ⊥
    stuck h wait = cc
    stuck h prepare = cc
    stuck h run = cc
    stuck h complete = cc
    stuck h time_out = cc
    stuck h fail_preparing = cc
    stuck h fail_running = cc
    stuck h (cancel e) = cc

-- A task that has ended keeps its status, whatever steps are made.
pub terminal_forever :
    (id : String) (t : Task) (d d' : Db)
    → task_by_id id d ≡ some t
    → is_terminal t.status ≡ true
    → Steps d d'
    → (u : Task) × (task_by_id id d' ≡ some u) × (u.status ≡ t.status)
terminal_forever id t d d' h e steps =
    let later = Steps-Later id t d d' h steps in
    (later.row, later.found, terminal_stays e later.path)
