-- ===== src/ControlPlane/Dispatch/Effects.antt =====
-- What a dispatched task becomes, and that a repeated dispatch changes nothing.
use opendaemon.Prelude.{
  String, true, false, ◌≡◌, refl, sym, subst, ap, ◌∙◌, ◌⊎◌, inl, inr, Option, some, none, List, [],
  ◌∷◌, ◌++◌, find, select, ok, arith, eq_refl,
}
use mathlib.Core.Option.{some-injective}
use opendaemon.Security.{DirectoryCapability, WorkspaceMode}
use opendaemon.Task.Model.{Task, CreateTask}
use opendaemon.Store.World.{World, Db}
use opendaemon.Store.Rows.{matches}
use opendaemon.Store.Tasks.{new_task}
use opendaemon.Store.Tasks.Effects.{created_rows, Created}
use opendaemon.Store.Tasks.Rows.{created_task, created_rows_lem}
use opendaemon.Store.Logic.{
  Reads, Ensures, Ensures-ok, Reads-bind, Reads-map_err, Reads-lift, Reads-pure, Reads-weaken,
  Ensures-read, Ensures-weaken, Ensures-of_Reads,
}
use opendaemon.Store.Logic.Writes.{Ensures-map_err}
use opendaemon.Scheduler.Errors.{from_store_error}
use opendaemon.Scheduler.Service.{no_filters, filled, asks_remote}
use opendaemon.Scheduler.Service.Waiting.{Reads-list}
use opendaemon.Scheduler.Service.Admission.{Admitted, enqueue_task_effect}
use opendaemon.ControlPlane.{RemoteDispatchTask}
use opendaemon.ControlPlane.Dispatch.{
  task, is_remote_task, find_by_remote_task_id, parse_capabilities, parse_workspace_mode,
  metadata_of, create_task_of, ingest_new, ingest_unless, ingest,
}

-- the first task of a remote id
abbrev pub remote_task : String → Db → Option Task
remote_task id d = find (is_remote_task id) d.tasks

select_all : (ts : List Task) → select (matches no_filters) ts ≡ ts
unfolding matches
select_all [] = refl
select_all (t ∷ ts) = ap (λ l. t ∷ l) (select_all ts)

pub Reads-find_by_remote_task_id :
    (id : String) → Reads (λ d o. o ≡ remote_task id d) (find_by_remote_task_id id)
unfolding find_by_remote_task_id
Reads-find_by_remote_task_id id =
    Reads-weaken _
      (λ d o h.
        let (ts, listed, e) = h in e ∙ ap (find (is_remote_task id)) (listed ∙ select_all d.tasks))
      (Reads-bind _ _
        (Reads-map_err task _ (Reads-map_err from_store_error _ (Reads-list no_filters)))
        λ tasks. Reads-pure (find (is_remote_task id) tasks))

-- A dispatched task is never one that asks for remote execution, whatever its metadata says.
pub asks_remote-metadata_of : (r : RemoteDispatchTask) → asks_remote (some (metadata_of r)) ≡ false
unfolding metadata_of
asks_remote-metadata_of r = refl

module _ (r : RemoteDispatchTask) where
  -- the task that the dispatch asks for, once it is read, and what is stored of it
  abbrev pub asked : List DirectoryCapability → WorkspaceMode → CreateTask
  asked = create_task_of r

  abbrev pub stored :
      {d : Db} (cs : List DirectoryCapability) (m : WorkspaceMode)
      → Admitted (asked cs m) d
      → CreateTask
  stored cs m a = filled (asked cs m) a.mode a.profile

  -- a new task was made of the dispatch
  pub record Ingested (d : Db) (t : Task) (d' : Db) : Type 0 where
    pub capabilities : List DirectoryCapability
    pub mode : WorkspaceMode
    pub now : String
    pub capabilities_read : parse_capabilities r.required_capabilities ≡ ok capabilities
    pub mode_read : parse_workspace_mode r.workspace_mode ≡ ok mode
    pub admitted : Admitted (asked capabilities mode) d
    pub returned : t ≡ created_task (stored capabilities mode admitted) now d
    pub rows : created_rows (stored capabilities mode admitted) now d ≡ some d'

  -- what a failure to read the new row back leaves behind
  abbrev pub IngestedUnread : Db → Db → Type 0
  IngestedUnread d d' =
      (cs : List DirectoryCapability) × (m : WorkspaceMode) × (a : Admitted (asked cs m) d)
      × Created (stored cs m a) d d'

  find-last :
      (t : Task) (ts : List Task)
      → is_remote_task r.remote_task_id t ≡ true
      → find (is_remote_task r.remote_task_id) ts ≡ none
      → find (is_remote_task r.remote_task_id) (ts ++ t ∷ []) ≡ some t
  find-last t [] own h = ground (arith, own)
  find-last t (u ∷ us) own h = ground (arith, find-last t us own)

  -- a new task is found under the remote id where there was none
  find-created :
      (d : Db) (t : Task) (d' : Db)
      → Ingested d t d'
      → remote_task r.remote_task_id d ≡ none
      → remote_task r.remote_task_id d' ≡ some t
  unfolding is_remote_task metadata_of create_task_of new_task
  find-created d t d' i missing =
      ap (find (is_remote_task r.remote_task_id))
        (created_rows_lem (stored i.capabilities i.mode i.admitted) i.now d d' i.rows).tasks
      ∙ find-last (created_task (stored i.capabilities i.mode i.admitted) i.now d) d.tasks
          (eq_refl r.remote_task_id) missing
      ∙ ap some (sym i.returned)

  -- a task of that remote id is there afterwards: the one that was there, or a new one
  abbrev pub Known : Db → Task → Db → Type 0
  Known d t d' =
      (remote_task r.remote_task_id d' ≡ some t)
      × (((remote_task r.remote_task_id d ≡ some t) × (d' ≡ d))
          ⊎ ((remote_task r.remote_task_id d ≡ none) × Ingested d t d'))

  Ensures-ingest_new :
      Ensures (λ d. remote_task r.remote_task_id d ≡ none) Known IngestedUnread (ingest_new r)
  unfolding ingest_new
  Ensures-ingest_new =
      Ensures-read _ _ (Reads-lift (parse_capabilities r.required_capabilities)) λ cs.
        Ensures-read _ _ (Reads-lift (parse_workspace_mode r.workspace_mode)) λ m.
          Ensures-weaken _ (λ d q. tt)
            (λ d t d' q h.
              let (a, now, e, rows) = h in
              let i : Ingested d t d' = record {
                capabilities = cs;
                mode = m;
                now = now;
                capabilities_read = q.0.1;
                mode_read = q.1;
                admitted = a;
                returned = e;
                rows = rows;
              } in
              (find-created d t d' i q.0.0, inr (q.0.0, i)))
            (λ d d' q h. (cs, m, h.0, h.1))
            (Ensures-map_err task _ (enqueue_task_effect (asked cs m)))

  -- `ingest` answers the task of its remote id: the one that is there, and then nothing changes, or,
  -- where there is none, a new one that `enqueue_task` let in with the capabilities and the mode that
  -- the dispatch names; afterwards that task is the one of its remote id. Where it fails, nothing
  -- changed, or (the failure being in reading the row back) such a task was stored.
  pub ingest_effect : Ensures (λ _. Unit) Known IngestedUnread (ingest r)
  unfolding ingest ingest_unless
  ingest_effect =
      Ensures-read {Pre = λ _. Unit} (find_by_remote_task_id r.remote_task_id) _
        (Reads-find_by_remote_task_id r.remote_task_id) branch
    where
      branch :
          (o : Option Task)
          → Ensures
              (λ d. Unit {0} × (o ≡ remote_task r.remote_task_id d))
              Known
              IngestedUnread
              (ingest_unless r o)
      branch none =
          Ensures-weaken _ (λ d q. sym q.1) (λ d t d' q h. h) (λ d d' q h. h) Ensures-ingest_new
      branch (some t) =
          Ensures-weaken _ (λ d q. q)
            (λ d u d' q h.
              let found = sym q.1 ∙ ap some (sym h.1) in
              (
                subst (λ x. remote_task r.remote_task_id x ≡ some u) (sym h.0) found,
                inl (found, h.0),
              ))
            (λ d d' q n. n) (Ensures-of_Reads _ (Reads-pure t))

  -- A repeated dispatch changes nothing: where `ingest` returned a task, and runs again on the tables
  -- that it left, it can only return that task, and leaves the tables alone.
  pub ingest_again :
      (w w' : World) (t t' : Task)
      → (ingest r w).0 ≡ ok t
      → w'.db ≡ (ingest r w).1.db
      → (ingest r w').0 ≡ ok t'
      → (t' ≡ t) × ((ingest r w').1.db ≡ w'.db)
  ingest_again w w' t t' first same again =
      let known = Ensures-ok _ ingest_effect w t tt first in
      let there : remote_task r.remote_task_id w'.db ≡ some t =
        ap (remote_task r.remote_task_id) same ∙ known.0 in
      elim (Ensures-ok _ ingest_effect w' t' tt again).1 [
        | inl (found, kept) ↦ (some-injective t' t (sym found ∙ there), kept)
        | inr (missing, _) ↦ absurd (none_some t (sym missing ∙ there))
      ]
    where
      none_some : (u : Task) → ◌≡◌ {A = Option Task} none (some u) → ⊥
      none_some u e = cc
