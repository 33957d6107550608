-- ===== src/Store/Steps/Decisions.antt =====
-- A decision on a permission request is final, whatever calls of store/tasks.rs are made.
use opendaemon.Prelude.{
  String, true, false, ◌≡◌, refl, sym, ap, ◌∙◌, some, none, List, [], ◌∷◌, ◌++◌, find,
  find-append_of_some, find-update_where_other, update_where, arith, eq_iff,
}
use mathlib.Core.Option.{some-injective}
use opendaemon.Task.Event.{PermissionDecisionEvent}
use opendaemon.Task.Permission.{PermissionRequestRecord, is_pending}
use opendaemon.Store.World.{World, Db}
use opendaemon.Store.Rows.{replace_lock, release_held, update_result, next_sequence_of}
use opendaemon.Store.Tasks.Rows.{created_rows_lem}
use opendaemon.Store.Permissions.{request_by_id, is_request, respond, new_request}
use opendaemon.Store.Permissions.Answers.{Decided}
use opendaemon.Store.Steps.Operations.{Operation, perform, perform-Steps}
use opendaemon.Store.Steps.{
  Step, Steps, create, move, append, request, decide, acquire, release, save, none, more,
}

module _ (id request_id : String) (r : PermissionRequestRecord) (d d' : Db)
    (found : request_by_id id request_id d ≡ some r) where
  same_requests :
      d'.task_permission_requests ≡ d.task_permission_requests
      → request_by_id id request_id d' ≡ some r
  same_requests e = ap (find (is_request id request_id)) e ∙ found

  one_more :
      (new : PermissionRequestRecord)
      → d'.task_permission_requests ≡ d.task_permission_requests ++ new ∷ []
      → request_by_id id request_id d' ≡ some r
  one_more new e =
      ap (find (is_request id request_id)) e
      ∙ find-append_of_some (is_request id request_id) d.task_permission_requests (new ∷ []) r found

  other-Decided :
      (j : String) (response : PermissionDecisionEvent)
      → is_pending r.status ≡ false
      → Decided j response d d'
      → request_by_id id request_id d' ≡ some r
  other-Decided j response settled (now, q, q_found, q_pending, rows) =
      ap (find (is_request id request_id)) table
      ∙ find-update_where_other (is_request id request_id) (is_request j response.request_id)
          (respond response now) d.task_permission_requests (λ x. refl) other
      ∙ found
    where
      table :
          d'.task_permission_requests
          ≡ update_where
              (is_request j response.request_id)
              (respond response now)
              d.task_permission_requests
      table = ground arith

      same_row : j ≡ id → response.request_id ≡ request_id → q ≡ r
      same_row e f = some-injective q r (sym q_found ∙ rw (e, f) found)

      other :
          (x : PermissionRequestRecord)
          → is_request id request_id x ≡ true
          → is_request j response.request_id x ≡ false
      other x h = ground (
        arith,
        same_row,
        settled,
        q_pending,
        eq_iff x.task_id id,
        eq_iff x.request_id request_id,
        eq_iff x.task_id j,
        eq_iff x.request_id response.request_id,
      )

decision_stays :
    (id request_id : String) (r : PermissionRequestRecord) (d d' : Db)
    → request_by_id id request_id d ≡ some r
    → is_pending r.status ≡ false
    → Step d d'
    → request_by_id id request_id d' ≡ some r
unfolding replace_lock release_held update_result
decision_stays id rid r d d' h p (create input (now, _, rows)) =
    same_requests id rid r d d' h (created_rows_lem input now d d' rows).requests
decision_stays id rid r d d' h p (move j next payload m) =
    same_requests id rid r d d' h m.rows.requests
decision_stays id rid r d d' h p (append j e payload (now, t, _, rows)) =
    same_requests id rid r d d' h (ground arith)
decision_stays id rid r d d' h p (request j q (now, t, _, rows)) =
    one_more id rid r d d' h (new_request j (next_sequence_of j d) q now) (ground arith)
decision_stays id rid r d d' h p (decide j response q) =
    other-Decided id rid r d d' h j response p q
decision_stays id rid r d d' h p (acquire q (now, _, e)) =
    same_requests id rid r d d' h (ap (λ (x : Db). x.task_permission_requests) e)
decision_stays id rid r d d' h p (release j (now, e)) =
    same_requests id rid r d d' h (ap (λ (x : Db). x.task_permission_requests) e)
decision_stays id rid r d d' h p (save j result e) =
    same_requests id rid r d d' h (ap (λ (x : Db). x.task_permission_requests) e)

decision_kept :
    (id request_id : String) (r : PermissionRequestRecord) (d d' : Db)
    → request_by_id id request_id d ≡ some r
    → is_pending r.status ≡ false
    → Steps d d'
    → request_by_id id request_id d' ≡ some r
decision_kept id rid r d d' h p none = h
decision_kept id rid r d d' h p (more {d' = m} before s) =
    decision_stays id rid r m d' (decision_kept id rid r d m h p before) p s

-- A permission request that has been decided keeps its row, its decision included, whatever calls
-- of the task store are made, in any world, and whichever of them fail.
pub decision_final :
    (ops : List Operation) (w : World) (id request_id : String) (r : PermissionRequestRecord)
    → request_by_id id request_id w.db ≡ some r
    → is_pending r.status ≡ false
    → request_by_id id request_id (perform ops w).db ≡ some r
decision_final ops w id request_id r found decided =
    decision_kept id request_id r w.db (perform ops w).db found decided (perform-Steps ops w)
