-- ===== src/Store/Permissions/Answers.antt =====
-- What `resolve_permission_request` of store/tasks.rs answers and does to the tables.
use opendaemon.Prelude.{String, true, false, ◌≡◌, sym, subst, ap, ◌∙◌, ◌⊎◌, inl, inr, Option, some}
use opendaemon.Task.Event.{TaskEvent, PermissionDecision, PermissionDecisionEvent, decision_eq}
use opendaemon.Task.Permission.{PermissionRequestRecord, PermissionResolution, pending, is_pending}
use opendaemon.Store.World.{Db}
use opendaemon.Store.Exec.{◌>>=◌, call, now_rfc3339}
use opendaemon.Store.Logic.{
  Reads, Ensures, Reads-bind, Reads-call, Reads-pure, Reads-now_rfc3339, Ensures-read, Ensures-then,
  Ensures-write, Ensures-weaken, Ensures-failure,
}
use opendaemon.Store.Rows.{next_sequence_of}
use opendaemon.Store.Tasks.{store, get, publish_stored}
use opendaemon.Store.Tasks.Reading.{Reads-get, Reads-publish_stored, event_at}
use opendaemon.Store.Permissions.{
  request_by_id, decision_event, Verdict, duplicate, recorded, decision_of, resolve_rows,
  resolution, finish_resolution, resolve_permission_request,
}
use opendaemon.Store.Permissions.Decisions.{decided_rows, Resolved, Ensures-resolve_rows}

-- a pending request got its decision
abbrev pub Decided : String → PermissionDecisionEvent → Db → Db → Type 0
Decided id response d d' =
    (now : String) × (request : PermissionRequestRecord) × (request_by_id id response.request_id d
      ≡ some request)
    × (request.status ≡ pending)
    × (decided_rows id response now d ≡ some d')

-- what an answer of `resolve_permission_request` means
pub data Answer (id : String) (response : PermissionDecisionEvent) (d : Db)
    (r : PermissionResolution) (d' : Db) : Type 0 where
  first_decision :
      Decided id response d d'
      → r.duplicated ≡ false
      → event_at id (next_sequence_of id d) d' ≡ some r.event
      → r.decision ≡ response.decision
      → Answer id response d r d'
  same_again :
      (request : PermissionRequestRecord) (earlier : PermissionDecisionEvent)
      → request_by_id id response.request_id d ≡ some request
      → is_pending request.status ≡ false
      → request.response ≡ some earlier
      → decision_eq earlier.decision response.decision ≡ true
      → r.duplicated ≡ true
      → decision_event id response.request_id d ≡ some r.event
      → d' ≡ d
      → Answer id response d r d'

-- what the part behind the transaction returns
abbrev Reported : String → PermissionDecisionEvent → Verdict → Db → PermissionResolution → Type 0
Reported id response (duplicate event) d r = r ≡ resolution id response event true
Reported id response (recorded sequence) d r =
    (event : TaskEvent) × (event_at id sequence d ≡ some event)
    × (r ≡ resolution id response event false)

Reads-finish_resolution :
    (id : String) (response : PermissionDecisionEvent) (v : Verdict)
    → Reads (Reported id response v) (finish_resolution id response v)
unfolding finish_resolution
Reads-finish_resolution id response (duplicate event) =
    Reads-pure (resolution id response event true)
Reads-finish_resolution id response (recorded sequence) =
    Reads-bind (publish_stored id sequence) _ (Reads-publish_stored id sequence)
      λ event. Reads-pure (resolution id response event false)

answer :
    (id : String) (response : PermissionDecisionEvent) (now : String) (d d' : Db) (v : Verdict)
    (r : PermissionResolution)
    → Resolved id response now d v d'
    → Reported id response v d' r
    → Answer id response d r d'
answer id response now d d' (duplicate event) r h q =
    let (request, earlier, found, settled, answered, same, is_event, unchanged) = h in
    same_again request earlier found settled answered same
      (ap (λ (x : PermissionResolution). x.duplicated) q)
      (is_event ∙ ap some (ap (λ (x : PermissionResolution). x.event) (sym q))) unchanged
answer id response now d d' (recorded sequence) r h q =
    let (request, found, settled, numbered, rows) = h in
    first_decision (now, request, found, settled, rows)
      (ap (λ (x : PermissionResolution). x.duplicated) q.2)
      (subst (λ n. event_at id n d' ≡ some r.event) numbered
        (q.1 ∙ ap some (ap (λ (x : PermissionResolution). x.event) (sym q.2))))
      (ap (λ (x : PermissionResolution). x.decision) q.2)

left_done :
    (id : String) (response : PermissionDecisionEvent) (now : String) (d d' : Db)
    → (v : Verdict) × Resolved id response now d v d'
    → (d' ≡ d) ⊎ Decided id response d d'
left_done id response now d d' (duplicate event, h) = inl h.7
left_done id response now d d' (recorded sequence, h) = inr (now, h.0, h.1, h.2, h.4)

-- `resolve_permission_request` decides a pending request, or repeats the decision that was made
-- before, and never changes a decision: where it answers, either the request was pending and now
-- has this decision, or it had been decided the same way, the answer is marked as a duplicate and
-- carries the earlier event, and nothing changed. Where it fails, nothing changed, or (the
-- failure being in reading the event back) the decision of a pending request was made.
pub resolve_permission_request_effect :
    (id request_id : String) (decision : PermissionDecision) (reason : Option String)
    → let response = decision_of request_id decision reason in
      Ensures
        (λ _. Unit)
        (Answer id response)
        (Decided id response)
        (resolve_permission_request id request_id decision reason)
unfolding resolve_permission_request
resolve_permission_request_effect id request_id decision reason =
    (Ensures-then {Pre = λ _. Unit} (get id) _ (Reads-get id) (
      Ensures-read (now_rfc3339 store) _ (Reads-now_rfc3339 store) λ now.
        Ensures-then (call store) _ (Reads-call store)
          (Ensures-then (call store) _ (Reads-call store) (finish now))))
  where
    response : PermissionDecisionEvent
    response = decision_of request_id decision reason

    finish :
        (now : String)
        → Ensures
            (λ d. Unit {0} × Unit {0})
            (Answer id response)
            (Decided id response)
            (resolve_rows id response now >>= λ v. finish_resolution id response v)
    finish now =
        Ensures-failure _ (λ d d' p h. left_done id response now d d' h)
          (Ensures-weaken _ (λ d p. tt) (λ d r d' p h. answer id response now d d' h.0 r h.1 h.2)
            (λ d d' p h. h)
            (Ensures-write (resolve_rows id response now) _ (Ensures-resolve_rows id response now)
              (Reads-finish_resolution id response)))
