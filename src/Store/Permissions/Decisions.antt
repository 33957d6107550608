-- ===== src/Store/Permissions/Decisions.antt =====
-- The transaction of `resolve_permission_request` of store/tasks.rs.
use opendaemon.Prelude.{
  String, true, false, ◌≡◌, refl, sym, subst, ◌∙◌, ◌⊎◌, inl, inr, arith, Option, some, none, ok,
  err, Bool-cases,
}
use opendaemon.Task.Event.{
  TaskEvent, TaskEventType, PermissionDecisionEvent, decision_eq, decision_to_value,
}
use opendaemon.Task.Permission.{
  PermissionRequestRecord, PermissionRequestStatus, pending, approved, denied, is_pending,
}
use opendaemon.Store.World.{World, Db}
use opendaemon.Store.Exec.{raise, query, required}
use opendaemon.Store.Logic.{
  Ensures, Reads-bind, Reads-pure, Ensures-read, Ensures-weaken, Ensures-of_Reads, Reads-query,
  Reads-required,
}
use opendaemon.Store.Logic.Writes.{Ensures-of_ok, Ensures-transaction}
use opendaemon.Store.Rows.{next_sequence_of, insert_event_row}
use opendaemon.Store.Tasks.{store, permission_request_not_found, new_event}
use opendaemon.Store.Permissions.{
  request_by_id, decision_event, record_decision, repeat_decision, decide_request, Verdict,
  duplicate, recorded, update_request, resolve_rows,
}

-- the rows after the transaction of `resolve_permission_request`, where it records a decision
abbrev pub decided_rows : String → PermissionDecisionEvent → String → Db → Option Db
decided_rows id response now d =
    elim (insert_event_row
      (new_event id (next_sequence_of id d) TaskEventType.provider_permission_decided
        (decision_to_value response) now)
      d) [ none ↦ none | some d₁ ↦ some (update_request id response.request_id response now d₁) ]

-- what the transaction of `resolve_permission_request` has found and done
abbrev pub Resolved : String → PermissionDecisionEvent → String → Db → Verdict → Db → Type 0
Resolved id response now d (duplicate event) d' =
    (request : PermissionRequestRecord) × (earlier : PermissionDecisionEvent) × (request_by_id id
        response.request_id d
      ≡ some request)
    × (is_pending request.status ≡ false)
    × (request.response ≡ some earlier)
    × (decision_eq earlier.decision response.decision ≡ true)
    × (decision_event id response.request_id d ≡ some event)
    × (d' ≡ d)
Resolved id response now d (recorded sequence) d' =
    (request : PermissionRequestRecord) × (request_by_id id response.request_id d ≡ some request)
    × (request.status ≡ pending)
    × (sequence ≡ next_sequence_of id d)
    × (decided_rows id response now d ≡ some d')

module _ (id : String) (response : PermissionDecisionEvent) (now : String) where
  record_decision_cases :
      (w : World)
      → ((record_decision id response now w).0 ≡ err store)
        ⊎ (((record_decision id response now w).0 ≡ ok (recorded (next_sequence_of id w.db)))
            × (decided_rows id response now w.db ≡ some (record_decision id response now w).1.db))
  unfolding record_decision
  record_decision_cases w = ground arith

  abbrev Found : PermissionRequestRecord → Db → Type 0
  Found request d = request_by_id id response.request_id d ≡ some request

  Ensures-record_decision :
      (request : PermissionRequestRecord)
      → request.status ≡ pending
      → Ensures
          (Found request)
          (Resolved id response now)
          (λ _ _. Unit)
          (record_decision id response now)
  Ensures-record_decision request p =
      Ensures-weaken _ (λ d f. tt) (resolved p) (λ d d' f t. t)
        (Ensures-of_ok
          {S = λ d v d'.
            (v ≡ recorded (next_sequence_of id d)) × (decided_rows id response now d ≡ some d')}
          (record_decision id response now)
          λ w. elim (record_decision_cases w) [
            | inl e ↦ inl (store, e)
            | inr (e, rows) ↦ inr (recorded (next_sequence_of id w.db), e, (refl, rows))
          ])
    where
      resolved :
          request.status ≡ pending
          → (d : Db) (v : Verdict) (d' : Db) → Found request d
          → (v ≡ recorded (next_sequence_of id d)) × (decided_rows id response now d ≡ some d')
          → Resolved id response now d v d'
      resolved p d v d' f h =
          subst (λ x. Resolved id response now d x d') (sym h.0) (request, f, p, refl, h.1)

  Ensures-repeat_decision :
      (request : PermissionRequestRecord) (earlier : Option PermissionDecisionEvent)
      → is_pending request.status ≡ false
      → request.response ≡ earlier
      → Ensures
          (Found request)
          (Resolved id response now)
          (λ _ _. Unit)
          (repeat_decision id response.request_id response.decision earlier)
  unfolding repeat_decision raise
  Ensures-repeat_decision request none p q = record { at = λ w f. inl refl }
  Ensures-repeat_decision request (some earlier) p q =
      elim (Bool-cases (decision_eq earlier.decision response.decision)) [
        | inl same ↦ rw same (
            Ensures-weaken _ (λ d f. f) (again same) (λ d d' f t. t)
              (Ensures-of_Reads {T = λ _ _. Unit} _ (
                Reads-bind (query store (decision_event id response.request_id)) _
                  (Reads-query store (decision_event id response.request_id))
                  λ row.
                    Reads-bind (required store row) _ (Reads-required store row)
                      λ event. Reads-pure (duplicate event))))
        | inr other ↦ rw other (record { at = λ w f. inr tt })
      ]
    where
      again :
          decision_eq earlier.decision response.decision ≡ true
          → (d : Db) (v : Verdict) (d' : Db) → Found request d
          → (d' ≡ d)
            × ((row : Option TaskEvent) × (row ≡ decision_event id response.request_id d)
                × ((event : TaskEvent) × (row ≡ some event) × (v ≡ duplicate event)))
          → Resolved id response now d v d'
      again same d v d' f (e, (row, found, (event, is_row, is_v))) =
          subst (λ x. Resolved id response now d x d') (sym is_v)
            (request, earlier, f, p, q, same, sym found ∙ is_row, e)

  Ensures-decide_request :
      (request : PermissionRequestRecord) (status : PermissionRequestStatus)
      → request.status ≡ status
      → Ensures
          (Found request)
          (Resolved id response now)
          (λ _ _. Unit)
          (decide_request id response now request status)
  unfolding decide_request
  Ensures-decide_request request pending p = Ensures-record_decision request p
  Ensures-decide_request request approved p =
      Ensures-repeat_decision request request.response (rw p) refl
  Ensures-decide_request request denied p =
      Ensures-repeat_decision request request.response (rw p) refl

  pub Ensures-resolve_rows :
      Ensures (λ _. Unit) (Resolved id response now) (λ _ _. ⊥) (resolve_rows id response now)
  unfolding resolve_rows
  Ensures-resolve_rows = Ensures-transaction _ (
      Ensures-read (query store (request_by_id id response.request_id)) _
        (Reads-query store (request_by_id id response.request_id))
        λ row.
          Ensures-read (required permission_request_not_found row) _
            (Reads-required permission_request_not_found row)
            λ request.
              Ensures-weaken _ (λ d p. sym p.0.1 ∙ p.1) (λ d v d' p h. h) (λ d d' p t. t)
                (Ensures-decide_request request request.status refl))
