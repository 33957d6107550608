-- ===== src/ControlPlane/Client/Once.antt =====
-- Each callback is sent once, and each callback id of a remote task is accepted once.
use opendaemon.Prelude.{
  String, Bool, true, false, ◌≡◌, ◌≢◌, refl, sym, subst, ap, ◌∙◌, ◌↔◌, ◌⊎◌, inl, inr, List, [], ◌∷◌,
  All, Option, none, some, any, eq_iff, if◌then◌else◌, Result, ok, err, and_then-eq-ok, ok_or,
  arith, Bool-cases,
}
use opendaemon.Text.Names.{str_eq-false_iff}
use opendaemon.Json.{Value, get}
use opendaemon.Task.Model.{Task}
use opendaemon.Task.Event.{TaskEvent}
use opendaemon.ControlPlane.Dispatch.{get_in, text_in}
use opendaemon.ControlPlane.Client.{
  ControlPlaneClientError, DedupeKey, same_key, pos, TaskCallback, Answer, deliver, deliver_checked,
  callback_of, text_of, state_sequence, state_event, callback_for_state, callback_for_task_state,
  callback_for_end, validate_daemon_token, expected, is_used, validate_task_callback,
  control_plane_auth_failed,
}

-- what the service is told: the task of a state event, or a final event with its task and its name
pub data Signal : Type 0 where
  of_state : Task → Signal
  of_end : TaskEvent → Task → String → Signal

abbrev pub answer : Signal → List DedupeKey → Answer
unfolding callback_for_task_state
answer (of_state t) delivered = callback_for_task_state t delivered
answer (of_end e t name) delivered = callback_for_end e t name delivered

abbrev pub key_of : Signal → DedupeKey
unfolding state_sequence
key_of (of_state t) = record { task_id = t.id; sequence = state_sequence t.status }
key_of (of_end e t name) = record { task_id = t.id; sequence = pos e.sequence }

abbrev pub is_sent : Result (Option TaskCallback) ControlPlaneClientError → Bool
is_sent (ok (some c)) = true
is_sent (ok none) = false
is_sent (err e) = false

-- the keys of the callbacks that are sent, one signal after the other
unfoldable pub sent : List Signal → List DedupeKey → List DedupeKey
unfolding answer key_of
sent [] delivered = []
sent (s ∷ ss) delivered =
    let rest = sent ss (answer s delivered).1 in
    if is_sent (answer s delivered).0 then key_of s ∷ rest else rest

abbrev pub Fresh : DedupeKey → List DedupeKey → Type 0
Fresh k delivered = any (same_key k) delivered ≡ false

abbrev pub NoneTwice : List DedupeKey → Type 0
NoneTwice [] = Unit
NoneTwice (k ∷ ks) = All (λ l. same_key l k ≡ false) ks × NoneTwice ks

-- nothing is sent and nothing noted, or a fresh key is noted
abbrev Step : DedupeKey → List DedupeKey → Answer → Type 0
Step k delivered a =
    ((is_sent a.0 ≡ false) × (a.1 ≡ delivered))
    ⊎ ((is_sent a.0 ≡ true) × Fresh k delivered × (a.1 ≡ k ∷ delivered))

deliver_cases : (k : DedupeKey) (c : TaskCallback) (d : List DedupeKey) → Step k d (deliver k c d)
deliver_cases k c d = elim (Bool-cases (any (same_key k) d)) [
  | inl e ↦ rw e (inl (refl, refl))
  | inr e ↦ inr (rw e refl, e, rw e refl)
]

deliver_checked_cases :
    (a b : Result String ControlPlaneClientError) (k : DedupeKey)
    (c : String → String → TaskCallback) (d : List DedupeKey)
    → Step k d (deliver_checked a b k c d)
deliver_checked_cases (err e) b k c d = inl (refl, refl)
deliver_checked_cases (ok i) (err e) k c d = inl (refl, refl)
deliver_checked_cases (ok i) (ok t) k c d = deliver_cases k (c i t) d

callback_of_cases :
    (o : Option Value) (k : DedupeKey) (c : String → String → TaskCallback) (d : List DedupeKey)
    → Step k d (callback_of o k c d)
callback_of_cases none k c d = inl (refl, refl)
callback_of_cases (some v) k c d =
    deliver_checked_cases (text_of v "remote_task_id") (text_of v "task_token") k c d

answer_cases : (s : Signal) (d : List DedupeKey) → Step (key_of s) d (answer s d)
unfolding answer key_of callback_for_task_state callback_for_state
answer_cases (of_end e t name) d = callback_of_cases (get_in t.metadata "control_plane") _ _ d
answer_cases (of_state t) d = go (state_event t.status)
  where
    go :
        (o : Option String)
        → Step
            (record { task_id = t.id; sequence = state_sequence t.status })
            d
            (callback_for_state t o d)
    go none = inl (refl, refl)
    go (some event) = callback_of_cases (get_in t.metadata "control_plane") _ _ d

Fresh-cons :
    (k : DedupeKey) (d ks : List DedupeKey)
    → All (λ l. Fresh l (k ∷ d)) ks
    → All (λ l. same_key l k ≡ false) ks × All (λ l. Fresh l d) ks
Fresh-cons k d [] h = (tt, tt)
Fresh-cons k d (l ∷ ls) h =
    let (a, b) = Fresh-cons k d ls h.1 in ((ground (arith, h.0), a), (ground (arith, h.0), b))

sent_lem :
    (ss : List Signal) (d : List DedupeKey)
    → NoneTwice (sent ss d) × All (λ l. Fresh l d) (sent ss d)
unfolding sent
sent_lem [] d = (tt, tt)
sent_lem (s ∷ ss) d = elim (answer_cases s d) [
  | inl (quiet, same) ↦ rw quiet (
      subst (λ x. NoneTwice (sent ss x) × All (λ l. Fresh l d) (sent ss x)) (sym same)
        (sent_lem ss d))
  | inr (loud, fresh, noted) ↦
      let (once, new) = sent_lem ss (key_of s ∷ d) in
      let (apart, new') = Fresh-cons (key_of s) d (sent ss (key_of s ∷ d)) new in
      rw loud (
        subst (λ x. NoneTwice (key_of s ∷ sent ss x) × All (λ l. Fresh l d) (key_of s ∷ sent ss x))
          (sym noted) ((apart, once), (fresh, new')))
]

-- However often the tasks are reported, no two callbacks that are sent have the same task and number.
pub callbacks_once : (ss : List Signal) (d : List DedupeKey) → NoneTwice (sent ss d)
callbacks_once ss d = (sent_lem ss d).0

expected_lem :
    (o : Option Value) (key t : String) → expected o key ≡ ok t → text_in (get_in o key) ≡ some t
expected_lem o key t h = go (text_in (get_in o key)) h
  where
    go : (x : Option String) → ok_or x control_plane_auth_failed ≡ ok t → x ≡ some t
    go none e = absurd (cc)
    go (some u) e = cc

-- the callback may be used: its token is the task's and not the daemon's, and it was not used before
pub record MayUse (id presented : String) (metadata : Value) (daemon_token callback_id : String)
    (used : List (String × String)) : Type 0 where
  pub not_daemon : daemon_token ≢ presented
  pub same_task : text_in (get_in (get metadata "control_plane") "remote_task_id") ≡ some id
  pub same_token : text_in (get_in (get metadata "control_plane") "task_token") ≡ some presented
  pub unused : is_used id callback_id used ≡ false

-- A callback is accepted only with the token of its own task, never with the daemon's, and only if no
-- callback of that task was accepted under that id; it is then noted as used. Exactly then: a callback
-- that may be used is accepted.
pub validate_task_callback_iff :
    (id presented : String) (metadata : Value) (daemon_token callback_id : String)
    (used used' : List (String × String))
    → (validate_task_callback id presented metadata daemon_token callback_id used ≡ ok used') ↔ (
        MayUse id presented metadata daemon_token callback_id used
        × (used' ≡ (id, callback_id) ∷ used))
unfolding validate_task_callback validate_daemon_token
validate_task_callback_iff id presented metadata daemon_token callback_id used used' = (
  λ h.
      let (u, apart, h1) = and_then-eq-ok (validate_daemon_token daemon_token presented) _ h in
      let (i, task, h2) =
        and_then-eq-ok (expected (get metadata "control_plane") "remote_task_id") _ h1 in
      let (t, token, h3) =
        and_then-eq-ok (expected (get metadata "control_plane") "task_token") _ h2 in
      let same_i : i ≡ id = (eq_iff i id).0 (ground (arith, h3)) in
      let same_t : t ≡ presented = (eq_iff t presented).0 (ground (arith, h3)) in
      (
        record {
          not_daemon = (str_eq-false_iff daemon_token presented).0 (ground (arith, apart));
          same_task =
              expected_lem (get metadata "control_plane") "remote_task_id" i task ∙ ap some same_i;
          same_token =
              expected_lem (get metadata "control_plane") "task_token" t token ∙ ap some same_t;
          unused = ground (arith, h3);
        },
        ground (arith, h3),
      ),
  λ h.
      let (m, e) = h in
      rw ((str_eq-false_iff daemon_token presented).1 m.not_daemon) (
        rw (m.same_task, m.same_token)
          (rw ((eq_iff id id).1 refl, (eq_iff presented presented).1 refl, m.unused)
            (ap ok (sym e)))),
)
