-- ===== src/Examples/Clients.antt =====
-- Requests with tokens, and the messages and callbacks of the control plane.
use opendaemon.Prelude.{
  ℕ, String, ◌≡◌, ◌≢◌, ◌≤◌, ◌+◌, ◌*◌, ◌⊎◌, ◌↔◌, refl, List, [], ◌∷◌, Option, some, none, ok, str_eq,
  if◌then◌else◌, arith,
}
use opendaemon.Json.{Value, object, field, end, string, empty_object}
use opendaemon.Task.Model.{Task, TaskStatus}
use opendaemon.Task.Event.{TaskEventType}
use opendaemon.Product.{ProductTokenRow, AuthenticatedProductToken}
use opendaemon.Store.World.{World, Db}
use opendaemon.Store.Logic.{Ensures}
use opendaemon.Store.Products
use opendaemon.Store.Products.Tokens
use opendaemon.Store.Products.Tokens.{Crypto, revoke_token, authenticate_product_token}
use opendaemon.Store.Products.Revoked
use opendaemon.Store.Products.Revoked.{revoked_stays_out}
use opendaemon.Auth.{authenticate_request}
use opendaemon.Auth.Sessions.{Authenticated, authenticate_request_effect}
use opendaemon.ControlPlane.{RemoteDispatchTask, DaemonConnectionStatus, evaluate}
use opendaemon.ControlPlane.Liveness.{evaluate_iff}
use opendaemon.ControlPlane.Dispatch.{ingest}
use opendaemon.ControlPlane.Dispatch.Effects.{Known, IngestedUnread, ingest_effect}
use opendaemon.ControlPlane.Client.{validate_task_callback}
use opendaemon.ControlPlane.Client.Once.{
  Signal, of_state, of_end, sent, NoneTwice, callbacks_once, MayUse, validate_task_callback_iff,
}
use opendaemon.Examples.{a_db, a_world, a_token, a_task, an_event}

-- a digest that is the same for every text
abbrev a_crypto : Crypto
a_crypto = record { sha256 = λ s. 0 ∷ []; encode = λ b. "00"; decode = λ s. some (0 ∷ []) }

authenticate_request_effect_example :
    Ensures
      (λ _. Unit)
      (Authenticated a_crypto (some "secret") (some (some "Bearer odpk_ab12cd")))
      (λ _ _. ⊥)
      (authenticate_request a_crypto (some "secret") (some (some "Bearer odpk_ab12cd")))
authenticate_request_effect_example =
    authenticate_request_effect a_crypto (some "secret") (some (some "Bearer odpk_ab12cd"))

-- another token of the product, which stays in use
abbrev other_token : ProductTokenRow
other_token = record a_token { id = "ptok_2" }

abbrev two_tokens : Db
two_tokens = record a_db { product_tokens = a_token ∷ other_token ∷ [] }

-- before it is revoked, and after
abbrev before : World
before = record a_world { db = two_tokens }

abbrev between : List Revoked.Call
between =
    Revoked.Call.authenticate "odpk_ab12cd"
    ∷ Revoked.Call.revoke_token "product" "ptok_1"
    ∷ Revoked.Call.authenticate "odpk_ab12cd"
    ∷ []

abbrev after : World
after = Revoked.serve_all a_crypto between (revoke_token "product" "ptok_1" before).1

-- the other token's product, its id and its scopes
abbrev its_session : AuthenticatedProductToken
its_session = record { token_id = "ptok_2"; product_id = "product"; scopes = other_token.scopes }

revoked : (revoke_token "product" "ptok_1" before).0 ≡ ok tt
unfolding revoke_token opendaemon.Store.Exec.◌>>=◌ Products.get_product opendaemon.Store.Exec.call
    opendaemon.Store.Exec.query opendaemon.Store.Exec.now_rfc3339 opendaemon.Store.Exec.statement
revoked = refl

let_in : (authenticate_product_token a_crypto "odpk_ab12cd" after).0 ≡ ok (some its_session)
unfolding authenticate_product_token Tokens.look_up opendaemon.Store.Exec.◌>>=◌ Tokens.token_prefix
    opendaemon.Store.Exec.call Revoked.serve_all Revoked.serve revoke_token Products.get_product
    opendaemon.Store.Exec.query opendaemon.Store.Exec.now_rfc3339 opendaemon.Store.Exec.statement
    Tokens.revoke_row Tokens.accept Tokens.touch_last_used Tokens.touch_row
let_in = refl

revoked_stays_out_example :
    ¬ ((its_session.product_id ≡ "product") × (its_session.token_id ≡ "ptok_1"))
revoked_stays_out_example =
    revoked_stays_out "product" "ptok_1" a_crypto "odpk_ab12cd" between before after its_session
      revoked refl let_in

abbrev a_dispatch : RemoteDispatchTask
a_dispatch = record {
  remote_task_id = "remote_1";
  owner_product_id = "product";
  agent_id = "agent";
  directory_id = "dir_1";
  prompt = "tidy up";
  required_capabilities = "read" ∷ [];
  workspace_mode = "worktree";
  timeout_seconds = none;
  task_token = "secret_1";
  metadata = empty_object;
}

ingest_effect_example :
    Ensures (λ _. Unit) (Known a_dispatch) (IngestedUnread a_dispatch) (ingest a_dispatch)
ingest_effect_example = ingest_effect a_dispatch

abbrev remote : Value
remote = object (
    field "control_plane"
      (object
        (field "remote_task_id" (string "remote_1") (field "task_token" (string "secret_1") end)))
      end)

abbrev remote_task : TaskStatus → Task
remote_task status = record (a_task "task_1" status) { metadata = some remote }

abbrev signals : List Signal
signals =
    of_state (remote_task TaskStatus.running)
    ∷ of_state (remote_task TaskStatus.running)
    ∷ of_end (an_event "evt_task_1_3" "task_1" 3 TaskEventType.completed)
        (remote_task TaskStatus.completed) "task.completed"
    ∷ []

callbacks_once_example : NoneTwice (sent signals [])
callbacks_once_example = callbacks_once signals []

abbrev used_then : List (String × String)
used_then = ("remote_1", "cb_2") ∷ ("remote_1", "cb_1") ∷ []

validate_task_callback_iff_example :
    (validate_task_callback "remote_1" "secret_1" remote "daemon" "cb_2" (("remote_1", "cb_1") ∷ [])
      ≡ ok used_then)
    ↔ (MayUse "remote_1" "secret_1" remote "daemon" "cb_2" (("remote_1", "cb_1") ∷ [])
        × (used_then ≡ ("remote_1", "cb_2") ∷ ("remote_1", "cb_1") ∷ []))
validate_task_callback_iff_example =
    validate_task_callback_iff "remote_1" "secret_1" remote "daemon" "cb_2"
      (("remote_1", "cb_1") ∷ []) used_then

-- the two times that are read
abbrev clock : String → Option ℕ
clock s = if str_eq s "t0" then some 0 else some 90000000000

online_is_not_offline : DaemonConnectionStatus.online ≢ DaemonConnectionStatus.offline
online_is_not_offline e = cc

evaluate_iff_example :
    ((evaluate clock 90 (some "t0") "t90" DaemonConnectionStatus.online
        ≡ DaemonConnectionStatus.offline)
      ↔ (0 + 90 * 1000000000 ≤ 90000000000))
    × ((evaluate clock 90 (some "t0") "t90" DaemonConnectionStatus.online
          ≡ DaemonConnectionStatus.offline)
        ⊎ (evaluate clock 90 (some "t0") "t90" DaemonConnectionStatus.online
            ≡ DaemonConnectionStatus.online))
evaluate_iff_example =
    evaluate_iff clock 90 "t0" "t90" 0 90000000000 DaemonConnectionStatus.online (omega arith) refl
      refl online_is_not_offline
