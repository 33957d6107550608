-- ===== src/Examples/Requests.antt =====
-- Requests for tasks to the small daemon.
use opendaemon.Prelude.{String, true, refl, ◌≡◌, ◌≢◌, List, [], ◌∷◌, none, some, Result, ok, arith}
use opendaemon.Product.{tasks_read, tasks_cancel, has_scope}
use opendaemon.Task.Model.{TaskStatus, is_terminal}
use opendaemon.Task.Stream.{stream}
use opendaemon.Store.Steps.Numbering.{events_of}
use opendaemon.Store.Steps.Resuming.{skip}
use opendaemon.Api.Tasks.Resuming.{events_resumed}
use opendaemon.Examples.Steps.{numbered}
use opendaemon.Registry.{ProviderRegistry}
use opendaemon.Auth.{ProductAuthContext}
use opendaemon.Text.Decimal.{show}
use opendaemon.Api.Tasks.{TaskEventRequest, get, cancel, post_event, events, create}
use opendaemon.Api.Tasks.Isolation.{Foreign, Refused, other_products_kept_out}
use opendaemon.Examples.{a_request, a_world, a_db, a_task}
use opendaemon.Examples.Providers.{a_registry}

abbrev a_reader : ProductAuthContext
a_reader = record { token_id = "ptok_1"; product_id = "product"; scopes = tasks_read ∷ [] }

may_read : has_scope a_reader.scopes tasks_read ≡ true
may_read = refl

events_resumed_example :
    ((events a_reader "task_1" (some (show 1)) none a_world).0
      ≡ ok (stream "task_1" 1 (is_terminal TaskStatus.running) (skip 1 (events_of "task_1" a_db))))
    × ((events a_reader "task_1" none (some (show 1)) a_world).0
        ≡ ok
            (stream "task_1" 1 (is_terminal TaskStatus.running) (skip 1 (events_of "task_1" a_db))))
events_resumed_example =
    events_resumed a_reader "task_1" (a_task "task_1" TaskStatus.running) 1 a_world (omega arith)
      may_read refl refl (numbered "task_1") (λ k. refl)

abbrev a_stranger : ProductAuthContext
a_stranger = record {
  token_id = "ptok_7";
  product_id = "stranger";
  scopes = tasks_read ∷ tasks_cancel ∷ [];
}

abbrev an_answer : TaskEventRequest
an_answer = record {
  event_type = "provider.permission_response";
  request_id = "req_1";
  decision = "approve";
  reason = none;
}

abbrev registry : Result ProviderRegistry (List String)
registry = ok a_registry

other_products_kept_out_example :
    Refused (Foreign a_stranger "task_1") (get a_stranger "task_1")
    × Refused (Foreign a_stranger "task_1") (cancel a_stranger "task_1")
    × Refused (Foreign a_stranger "task_1") (post_event a_stranger "task_1" an_answer)
    × Refused (Foreign a_stranger "task_1") (events a_stranger "task_1" none (some "2"))
    × Refused
        (λ _. a_request.owner_product_id ≢ a_stranger.product_id)
        (create registry a_stranger a_request)
other_products_kept_out_example =
    other_products_kept_out registry a_stranger "task_1" a_request an_answer none (some "2")
