-- ===== src/Tests/Events.antt =====
-- The consumer of payment events on a log of two messages, of which the first cannot be handled.
use global_payments_api.Prelude.{◌≤◌, ◌<◌, String, ◌==◌, refl, arith, [], ◌∷◌, if◌then◌else◌}
use global_payments_api.Python.Raised.{Raised, Result, ok, err, other}
use global_payments_api.Kafka.{
  name, absent, Event, Json, object, Message, created, process_message, State, start,
}
use global_payments_api.Kafka.Memory.{Log, in_memory, in_memory-IsClient}
use global_payments_api.Kafka.Offsets.{
  start-committed, failed_message_is_passed, start-IsUnchanged, IsUnchanged,
}

abbrev created_event : Event
created_event = record {
  event_type = name "PAYMENT_CREATED";
  payment_id = name "aaa";
  status = absent;
}

abbrev decode_error : Raised
decode_error = record { kind = other; text = "'utf-8' codec can't decode" }

abbrev pub loads : String → Result Json
loads s = if s == "bad" then err decode_error else ok (object created_event)

abbrev pub log : Log
log = record { values = "bad" ∷ "good" ∷ []; next = 5; stored = 5 }

abbrev pub state : State loads in_memory
state = record { world = log; handled = [] }

start-committed_example : 5 ≤ in_memory.committed ((start loads in_memory 3 state).1.world) 0
start-committed_example =
    start-committed loads in_memory in_memory-IsClient 3 state 0 (λ p. omega arith)

abbrev bad : Message
bad = record { partition = 0; offset = 5; value = "bad" }

abbrev good : Message
good = record { partition = 0; offset = 6; value = "good" }

failed_message_is_passed_example :
    5 < in_memory.committed ((start loads in_memory 2 state).1.world) 0
unfolding process_message
failed_message_is_passed_example =
    failed_message_is_passed loads in_memory in_memory-IsClient 0 state bad good
      (record { values = "good" ∷ []; next = 6; stored = 5 })
      (record { values = []; next = 7; stored = 5 }) (record { values = []; next = 7; stored = 7 })
      decode_error (created created_event) refl refl refl refl refl

-- A broker whose messages cannot be decoded.
abbrev never_loads : String → Result Json
never_loads s = err decode_error

abbrev stuck : State never_loads in_memory
stuck = record { world = log; handled = [] }

start-IsUnchanged_example :
    IsUnchanged never_loads in_memory in_memory-IsClient stuck
      ((start never_loads in_memory 3 stuck).1)
unfolding process_message
start-IsUnchanged_example =
    start-IsUnchanged never_loads in_memory in_memory-IsClient (λ m. (decode_error, refl)) 3 stuck
