-- ===== src/Kafka/Thread.antt =====
-- The consumer's thread: `start_consumer_thread`, `stop_consumer` and the shared flag `_running` of
-- data-processing-service/app/utils/kafka_consumer.py. A turn of the thread is one access of the flag,
-- or one call of the client between two; other threads take their turns in any order.
pub mod Stop
pub mod Refines
use global_payments_api.Prelude.{
  ℕ, String, ◌==◌, Bool, true, false, List, [], ◌∷◌, Option, none, some, if◌then◌else◌,
}
use global_payments_api.Python.Raised.{Raised, Class, Result, ok, err, kafka_exception, Exec}
use global_payments_api.Kafka.{Json, Client, State, Round, continues, leaves, round, closed}

-- Where `start` stands. `leaving` is the `finally` block with what follows it: a return, or an
-- exception that goes on.
pub data Position : Type 0 where
  begun : Position  -- before `_running = True`
  subscribing : Position
  at_test : Position  -- at `while _running`
  in_round : Position
  leaving : Result (Unit {0}) → Position
  ended : Result (Unit {0}) → Position

-- What a turn is: one of the thread, a call of `stop_consumer`, or the first access of another
-- consumer's `start`.
pub data Turn : Type 0 where
  thread : Turn
  stop : Turn
  other_start : Turn

module _ (loads : String → Result Json) (c : Client) (subscribe : Exec c.World (Unit {0})) where
  open c use {World}

  pub record System : Type 0 where
    pub running : Bool
    pub position : Position
    pub state : State loads c

  abbrev pub with_world : State loads c → World → State loads c
  with_world s w = record s { world = w }

  -- `subscribe` stands above the `try`: what it raises ends the thread without a `close`.
  abbrev pub after_subscribe : System → Result (Unit {0}) × World → System
  after_subscribe s (ok u, w) = record s { position = at_test; state = with_world s.state w }
  after_subscribe s (err e, w) = record s { position = ended (err e); state = with_world s.state w }

  -- `except KafkaException`
  abbrev pub after_leaving : Class → Raised → Result (Unit {0})
  after_leaving kafka_exception e = ok tt
  after_leaving _ e = err e

  abbrev pub after_round : System → Round loads c → System
  after_round s (continues s') = record s { position = at_test; state = s' }
  after_round s (leaves e s') = record s { position = leaving (after_leaving e.kind e); state = s' }

  abbrev pub after_test : System → Bool → System
  after_test s true = record s { position = in_round }
  after_test s false = record s { position = leaving (ok tt) }

  abbrev pub move : Position → System → System
  move begun s = record s { running = true; position = subscribing }
  move subscribing s = after_subscribe s (subscribe s.state.world)
  move at_test s = after_test s s.running
  move in_round s = after_round s (round loads c s.state)
  move (leaving r) s = record s { position = ended r; state = closed loads c s.state }
  move (ended r) s = s

  -- One turn of `start`.
  unfoldable pub thread_turn : System → System
  unfolding round
  thread_turn s = move s.position s

  unfoldable pub stop_consumer : System → System
  stop_consumer s = record s { running = false }

  unfoldable pub turn : Turn → System → System
  unfolding thread_turn stop_consumer
  turn thread s = thread_turn s
  turn stop s = stop_consumer s
  turn other_start s = record s { running = true }

  -- The turns in their order.
  abbrev pub run : List Turn → System → System
  run [] s = s
  run (t ∷ ts) s = run ts (turn t s)

  abbrev pub launched : Bool → Result (State loads c) → Result (Option System)
  launched running (ok s) = ok (some (record { running = running; position = begun; state = s }))
  launched running (err e) = err e

  -- `start_consumer_thread`, from the value of `_running` and of the setting of the servers; `create`
  -- makes the consumer of these servers. Without servers no thread is started.
  unfoldable pub start_consumer_thread :
      (String → Result (State loads c)) → Bool → Option String → Result (Option System)
  start_consumer_thread create running none = ok none
  start_consumer_thread create running (some servers) =
      if servers == "" then ok none else launched running (create servers)
