-- ===== src/Kafka.antt =====
-- The consumer of payment events: data-processing-service/app/utils/kafka_consumer.py. The client of
-- confluent_kafka is a parameter (`Client`), and so is `json.loads(value.decode('utf-8'))`. The loop
-- is given the number of times that it finds `_running` true. Log lines are not modelled; what a
-- handler was called with is.
pub mod Offsets
pub mod Memory
pub mod Thread
use global_payments_api.Prelude.{
  ℕ, zero, suc, ◌+◌, ◌≤◌, ◌<◌, String, ◌==◌, ◌≡◌, ◌≢◌, Bool, true, false, List, [], ◌∷◌, ◌++◌,
  Option, none, some, if◌then◌else◌,
}
use global_payments_api.Python.Raised.{
  Raised, Class, Result, ok, err, ◌>>=◌, kafka_exception, json_decode_error, attribute_error,
  type_error, Exec,
}

-- A value of a parsed event that the consumer reads: a text, another hashable value, or none that
-- a dict can be asked for.
pub data Field : Type 0 where
  absent : Field
  name : String → Field
  scalar : Field
  unhashable : Field

pub record Event : Type 0 where
  pub event_type : Field
  pub payment_id : Field
  pub status : Field

-- What `json.loads` returns: an object, or a value that has no `get`.
pub data Json : Type 0 where
  object : Event → Json
  not_an_object : Json

pub record Message : Type 0 where
  pub partition : ℕ
  pub offset : ℕ
  pub value : String

pub data Poll : Type 0 where
  nothing : Poll
  partition_eof : Poll
  broker_error : Poll
  message : Message → Poll
  raises : Raised → Poll

-- What a message has led to.
pub data Handled : Type 0 where
  malformed : Handled
  created : Event → Handled
  status_changed : Event → Handled
  retried : Event → Handled
  unhandled : Event → Handled

pub record Client : Type 1 where
  pub World : Type 0
  pub poll : World → Poll × World
  pub commit : Exec World (Unit {0})  -- `commit(asynchronous=False)`
  pub close : World → World
  pub position : World → ℕ → ℕ  -- of a partition, the next offset to be read
  pub committed : World → ℕ → ℕ  -- where a restart begins

-- A message moves the position of its partition behind it, and no other; a poll commits nothing.
abbrev pub AfterPoll : (c : Client) → c.World → Poll × c.World → Type 0
AfterPoll c w (message m, w') =
    (c.position w m.partition ≤ m.offset)
    × (c.position w' m.partition ≡ m.offset + 1)
    × ((p : ℕ) → p ≢ m.partition → c.position w' p ≡ c.position w p)
    × ((p : ℕ) → c.committed w' p ≡ c.committed w p)
AfterPoll c w (_, w') =
    ((p : ℕ) → c.position w' p ≡ c.position w p) × ((p : ℕ) → c.committed w' p ≡ c.committed w p)

-- With no arguments, the current positions are committed, of every partition.
abbrev pub AfterCommit : (c : Client) → c.World → Result (Unit {0}) × c.World → Type 0
AfterCommit c w (ok u, w') =
    ((p : ℕ) → c.position w' p ≡ c.position w p) × ((p : ℕ) → c.committed w' p ≡ c.position w p)
AfterCommit c w (err e, w') =
    ((p : ℕ) → c.position w' p ≡ c.position w p) × ((p : ℕ) → c.committed w' p ≡ c.committed w p)

pub record IsClient (c : Client) : Type 0 where
  pub poll_lem : (w : c.World) → AfterPoll c w (c.poll w)
  pub commit_lem : (w : c.World) → AfterCommit c w (c.commit w)
  pub close_lem : (w : c.World) (p : ℕ) → c.committed (c.close w) p ≡ c.committed w p

-- What a consumer is made of.
pub record ConsumerConfig : Type 0 where
  pub bootstrap_servers : String
  pub group_id : String
  pub auto_offset_reset : String
  pub enable_auto_commit : Bool
  pub max_poll_interval_ms : ℕ
  pub session_timeout_ms : ℕ
  pub heartbeat_interval_ms : ℕ

abbrev pub consumer_config : String → String → ConsumerConfig
consumer_config bootstrap_servers group_id = record {
  bootstrap_servers = bootstrap_servers;
  group_id = group_id;
  auto_offset_reset = "earliest";
  enable_auto_commit = false;
  max_poll_interval_ms = 300000;
  session_timeout_ms = 30000;
  heartbeat_interval_ms = 10000;
}

abbrev no_get : Raised
no_get = record { kind = attribute_error; text = "object has no attribute 'get'" }

abbrev no_hash : Raised
no_hash = record { kind = type_error; text = "unhashable type" }

-- `handlers.get(event_type)` and the call of what it finds. Each handler only logs the event.
abbrev routed : Field → Event → Result Handled
routed unhashable event = err no_hash
routed (name t) event = ok (
    if t == "PAYMENT_CREATED"
    then created event
    else if t == "PAYMENT_STATUS_CHANGED"
    then status_changed event
    else if t == "PAYMENT_RETRY"
    then retried event
    else unhandled event)
routed _ event = ok (unhandled event)

-- `except json.JSONDecodeError`: the message is skipped.
abbrev not_json : Class → Raised → Result Handled
not_json json_decode_error e = ok malformed
not_json _ e = err e

abbrev handled_event : Result Json → Result Handled
handled_event (ok (object event)) = routed event.event_type event
handled_event (ok not_an_object) = err no_get
handled_event (err e) = not_json e.kind e

module _ (loads : String → Result Json) where
  unfoldable pub process_message : Message → Result Handled
  process_message m = handled_event (loads m.value)

  module _ (c : Client) where
    open c use {World}

    -- The consumer's state: the client, and what was handled so far.
    pub record State : Type 0 where
      pub world : World
      pub handled : List Handled

    abbrev connected : Result World → Result State
    connected m = do w ← m; ok (record { world = w; handled = [] })

    -- `PaymentEventConsumer(bootstrap_servers, group_id, topic)`; `connect` is the client's `Consumer`.
    unfoldable pub new_consumer :
        (ConsumerConfig → Result World) → String → String → String → Result State
    new_consumer connect bootstrap_servers group_id topic =
        connected (connect (consumer_config bootstrap_servers group_id))

    abbrev after_commit : List Handled → Result (Unit {0}) × World → State
    after_commit hs (ok u, w) = record { world = w; handled = hs }
    after_commit hs (err e, w) = record { world = w; handled = hs }

    -- The inner `try`: a commit behind a message that was processed; an exception is only logged.
    abbrev pub after_process : List Handled → World → Result Handled → State
    after_process hs w (ok h) = after_commit (hs ++ h ∷ []) (c.commit w)
    after_process hs w (err e) = record { world = w; handled = hs }

    -- How a round of the loop ends.
    pub data Round : Type 0 where
      continues : State → Round
      leaves : Raised → State → Round

    abbrev pub after_poll : List Handled → Poll × World → Round
    after_poll hs (message m, w) = continues (after_process hs w (process_message m))
    after_poll hs (raises e, w) = leaves e (record { world = w; handled = hs })
    after_poll hs (_, w) = continues (record { world = w; handled = hs })

    -- One round of `while _running`.
    unfoldable pub round : State → Round
    unfolding process_message
    round s = after_poll s.handled (c.poll s.world)

    abbrev pub closed : State → State
    closed s = record s { world = c.close s.world }

    -- `except KafkaException`, and `finally`
    abbrev pub fatal : Class → Raised → State → Result (Unit {0}) × State
    fatal kafka_exception e s = (ok tt, closed s)
    fatal _ e s = (err e, closed s)

    -- What the loop does after a round.
    abbrev pub after_round : (State → Result (Unit {0}) × State) → Round → Result (Unit {0}) × State
    after_round rest (continues s) = rest s
    after_round rest (leaves e s) = fatal e.kind e s

    -- The rounds until `_running` is found false, or an exception leaves the loop.
    unfoldable pub start : ℕ → State → Result (Unit {0}) × State
    unfolding round
    start zero s = (ok tt, closed s)
    start (suc n) s = after_round (start n) (round s)
