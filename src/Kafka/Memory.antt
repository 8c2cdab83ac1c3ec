-- ===== src/Kafka/Memory.antt =====
-- A client in memory, which reads one partition's messages from a list and remembers the position and
-- what was committed: it shows that what is assumed of a client can be met.
use global_payments_api.Prelude.{ℕ, zero, suc, ◌+◌, arith, ◌≢◌, String, ◌≡◌, refl, List, [], ◌∷◌}
use global_payments_api.Python.Raised.{ok}
use global_payments_api.Kafka.{Poll, nothing, message, Client, AfterPoll, IsClient}

-- The values of the messages that are still to be read, and the offsets of the only partition.
pub record Log : Type 0 where
  pub values : List String
  pub next : ℕ
  pub stored : ℕ

-- Of the other partitions nothing is ever read.
abbrev of_partition : ℕ → ℕ → ℕ
of_partition n zero = n
of_partition n (suc p) = 0

abbrev pub next_message : List String → Log → Poll × Log
next_message [] l = (nothing, l)
next_message (v ∷ vs) l = (
  message (record { partition = 0; offset = l.next; value = v }),
  record l { values = vs; next = l.next + 1 },
)

abbrev pub in_memory : Client
in_memory = record {
  World = Log;
  poll = λ l. next_message l.values l;
  commit = λ l. (ok tt, record l { stored = l.next });
  close = λ l. l;
  position = λ l. of_partition l.next;
  committed = λ l. of_partition l.stored;
}

others : (n k : ℕ) (p : ℕ) → p ≢ 0 → of_partition n p ≡ of_partition k p
others n k zero ne = absurd (ne refl)
others n k (suc p) ne = refl

next_message-AfterPoll : (vs : List String) (l : Log) → AfterPoll in_memory l (next_message vs l)
next_message-AfterPoll [] l = (λ p. refl, λ p. refl)
next_message-AfterPoll (v ∷ vs) l = (omega arith, refl, others (l.next + 1) l.next, λ p. refl)

pub in_memory-IsClient : IsClient in_memory
in_memory-IsClient = record {
  poll_lem = λ l. next_message-AfterPoll l.values l;
  commit_lem = λ l. (λ p. refl, λ p. refl);
  close_lem = λ l p. refl;
}
