-- ===== src/Kafka/Offsets.antt =====
-- The offsets that the consumer commits.
use native.Mathlib.Decide.{ℕ_discrete}
use mathlib.Core.Path.{subst}
use global_payments_api.Prelude.{
  ℕ, zero, suc, ◌≤◌, ◌<◌, String, ◌≡◌, refl, ap, ◌∙◌, List, [], ◌∷◌, ◌++◌, arith,
}
use global_payments_api.Python.Raised.{Raised, Class, Result, ok, err, kafka_exception}
use global_payments_api.Kafka.{
  Json, Message, Poll, nothing, partition_eof, broker_error, message, raises, Handled, Client,
  AfterPoll, AfterCommit, IsClient, process_message, State, after_commit, after_process, Round,
  continues, leaves, after_poll, round, closed, after_round, fatal, start,
}

-- The state with which a round ends.
abbrev pub state_of : {loads : String → Result Json} {c : Client} → Round loads c → State loads c
state_of (continues s) = s
state_of (leaves e s) = s

module _ (loads : String → Result Json) (c : Client) (client : IsClient c) where
  open c use {World}

  -- No offset is committed that was not read.
  abbrev pub IsBehind : World → Type 0
  IsBehind w = (p : ℕ) → c.committed w p ≤ c.position w p

  abbrev pub Grows : World → World → Type 0
  Grows w w' = IsBehind w → IsBehind w' × ((p : ℕ) → c.committed w p ≤ c.committed w' p)

  Grows-trans : (w w1 w2 : World) → Grows w w1 → Grows w1 w2 → Grows w w2
  Grows-trans w w1 w2 g h b =
      let (b1, k1) = g b in let (b2, k2) = h b1 in (b2, λ p. omega (arith, k1 p, k2 p))

  Grows-same :
      (w w' : World)
      → ((p : ℕ) → c.position w' p ≡ c.position w p)
      → ((p : ℕ) → c.committed w' p ≡ c.committed w p)
      → Grows w w'
  Grows-same w w' e k b = (λ p. omega (arith, e p, k p, b p), λ p. omega (arith, k p))

  poll-Grows : (w : World) (m : Poll × World) → AfterPoll c w m → Grows w (m.1)
  poll-Grows w (message m, w') (low, at, others, k) b = (
    λ p. elim (ℕ_discrete p m.partition) [
      | yes e ↦ omega (arith, k p, b p, low, at, ap (c.position w) e, ap (c.position w') e)
      | no ne ↦ omega (arith, k p, b p, others p ne)
    ],
    λ p. omega (arith, k p),
  )
  poll-Grows w (nothing, w') (e, k) b = Grows-same w w' e k b
  poll-Grows w (partition_eof, w') (e, k) b = Grows-same w w' e k b
  poll-Grows w (broker_error, w') (e, k) b = Grows-same w w' e k b
  poll-Grows w (raises x, w') (e, k) b = Grows-same w w' e k b

  commit-Grows :
      (hs : List Handled) (w : World) (m : Result (Unit {0}) × World)
      → AfterCommit c w m
      → Grows w ((after_commit loads c hs m).world)
  commit-Grows hs w (ok u, w') (e, k) b =
      (λ p. omega (arith, e p, k p), λ p. omega (arith, k p, b p))
  commit-Grows hs w (err x, w') (e, k) b = Grows-same w w' e k b

  process-Grows :
      (hs : List Handled) (w : World) (r : Result Handled)
      → Grows w ((after_process loads c hs w r).world)
  process-Grows hs w (ok h) b = commit-Grows (hs ++ h ∷ []) w (c.commit w) (client.commit_lem w) b
  process-Grows hs w (err e) b = (b, λ p. omega arith)

  after_poll-Grows :
      (hs : List Handled) (w : World) (m : Poll × World)
      → AfterPoll c w m
      → Grows w ((state_of (after_poll loads c hs m)).world)
  after_poll-Grows hs w (message m, w') h =
      Grows-trans w w' _ (poll-Grows w (message m, w') h)
        (process-Grows hs w' (process_message loads m))
  after_poll-Grows hs w (nothing, w') h = poll-Grows w (nothing, w') h
  after_poll-Grows hs w (partition_eof, w') h = poll-Grows w (partition_eof, w') h
  after_poll-Grows hs w (broker_error, w') h = poll-Grows w (broker_error, w') h
  after_poll-Grows hs w (raises x, w') h = poll-Grows w (raises x, w') h

  closed-keeps :
      (s : State loads c) (p : ℕ) → c.committed ((closed loads c s).world) p ≡ c.committed s.world p
  closed-keeps s p = client.close_lem s.world p

  fatal-keeps :
      (k : Class) (e : Raised) (s : State loads c) (p : ℕ)
      → c.committed ((fatal loads c k e s).1.world) p ≡ c.committed s.world p
  fatal-keeps kafka_exception e s p = closed-keeps s p
  fatal-keeps _ e s p = closed-keeps s p

  round-Grows : (s : State loads c) → Grows s.world ((state_of (round loads c s)).world)
  unfolding round
  round-Grows s = after_poll-Grows s.handled s.world (c.poll s.world) (client.poll_lem s.world)

  after_round-committed :
      (s : State loads c) (p : ℕ)
      → IsBehind s.world
      → (rest : State loads c → Result (Unit {0}) × State loads c) (x : Round loads c)
      → Grows s.world ((state_of x).world)
      → ((s' : State loads c)
          → IsBehind s'.world
          → c.committed s'.world p ≤ c.committed ((rest s').1.world) p)
      → c.committed s.world p ≤ c.committed ((after_round loads c rest x).1.world) p
  after_round-committed s p b rest (continues s') g h = omega (arith, (g b).1 p, h s' ((g b).0))
  after_round-committed s p b rest (leaves e s') g h =
      omega (arith, (g b).1 p, fatal-keeps e.kind e s' p)

  -- If no offset is committed that was not read, then after any number of rounds, however they end,
  -- the offset committed for a partition is at least what it was.
  pub start-committed :
      (n : ℕ) (s : State loads c) (p : ℕ)
      → IsBehind s.world
      → c.committed s.world p ≤ c.committed ((start loads c n s).1.world) p
  unfolding start
  start-committed zero s p b = omega (arith, closed-keeps s p)
  start-committed (suc n) s p b =
      after_round-committed s p b (start loads c n) (round loads c s) (round-Grows s)
        (λ s' b'. start-committed n s' p b')

  passed :
      (w w1 w2 : World) (m m' : Message)
      → AfterPoll c w (message m, w1)
      → AfterPoll c w1 (message m', w2)
      → m.offset < c.position w2 m.partition
  passed w w1 w2 m m' (low, at, others, k) (low', at', others', k') =
      elim (ℕ_discrete m.partition m'.partition) [
        | yes e ↦ omega (arith, at, low', at', ap (c.position w1) e, ap (c.position w2) e)
        | no ne ↦ omega (arith, at, others' m.partition ne)
      ]

  round_fails :
      (s : State loads c) (m : Message) (w1 : World) (e : Raised)
      → c.poll s.world ≡ (message m, w1)
      → process_message loads m ≡ err e
      → round loads c s ≡ continues (record { world = w1; handled = s.handled })
  unfolding round
  round_fails s m w1 e read fails =
      ap (after_poll loads c s.handled) read
      ∙ ap (λ r. continues (after_process loads c s.handled w1 r)) fails

  round_commits :
      (s : State loads c) (m : Message) (w2 w3 : World) (h : Handled)
      → c.poll s.world ≡ (message m, w2)
      → process_message loads m ≡ ok h
      → c.commit w2 ≡ (ok tt, w3)
      → round loads c s ≡ continues (record { world = w3; handled = s.handled ++ h ∷ [] })
  unfolding round
  round_commits s m w2 w3 h read works commits =
      ap (after_poll loads c s.handled) read
      ∙ ap (λ r. continues (after_process loads c s.handled w2 r)) works
      ∙ ap (λ r. continues (after_commit loads c (s.handled ++ h ∷ []) r)) commits

  -- If processing one message raises `e`, and the next one is processed and its offset committed, then
  -- after any number of further rounds the offset committed for the first message's partition is
  -- behind that message: a restart does not read it again.
  pub failed_message_is_passed :
      (n : ℕ) (s : State loads c) (m m' : Message) (w1 w2 w3 : World) (e : Raised) (h : Handled)
      → c.poll s.world ≡ (message m, w1)
      → process_message loads m ≡ err e
      → c.poll w1 ≡ (message m', w2)
      → process_message loads m' ≡ ok h
      → c.commit w2 ≡ (ok tt, w3)
      → m.offset < c.committed ((start loads c (suc (suc n)) s).1.world) m.partition
  unfolding start round
  failed_message_is_passed n s m m' w1 w2 w3 e h read fails read' works commits =
      let first = subst (AfterPoll c s.world) read (client.poll_lem s.world) in
      let second = subst (AfterPoll c w1) read' (client.poll_lem w1) in
      let (kept, stored) = subst (AfterCommit c w2) commits (client.commit_lem w2) in
      rw
        (
          round_fails s m w1 e read fails,
          round_commits (record { world = w1; handled = s.handled }) m' w2 w3 h read' works commits,
        )
        (omega (
          arith,
          passed s.world w1 w2 m m' first second,
          stored m.partition,
          start-committed n (record { world = w3; handled = s.handled ++ h ∷ [] }) m.partition
              (λ p. omega (arith, kept p, stored p)),
        ))

  -- The committed offsets of two worlds are the same.
  abbrev pub SameCommitted : World → World → Type 0
  SameCommitted w w' = (p : ℕ) → c.committed w' p ≡ c.committed w p

  poll-SameCommitted : (w : World) (m : Poll × World) → AfterPoll c w m → SameCommitted w (m.1)
  poll-SameCommitted w (message m, w') (low, at, others, k) = k
  poll-SameCommitted w (nothing, w') (e, k) = k
  poll-SameCommitted w (partition_eof, w') (e, k) = k
  poll-SameCommitted w (broker_error, w') (e, k) = k
  poll-SameCommitted w (raises x, w') (e, k) = k

  abbrev pub IsUnchanged : State loads c → State loads c → Type 0
  IsUnchanged s s' = SameCommitted s.world s'.world × (s'.handled ≡ s.handled)

  module _ (fails : (m : Message) → (e : Raised) × (process_message loads m ≡ err e)) where
    after_poll-IsUnchanged :
        (hs : List Handled) (w : World) (m : Poll × World)
        → AfterPoll c w m
        → IsUnchanged (record { world = w; handled = hs }) (state_of (after_poll loads c hs m))
    after_poll-IsUnchanged hs w (message m, w') h =
        let (e, q) = fails m in rw q (poll-SameCommitted w (message m, w') h, refl)
    after_poll-IsUnchanged hs w (nothing, w') h = (poll-SameCommitted w (nothing, w') h, refl)
    after_poll-IsUnchanged hs w (partition_eof, w') h =
        (poll-SameCommitted w (partition_eof, w') h, refl)
    after_poll-IsUnchanged hs w (broker_error, w') h =
        (poll-SameCommitted w (broker_error, w') h, refl)
    after_poll-IsUnchanged hs w (raises x, w') h = (poll-SameCommitted w (raises x, w') h, refl)

    fatal-handled :
        (k : Class) (e : Raised) (s : State loads c) → (fatal loads c k e s).1.handled ≡ s.handled
    fatal-handled kafka_exception e s = refl
    fatal-handled _ e s = refl

    after_round-IsUnchanged :
        (s : State loads c) (rest : State loads c → Result (Unit {0}) × State loads c)
        (x : Round loads c)
        → IsUnchanged s (state_of x)
        → ((s' : State loads c) → IsUnchanged s' ((rest s').1))
        → IsUnchanged s ((after_round loads c rest x).1)
    after_round-IsUnchanged s rest (continues s') (k, q) h = (λ p. (h s').0 p ∙ k p, (h s').1 ∙ q)
    after_round-IsUnchanged s rest (leaves e s') (k, q) h =
        (λ p. fatal-keeps e.kind e s' p ∙ k p, fatal-handled e.kind e s' ∙ q)

    -- While processing raises for every message, any number of rounds commits nothing and handles
    -- nothing: a restart reads all of those messages again.
    pub start-IsUnchanged : (n : ℕ) (s : State loads c) → IsUnchanged s ((start loads c n s).1)
    unfolding start round
    start-IsUnchanged zero s = (closed-keeps s, refl)
    start-IsUnchanged (suc n) s =
        after_round-IsUnchanged s (start loads c n) (after_poll loads c s.handled (c.poll s.world))
          (after_poll-IsUnchanged s.handled s.world (c.poll s.world) (client.poll_lem s.world))
          (start-IsUnchanged n)
