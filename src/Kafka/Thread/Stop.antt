-- ===== src/Kafka/Thread/Stop.antt =====
-- What a stop signal does, in every order of the threads' turns.
use global_payments_api.Prelude.{
  ℕ, suc, ◌-◌, ◌≤◌, String, ◌≡◌, refl, Bool, true, false, List, [], ◌∷◌, arith, count_if, All,
}
use global_payments_api.Python.Raised.{Result, ok, err, Exec}
use global_payments_api.Kafka.{Json, Client, State, Round, continues, leaves, round}
use global_payments_api.Kafka.Thread.{
  Position, begun, subscribing, at_test, in_round, leaving, ended, Turn, thread, stop, other_start,
  System, after_subscribe, after_round, move, thread_turn, stop_consumer, turn, run,
}

-- The turns of the thread that are left once the flag is false.
abbrev pub turns_left : Position → ℕ
turns_left begun = 4
turns_left subscribing = 3
turns_left in_round = 3
turns_left at_test = 2
turns_left (leaving r) = 1
turns_left (ended r) = 0

abbrev pub is_thread : Turn → Bool
is_thread thread = true
is_thread _ = false

-- The flag has been set by this thread, and no other consumer starts.
abbrev pub HasBegun : Position → Type 0
HasBegun begun = ⊥
HasBegun _ = Unit

abbrev pub IsNoStart : Turn → Type 0
IsNoStart other_start = ⊥
IsNoStart _ = Unit

abbrev pub HasEnded : Position → Type 0
HasEnded p = (r : Result (Unit {0})) × (p ≡ ended r)

module _ (loads : String → Result Json) (c : Client) (subscribe : Exec c.World (Unit {0})) where
  open c use {World}

  -- A thread that has begun, with the flag down, which is at most so many turns from its end.
  record IsStopping (n : ℕ) (s : System loads c subscribe) : Type 0 where
    down : s.running ≡ false
    on_its_way : HasBegun s.position
    near : turns_left s.position ≤ n

  after_subscribe-IsStopping :
      (n : ℕ) (s : System loads c subscribe) (m : Result (Unit {0}) × World)
      → s.running ≡ false
      → 2 ≤ n
      → IsStopping n (after_subscribe loads c subscribe s m)
  after_subscribe-IsStopping n s (ok u, w) d h = record { down = d; on_its_way = tt; near = h }
  after_subscribe-IsStopping n s (err e, w) d h = record {
    down = d;
    on_its_way = tt;
    near = omega arith;
  }

  after_round-IsStopping :
      (n : ℕ) (s : System loads c subscribe) (m : Round loads c)
      → s.running ≡ false
      → 2 ≤ n
      → IsStopping n (after_round loads c subscribe s m)
  after_round-IsStopping n s (continues s') d h = record { down = d; on_its_way = tt; near = h }
  after_round-IsStopping n s (leaves e s') d h = record {
    down = d;
    on_its_way = tt;
    near = omega arith;
  }

  move-IsStopping :
      (n : ℕ) (p : Position) (s : System loads c subscribe)
      → s.position ≡ p
      → s.running ≡ false
      → HasBegun p
      → turns_left p ≤ suc n
      → IsStopping n (move loads c subscribe p s)
  move-IsStopping n begun s e d b h = absurd b
  move-IsStopping n subscribing s e d b h =
      after_subscribe-IsStopping n s (subscribe s.state.world) d (omega arith)
  move-IsStopping n at_test s e d b h =
      rw d (record { down = refl; on_its_way = tt; near = omega arith })
  move-IsStopping n in_round s e d b h =
      after_round-IsStopping n s (round loads c s.state) d (omega arith)
  move-IsStopping n (leaving r) s e d b h = record { down = d; on_its_way = tt; near = omega arith }
  move-IsStopping n (ended r) s e d b h = record {
    down = d;
    on_its_way = rw e tt;
    near = rw e (omega arith);
  }

  run-IsStopping :
      (ts : List Turn) (n : ℕ) (s : System loads c subscribe)
      → All IsNoStart ts
      → n ≤ count_if is_thread ts
      → IsStopping n s
      → IsStopping 0 (run loads c subscribe ts s)
  unfolding turn
  run-IsStopping [] n s a h k = record {
    down = k.down;
    on_its_way = k.on_its_way;
    near = omega (arith, k.near);
  }
  run-IsStopping (other_start ∷ ts) n s a h k = absurd (a.0)
  run-IsStopping (stop ∷ ts) n s a h k =
      run-IsStopping ts n (stop_consumer loads c subscribe s) (a.1) h
        (record { down = refl; on_its_way = k.on_its_way; near = k.near })
  run-IsStopping (thread ∷ ts) n s a h k =
      run-IsStopping ts (n - 1) (thread_turn loads c subscribe s) (a.1) (omega arith)
        (move-IsStopping (n - 1) s.position s refl k.down k.on_its_way (omega (arith, k.near)))

  no_turns_left : (p : Position) → turns_left p ≤ 0 → HasEnded p
  no_turns_left (ended r) h = (r, refl)
  no_turns_left begun h = absurd (omega arith)
  no_turns_left subscribing h = absurd (omega arith)
  no_turns_left at_test h = absurd (omega arith)
  no_turns_left in_round h = absurd (omega arith)
  no_turns_left (leaving r) h = absurd (omega arith)

  turns_left_bound : (p : Position) → HasBegun p → turns_left p ≤ 3
  turns_left_bound begun h = absurd h
  turns_left_bound subscribing h = omega arith
  turns_left_bound at_test h = omega arith
  turns_left_bound in_round h = omega arith
  turns_left_bound (leaving r) h = omega arith
  turns_left_bound (ended r) h = omega arith

  -- If the thread has set the flag, then after `stop_consumer` it ends within three of its turns,
  -- whatever other threads do between them, as long as none of them starts a consumer.
  pub run-HasEnded :
      (s : System loads c subscribe) (ts : List Turn)
      → HasBegun s.position
      → All IsNoStart ts
      → 3 ≤ count_if is_thread ts
      → HasEnded ((run loads c subscribe ts (stop_consumer loads c subscribe s)).position)
  unfolding stop_consumer
  run-HasEnded s ts b a h =
      let k =
        run-IsStopping ts 3 (stop_consumer loads c subscribe s) a h
          (record { down = refl; on_its_way = b; near = turns_left_bound s.position b }) in
      no_turns_left ((run loads c subscribe ts (stop_consumer loads c subscribe s)).position) k.near

  abbrev pub IsNoStop : Turn → Type 0
  IsNoStop stop = ⊥
  IsNoStop _ = Unit

  -- Between the first access of the flag and the end.
  abbrev IsLooping : Position → Type 0
  IsLooping subscribing = Unit
  IsLooping at_test = Unit
  IsLooping in_round = Unit
  IsLooping _ = ⊥

  record GoesOn (s : System loads c subscribe) : Type 0 where
    up : s.running ≡ true
    looping : IsLooping s.position

  looping-ne : (p : Position) → IsLooping p → ¬ HasEnded p
  looping-ne (ended r) h k = absurd h
  looping-ne subscribing h (r, e) = cc
  looping-ne at_test h (r, e) = cc
  looping-ne in_round h (r, e) = cc
  looping-ne begun h k = absurd h
  looping-ne (leaving r) h k = absurd h

  module _ (subscribes : (w : World) → (w' : World) × (subscribe w ≡ (ok tt, w')))
      (goes_on : (s : State loads c)
        → (s' : State loads c) × (round loads c s ≡ continues s')) where
    move-GoesOn :
        (p : Position) (s : System loads c subscribe)
        → s.running ≡ true
        → IsLooping p
        → GoesOn (move loads c subscribe p s)
    move-GoesOn begun s u l = absurd l
    move-GoesOn subscribing s u l =
        let (w', e) = subscribes s.state.world in rw e (record { up = u; looping = tt })
    move-GoesOn at_test s u l = rw u (record { up = refl; looping = tt })
    move-GoesOn in_round s u l =
        let (s', e) = goes_on s.state in rw e (record { up = u; looping = tt })
    move-GoesOn (leaving r) s u l = absurd l
    move-GoesOn (ended r) s u l = absurd l

    run-GoesOn :
        (ts : List Turn) (s : System loads c subscribe)
        → All IsNoStop ts
        → GoesOn s
        → GoesOn (run loads c subscribe ts s)
    unfolding turn
    run-GoesOn [] s a g = g
    run-GoesOn (stop ∷ ts) s a g = absurd (a.0)
    run-GoesOn (other_start ∷ ts) s a g =
        run-GoesOn ts (record s { running = true }) (a.1)
          (record { up = refl; looping = g.looping })
    run-GoesOn (thread ∷ ts) s a g =
        run-GoesOn ts (thread_turn loads c subscribe s) (a.1)
          (move-GoesOn s.position s g.up g.looping)

    -- A stop signal that comes before the thread's first turn is lost: where subscribing works and no
    -- round raises, the thread goes on for ever, with the flag up, until the next signal.
    pub early_stop_is_lost :
        (s : System loads c subscribe) (ts : List Turn)
        → s.position ≡ begun
        → All IsNoStop ts
        → ((run loads c subscribe (stop ∷ thread ∷ ts) s).running ≡ true)
          × ¬ HasEnded ((run loads c subscribe (stop ∷ thread ∷ ts) s).position)
    unfolding turn
    early_stop_is_lost s ts e a =
        let started = turn loads c subscribe thread (turn loads c subscribe stop s) in
        let g = run-GoesOn ts started a (rw e (record { up = refl; looping = tt })) in
        (g.up, looping-ne _ g.looping)
