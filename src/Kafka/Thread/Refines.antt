-- ===== src/Kafka/Thread/Refines.antt =====
-- The thread under any order of turns does what `Kafka.start` does for some number of rounds.
use mathlib.Core.Path.{subst}
use global_payments_api.Prelude.{
  ℕ, suc, String, ◌≡◌, refl, sym, ap, ◌∙◌, Bool, true, false, List, [], ◌∷◌,
}
use global_payments_api.Python.Raised.{Raised, Class, kafka_exception, Result, Exec}
use global_payments_api.Kafka
use global_payments_api.Kafka.{
  Json, Client, State, Round, continues, leaves, round, closed, fatal, start,
}
use global_payments_api.Kafka.Thread.{
  Position, begun, subscribing, at_test, in_round, leaving, ended, Turn, thread, stop, other_start,
  System, after_leaving, after_round, after_test, move, turn, run,
}

module _ (loads : String → Result Json) (c : Client) (subscribe : Exec c.World (Unit {0})) where
  open c use {World}

  -- States that rounds without an exception lead to.
  data Rounds (s0 : State loads c) : State loads c → Type 0 where
    here : Rounds s0 s0
    next : {s s' : State loads c} → Rounds s0 s → round loads c s ≡ continues s' → Rounds s0 s'

  -- `start` on the first state goes through the others.
  Rounds-start :
      (s0 s : State loads c)
      → Rounds s0 s
      → (k : ℕ) → (n : ℕ) × (start loads c n s0 ≡ start loads c k s)
  unfolding start
  Rounds-start s0 _ here k = (k, refl)
  Rounds-start s0 _ (next {s} {s'} r e) k =
      let (n, q) = Rounds-start s0 s r (suc k) in
      (n, q ∙ ap (Kafka.after_round loads c (start loads c k)) e)

  Reaches : State loads c → Result (Unit {0}) × State loads c → Type 0
  Reaches s0 m = (n : ℕ) × (start loads c n s0 ≡ m)

  -- What a position says of the state, where the loop began in `s0`.
  Follows : State loads c → Position → State loads c → Type 0
  Follows s0 at_test s = Rounds s0 s
  Follows s0 in_round s = Rounds s0 s
  Follows s0 (leaving r) s = Reaches s0 (r, closed loads c s)
  Follows s0 (ended r) s = Reaches s0 (r, s)
  Follows s0 begun s = ⊥
  Follows s0 subscribing s = ⊥

  fatal-closed :
      (k : Class) (e : Raised) (s : State loads c)
      → fatal loads c k e s ≡ (after_leaving loads c subscribe k e, closed loads c s)
  fatal-closed kafka_exception e s = refl
  fatal-closed _ e s = refl

  after_round-Follows :
      (s0 : State loads c) (sys : System loads c subscribe) (x : Round loads c)
      → Rounds s0 sys.state
      → round loads c sys.state ≡ x
      → let sys' = after_round loads c subscribe sys x in Follows s0 sys'.position sys'.state
  unfolding Follows start Reaches
  after_round-Follows s0 sys (continues s') r e = next r e
  after_round-Follows s0 sys (leaves x s') r e =
      let (n, q) = Rounds-start s0 sys.state r 1 in
      (n, q ∙ ap (Kafka.after_round loads c (start loads c 0)) e ∙ fatal-closed x.kind x s')

  after_test-Follows :
      (s0 : State loads c) (sys : System loads c subscribe) (b : Bool)
      → Rounds s0 sys.state
      → let sys' = after_test loads c subscribe sys b in Follows s0 sys'.position sys'.state
  unfolding Follows start Reaches
  after_test-Follows s0 sys true r = r
  after_test-Follows s0 sys false r = Rounds-start s0 sys.state r 0

  move-Follows :
      (s0 : State loads c) (p : Position) (sys : System loads c subscribe)
      → sys.position ≡ p
      → Follows s0 p sys.state
      → let sys' = move loads c subscribe p sys in Follows s0 sys'.position sys'.state
  unfolding Follows Reaches
  move-Follows s0 begun sys e f = absurd f
  move-Follows s0 subscribing sys e f = absurd f
  move-Follows s0 at_test sys e f = after_test-Follows s0 sys sys.running f
  move-Follows s0 in_round sys e f = after_round-Follows s0 sys (round loads c sys.state) f refl
  move-Follows s0 (leaving r) sys e f = f
  move-Follows s0 (ended r) sys e f = subst (λ p. Follows s0 p sys.state) (sym e) f

  run-Follows :
      (s0 : State loads c) (ts : List Turn) (sys : System loads c subscribe)
      → Follows s0 sys.position sys.state
      → let sys' = run loads c subscribe ts sys in Follows s0 sys'.position sys'.state
  unfolding turn
  run-Follows s0 [] sys f = f
  run-Follows s0 (thread ∷ ts) sys f =
      run-Follows s0 ts (turn loads c subscribe thread sys)
        (move-Follows s0 sys.position sys refl f)
  run-Follows s0 (stop ∷ ts) sys f = run-Follows s0 ts (turn loads c subscribe stop sys) f
  run-Follows s0 (other_start ∷ ts) sys f =
      run-Follows s0 ts (turn loads c subscribe other_start sys) f

  -- From the test of the loop, whatever the order of turns and signals: where the thread has ended,
  -- its result and its state are those of `Kafka.start` for some number of rounds.
  pub run-start :
      (sys : System loads c subscribe) (ts : List Turn) (r : Result (Unit {0}))
      → sys.position ≡ at_test
      → (run loads c subscribe ts sys).position ≡ ended r
      → (n : ℕ) × (start loads c n sys.state ≡ (r, (run loads c subscribe ts sys).state))
  unfolding Follows Reaches
  run-start sys ts r first last =
      subst (λ p. Follows sys.state p (run loads c subscribe ts sys).state) last
        (run-Follows sys.state ts sys (subst (λ p. Follows sys.state p sys.state) (sym first) here))
