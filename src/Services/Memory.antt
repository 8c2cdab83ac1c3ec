-- ===== src/Services/Memory.antt =====
-- Services in memory, which do what is assumed of a session: they show that it can be met. A database
-- that refuses records, one whose commits fail, and a missing file can be set up.
use global_payments_api.Prelude.{
  ℕ, String, ◌≡◌, refl, inl, inr, Bool, true, false, ◌||◌, List, [], ◌++◌, Option, none, some,
}
use global_payments_api.Python.Raised.{Result, ok, err, Raised, no_such_key, database_error, Exec}
use global_payments_api.Models.{ReconciliationRun, ReconciliationRecord}
use global_payments_api.Services.{
  CanCommit, View, Payment, Services, IsSession, committed, find_run, attempts, Fails, AfterCommit,
  AfterBulkSave, SameStored,
}

pub record Memory (F : Type 0) : Type 0 where
  pub tables : View F
  pub broken : Bool
  pub refuses : Bool
  pub clock : ℕ
  pub payments : List Payment
  pub file : Option String

abbrev refused : Raised
refused = record { kind = database_error; text = "database error" }

abbrev pub body_of : Option String → Result String
body_of none = err (record { kind = no_such_key; text = "NoSuchKey" })
body_of (some s) = ok s

or_false : (a b : Bool) → a ≡ false → b ≡ false → (a || b) ≡ false
or_false a b h k = rw (h, k) refl

or_true : (a b : Bool) → b ≡ true → (a || b) ≡ true
or_true true b e = refl
or_true false b e = e

module _ {F : Type 0} where
  abbrev taken : Option (ReconciliationRun F) → Bool
  taken none = false
  taken (some r) = true

  -- The key of a new run is taken.
  abbrev clash : Bool → Option (ReconciliationRun F) → List (ReconciliationRun F) → Bool
  clash false t runs = false
  clash true none runs = false
  clash true (some r) runs = taken (find_run r.id runs)

  -- After a rollback.
  abbrev unstaged : View F → View F
  unstaged v = record v { staged = [] }

  abbrev commit_if : Bool → Exec (Memory F) (Unit {0})
  commit_if true m = (err refused, record m { tables = unstaged m.tables })
  commit_if false m = (ok tt, record m { tables = committed m.tables })

  abbrev pub save_if : Bool → List (ReconciliationRecord F) → Exec (Memory F) (Unit {0})
  save_if true rs m = (err refused, record m { broken = true; tables = unstaged m.tables })
  save_if false rs m =
      (ok tt, record m { tables = record m.tables { staged = m.tables.staged ++ rs } })

  abbrev blocked : Memory F → Bool
  blocked m = m.broken || clash m.tables.fresh m.tables.tracked m.tables.runs

  abbrev pub memory : Services F
  memory = record {
    World = Memory F;
    add_run = λ r m. record m { tables = record m.tables { tracked = some r; fresh = true } };
    set_run = λ r m. record m { tables = record m.tables { tracked = some r } };
    bulk_save = λ rs m. save_if m.refuses rs m;
    commit = λ m. commit_if (blocked m) m;
    query_payments = λ d m. (ok m.payments, m);
    get_object = λ b k m. (body_of m.file, m);
    put_object = λ b k t m. (ok tt, m);
    retry = λ f m. attempts 3 f m;
    now = λ m. m.clock;
    view = λ m. m.tables;
    needs_rollback = λ m. m.broken;
  }

  same : (v : View F) → SameStored v (unstaged v)
  same v = record { runs = refl; records = refl; nothing_staged = refl }

  pub save_if-lem :
      (b : Bool) (rs : List (ReconciliationRecord F)) (m : Memory F)
      → AfterBulkSave memory rs m.tables (save_if b rs m)
  save_if-lem true rs m = (same m.tables, refl)
  save_if-lem false rs m = refl

  commit_if-lem : (b : Bool) (m : Memory F) → AfterCommit memory m.tables (commit_if b m)
  commit_if-lem true m = same m.tables
  commit_if-lem false m = refl

  commit_if-true : (b : Bool) (m : Memory F) → b ≡ true → Fails (commit_if b m)
  commit_if-true true m e = tt
  commit_if-true false m e = cc

  clash-true :
      (f : Bool) (t : Option (ReconciliationRun F)) (runs : List (ReconciliationRun F))
      (r q : ReconciliationRun F)
      → t ≡ some r
      → f ≡ true
      → find_run r.id runs ≡ some q
      → clash f t runs ≡ true
  clash-true f t runs r q et ef e = rw (et, ef, e) refl

  pub memory-IsSession : IsSession memory
  memory-IsSession = record {
    view-add_run = λ r w. refl;
    view-set_run = λ r w. refl;
    rollback-set_run = λ r w. refl;
    bulk_save_lem = λ rs w. save_if-lem w.refuses rs w;
    commit_lem = λ w. commit_if-lem (blocked w) w;
    commit_blocked = λ w h. commit_if-true (blocked w) w (rw h);
    commit_clash = λ w r q et ef e.
        commit_if-true (blocked w) w (
          or_true w.broken _
            (clash-true w.tables.fresh w.tables.tracked w.tables.runs r q et ef e));
    retry_lem = λ f w. refl;
    view-query = λ d w. refl;
    view-get = λ b k w. refl;
    view-put = λ b k t w. refl;
  }

  -- A database that refuses every record.
  abbrev pub refusing : Services F
  refusing = record memory { bulk_save = λ rs m. save_if true rs m }

  pub refusing-IsSession : IsSession refusing
  refusing-IsSession = record {
    view-add_run = λ r w. refl;
    view-set_run = λ r w. refl;
    rollback-set_run = λ r w. refl;
    bulk_save_lem = λ rs w. (same w.tables, refl);
    commit_lem = memory-IsSession.commit_lem;
    commit_blocked = memory-IsSession.commit_blocked;
    commit_clash = memory-IsSession.commit_clash;
    retry_lem = λ f w. refl;
    view-query = λ d w. refl;
    view-get = λ b k w. refl;
    view-put = λ b k t w. refl;
  }

  save_if-refuses :
      (b : Bool) (rs : List (ReconciliationRecord F)) (m : Memory F)
      → (save_if b rs m).1.refuses ≡ m.refuses
  save_if-refuses true rs m = refl
  save_if-refuses false rs m = refl

  commit_if-refuses : (b : Bool) (m : Memory F) → (commit_if b m).1.refuses ≡ m.refuses
  commit_if-refuses true m = refl
  commit_if-refuses false m = refl

  -- Whether the database refuses records does not change.
  pub bulk_save-refuses :
      (rs : List (ReconciliationRecord F)) (w : Memory F)
      → (memory.bulk_save rs w).1.refuses ≡ w.refuses
  bulk_save-refuses rs w = save_if-refuses w.refuses rs w

  pub commit-refuses : (w : Memory F) → (memory.commit w).1.refuses ≡ w.refuses
  commit-refuses w = commit_if-refuses (blocked w) w

  clash-false :
      (f : Bool) (t : Option (ReconciliationRun F)) (runs : List (ReconciliationRun F))
      (r : ReconciliationRun F)
      → t ≡ some r
      → find_run r.id runs ≡ none
      → clash f t runs ≡ false
  clash-false false t runs r e free = refl
  clash-false true t runs r e free = rw (e, free) refl

  not_blocked : (w : Memory F) → w.broken ≡ false → CanCommit w.tables → blocked w ≡ false
  not_blocked w h (inl settled) = or_false w.broken _ h (rw settled refl)
  not_blocked w h (inr (r, e, free)) =
      or_false w.broken _ h (clash-false w.tables.fresh w.tables.tracked w.tables.runs r e free)

  commit_if-false :
      (b : Bool) (w : Memory F)
      → b ≡ false
      → commit_if b w ≡ (ok tt, record w { tables = committed w.tables })
  commit_if-false true w e = cc
  commit_if-false false w e = refl

  -- A commit that is not blocked succeeds.
  pub commit-succeeds :
      (w : Memory F)
      → w.broken ≡ false
      → CanCommit w.tables
      → memory.commit w ≡ (ok tt, record w { tables = committed w.tables })
  commit-succeeds w h can = commit_if-false (blocked w) w (not_blocked w h can)

  pub save_if-false :
      (b : Bool) (rs : List (ReconciliationRecord F)) (w : Memory F)
      → b ≡ false
      → save_if b rs w
        ≡ (ok tt, record w { tables = record w.tables { staged = w.tables.staged ++ rs } })
  save_if-false true rs w e = cc
  save_if-false false rs w e = refl
