-- ===== src/Schema/Memory.antt =====
-- A database in memory, whose operations fail where a name is taken or a table is missing.
use global_payments_api.Prelude.{refl, Option, none, some}
use global_payments_api.Python.Raised.{Raised, database_error, ok, err, Exec}
use global_payments_api.Schema.{
  Operation, create_table, create_index, drop_table, Catalogue, effect, IsAllowed, Database,
  LeadsTo, IsDatabase,
}

abbrev refused : Raised
refused = record { kind = database_error; text = "database error" }

abbrev if_free {ℓ} : {A : Type ℓ} → Option A → Catalogue → Exec Catalogue (Unit {0})
if_free none s old = (ok tt, s)
if_free (some a) s old = (err refused, old)

abbrev if_there {ℓ} :
    {A : Type ℓ} → Option A → Exec Catalogue (Unit {0}) → Exec Catalogue (Unit {0})
if_there none rest old = (err refused, old)
if_there (some a) rest old = rest old

abbrev perform : Operation → Exec Catalogue (Unit {0})
perform (create_table n cs) s = if_free (s.table n) (effect (create_table n cs) s) s
perform (create_index i n cols) s =
    if_there (s.table n) (if_free (s.index i) (effect (create_index i n cols) s)) s
perform (drop_table n) s = if_there (s.table n) (λ old. (ok tt, effect (drop_table n) s)) s

abbrev pub in_memory : Database
in_memory = record { World = Catalogue; perform = perform; catalogue = λ s. s }

perform-LeadsTo :
    (op : Operation) (s : Catalogue)
    → IsAllowed op s
    → LeadsTo in_memory (perform op s) (effect op s)
perform-LeadsTo (create_table n cs) s h = rw h (_, refl, refl)
perform-LeadsTo (create_index i n cols) s (free, (cs, e)) = rw (e, free) (_, refl, refl)
perform-LeadsTo (drop_table n) s (cs, e) = rw e (_, refl, refl)

pub in_memory-IsDatabase : IsDatabase in_memory
in_memory-IsDatabase = record { perform_lem = perform-LeadsTo }
