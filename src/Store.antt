-- ===== src/Store.antt =====
-- session-helper/xdg-app-permission-store.c: the service that serves databases, one for a table.
pub mod Handlers
pub mod Writes
pub mod Serves
pub mod Liveness
pub mod Spec
pub mod Changes
pub mod Refines
mod Tests
use xdg_app.Db.Entry.{AppPermissions}
use xdg_app.Db.Save.{update}
use xdg_app.Db.State.{Db, Storage, db_new, failed, opened}
use xdg_app.Prelude.{
  Bool, Bytes, List, Option, Table, [], bytes_eq, direct_eq, false, if◌then◌else◌, lookup, none,
  not, replace, some, true, ℕ, ◌∷◌,
}

-- Invocations are numbers. `writing` is set while a save is under way.
pub record StoreTable (V : Type 0) : Type 0 where
  pub name : Bytes
  pub db : Db V
  pub outstanding_writes : List ℕ
  pub current_writes : List ℕ
  pub writing : Bool

pub data StoreError : Type 0 where
  store_failed not_found : StoreError

-- What an invocation is answered with.
pub data Answer (V : Type 0) : Type 0 where
  listed_ids : List Bytes → Answer V
  found_entry : AppPermissions → V → Answer V
  written : Answer V
  refused : StoreError → Answer V

abbrev pub Answers : Type 0 → Type 0
Answers V = List (ℕ × Answer V)

-- The file of a table, below the data directory of the user, and what lies under it.
pub record Session (V : Type 0) : Type 0 where
  pub storage : Storage V
  pub table_path : Bytes → Bytes

unfoldable pub answer_all : {V : Type 0} → Bool → List ℕ → Answers V
answer_all success [] = []
answer_all success (invocation ∷ l) =
    (invocation, if success then written else refused store_failed) ∷ answer_all success l

abbrev pub with_answers :
    {V : Type 0} → Option (StoreTable V) → Answers V → Option (StoreTable V × Answers V)
with_answers none answers = none
with_answers (some table) answers = some (table, answers)

module _ {V : Type 0} (session : Session V) where
  -- The body of start_writeout, on the writes that it asserts to be none, and on the database after
  -- xdg_app_db_update; `none` is a failed assertion. The save ends with a call of writeout_done.
  unfoldable pub begin_writeout : StoreTable V → List ℕ → Option (Db V) → Option (StoreTable V)
  begin_writeout table [] none = none
  begin_writeout table [] (some db) = some (record table {
    db = db;
    current_writes = table.outstanding_writes;
    outstanding_writes = [];
    writing = true;
  })
  begin_writeout table (invocation ∷ l) db = none

  unfoldable pub start_writeout : StoreTable V → Option (StoreTable V)
  unfolding begin_writeout
  start_writeout table = begin_writeout table table.current_writes (update session.storage table.db)

  unfoldable pub ensure_writeout : StoreTable V → ℕ → Option (StoreTable V)
  unfolding start_writeout
  ensure_writeout table invocation =
      let queued = record table { outstanding_writes = invocation ∷ table.outstanding_writes } in
      if not table.writing then start_writeout queued else some queued

  -- What happens behind the answers of writeout_done.
  unfoldable pub write_next : StoreTable V → List ℕ → Option (StoreTable V)
  unfolding start_writeout
  write_next table [] = some table
  write_next table (invocation ∷ l) = start_writeout table

  -- `success` is what xdg_app_db_save_content_finish returns.
  unfoldable pub writeout_done : StoreTable V → Bool → Option (StoreTable V × Answers V)
  unfolding write_next answer_all
  writeout_done table success =
      let idle = record table { current_writes = []; writing = false } in
      with_answers (write_next idle table.outstanding_writes)
        (answer_all success table.current_writes)

  -- The table, new ones with the other tables, or the failure to load its file.
  unfoldable pub lookup_table :
      Table Bytes (StoreTable V) → Bytes → Option (Table Bytes (StoreTable V) × StoreTable V)
  lookup_table tables name = elim (lookup name tables) [
    | some table ↦ some (tables, table)
    | none ↦ elim (db_new session.storage (some (session.table_path name)) false) [
      | failed error ↦ none
      | opened db ↦
          let table : StoreTable V = record {
            name = name;
            db = db;
            outstanding_writes = [];
            current_writes = [];
            writing = false;
          } in
          some (replace name table tables, table)
    ]
  ]
