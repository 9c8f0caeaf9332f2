-- ===== src/Store/Tests.antt =====
-- The service at work.
use xdg_app.Db.Entry.{Entry, Variants, entry_list_permissions, get_data}
use xdg_app.Db.Queries.{db_lookup}
use xdg_app.Db.Tests.{app_name, bin_name, id_x, id_y, numbers, read_name}
use xdg_app.Db.Tests.Codec.{test_storage, test_storage-Stores}
use xdg_app.Db.Tests.Examples.{one, one-Consistent}
use xdg_app.Prelude.{Option, [], false, none, refl, some, true, ℕ, ◌+◌, ◌∷◌, ◌≡◌, ◌≤◌}
use xdg_app.Store.{Answers, Session, StoreTable, writeout_done}
use xdg_app.Store.Handlers.{delete_request, handle_table, set_permission_request}
use xdg_app.Store.Liveness.{no_calls, writeout_done-twice}
use xdg_app.Store.Refines.{Maps, handle_table-Maps}
use xdg_app.Store.Serves.{Served, handle_table-Served}
use xdg_app.Store.Spec.{IsShown, Kept, spec}
use xdg_app.Store.Writes.{Finished, TableOk, answered, times, waiting, writeout_done-Finished}

instance abbrev stored : Variants ℕ
stored = numbers

abbrev test_session : Session ℕ
test_session = record { storage = test_storage; table_path = λ name. 47 ∷ name }

-- Its database has one entry, and no save is under way.
abbrev idle_table : StoreTable ℕ
idle_table = record {
  name = bin_name;
  db = one;
  outstanding_writes = [];
  current_writes = [];
  writing = false;
}

-- A save is under way for call 1, and call 2 waits.
abbrev busy_table : StoreTable ℕ
busy_table = record {
  name = bin_name;
  db = one;
  outstanding_writes = 2 ∷ [];
  current_writes = 1 ∷ [];
  writing = true;
}

idle_table-TableOk : TableOk idle_table
idle_table-TableOk = record {
  no_current = λ h. refl;
  no_outstanding = λ h. refl;
  consistent = one-Consistent;
}

busy_table-TableOk : TableOk busy_table
busy_table-TableOk = record {
  no_current = λ h. cc;
  no_outstanding = λ h. cc;
  consistent = one-Consistent;
}

handle_table-Served_example :
    (table' : StoreTable ℕ) × (answers : Answers ℕ) × (handle_table test_session idle_table 3
        (delete_request id_x)
      ≡ some (table', answers))
    × Served test_session test_storage-Stores 3 idle_table table' answers
handle_table-Served_example =
    handle_table-Served test_session test_storage-Stores idle_table 3 (delete_request id_x)
      idle_table-TableOk

-- What the database holds, as a map.
abbrev kept_of : Option (Entry ℕ) → Option (Kept ℕ)
kept_of none = none
kept_of (some entry) =
    some (record { kept_value = get_data entry; grants = entry_list_permissions entry })

kept_of-IsShown : (entry : Option (Entry ℕ)) → IsShown (kept_of entry) entry
kept_of-IsShown none = tt
kept_of-IsShown (some entry) = (refl, λ app. refl)

handle_table-Maps_example :
    Maps
      (spec
        (set_permission_request true id_y app_name (read_name ∷ []))
        (λ j. kept_of (db_lookup one j)))
      (handle_table test_session idle_table 3
        (set_permission_request true id_y app_name (read_name ∷ [])))
handle_table-Maps_example =
    handle_table-Maps test_session test_storage-Stores idle_table 3
      (set_permission_request true id_y app_name (read_name ∷ [])) (λ j. kept_of (db_lookup one j))
      idle_table-TableOk (λ j. kept_of-IsShown (db_lookup one j))

-- The first save that ends, and the second.
first_done :
    (table' : StoreTable ℕ) × (answers : Answers ℕ) × (writeout_done test_session busy_table true
      ≡ some (table', answers))
    × Finished test_session test_storage-Stores busy_table table' answers
first_done =
    writeout_done-Finished test_session test_storage-Stores busy_table true busy_table-TableOk

second_done :
    (table' : StoreTable ℕ) × (answers : Answers ℕ) × (writeout_done test_session first_done.0 true
      ≡ some (table', answers))
    × Finished test_session test_storage-Stores first_done.0 table' answers
second_done =
    writeout_done-Finished test_session test_storage-Stores first_done.0 true
      first_done.3.finished_ok

writeout_done-twice_example :
    times 2 (waiting busy_table)
    ≤ times 2 (answered first_done.1) + times 2 (answered second_done.1)
writeout_done-twice_example =
    writeout_done-twice test_session test_storage-Stores busy_table busy_table first_done.0
      first_done.0 second_done.0 true true first_done.1 second_done.1 busy_table-TableOk
      (no_calls busy_table) first_done.2 (no_calls first_done.0) second_done.2 2
