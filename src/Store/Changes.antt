-- ===== src/Store/Changes.antt =====
-- What the methods do to the entries of their table (session-helper/xdg-app-permission-store.c).
use xdg_app.Db.Entry.{Entry, Variants, entry_new, set_app_permissions}
use xdg_app.Db.Index.Agrees.{db_lookup-set_entry}
use xdg_app.Db.Queries.{db_lookup}
use xdg_app.Db.Save.{install, install_apps, install_contents, update}
use xdg_app.Db.Save.Reopen.{contents-Alike}
use xdg_app.Db.State.{Db, GvdbFile}
use xdg_app.Db.Update.{set_entry}
use xdg_app.Prelude.{
  Bool, Bytes, List, Option, Table, [], arith, bytes_eq, direct_eq, false, if_both, if◌then◌else◌,
  none, not, option_both, refl, some, str_eq, str_eq_iff, true, ℕ, ◌∙◌, ◌∷◌, ◌≡◌,
}
use xdg_app.Store.{
  Answers, Session, StoreTable, begin_writeout, ensure_writeout, not_found, refused, start_writeout,
  with_answers,
}
use xdg_app.Store.Handlers.{
  Handled, Request, add_all, answer, delete_request, entry_or_new, entry_with_value, handle_delete,
  handle_list, handle_lookup, handle_set, handle_set_permission, handle_set_value, handle_table,
  list_request, lookup_request, may_write, set_permission_request, set_request, set_value_request,
  write_entry, write_new,
}

-- What a database holds, without its tables.
abbrev pub Entries : Type 0 → Type 0
Entries V = Bytes → Option (Entry V)

module _ {V : Type 0} where
  abbrev pub put : Bytes → Option (Entry V) → Entries V → Entries V
  put id entry m j = if str_eq id j then entry else m j

  -- The entries after each method, in the words of the handlers.
  abbrev pub entries_after : ⦃g : Variants V⦄ → Request V → Entries V → Entries V
  entries_after list_request m = m
  entries_after (lookup_request id) m = m
  entries_after (delete_request id) m = put id none m
  entries_after (set_request create id app_permissions value) m =
      if may_write (m id) create
      then put id (add_all (entry_new (some value)) app_permissions) m
      else m
  entries_after (set_permission_request create id app permissions) m =
      if may_write (m id) create
      then put id (set_app_permissions (entry_or_new (m id)) app (some permissions)) m
      else m
  entries_after ⦃g⦄ (set_value_request create id value) m =
      if may_write (m id) create
      then put id (some (entry_with_value (m id) (g.boxed value))) m
      else m

  -- The map of what a call returns, if it returns.
  abbrev MapsDb : Entries V → Option (Db V) → Type 0
  MapsDb m none = Unit
  MapsDb m (some db) = (j : Bytes) → db_lookup db j ≡ m j

  abbrev MapsTable : Entries V → Option (StoreTable V) → Type 0
  MapsTable m none = Unit
  MapsTable m (some table) = (j : Bytes) → db_lookup table.db j ≡ m j

  abbrev pub Changes : Entries V → Handled V → Type 0
  Changes m none = Unit
  Changes m (some (table, answers)) = (j : Bytes) → db_lookup table.db j ≡ m j

  install-MapsDb :
      (self : Db V) (contents : Bytes) (file : Option (GvdbFile V))
      → MapsDb (db_lookup self) (install self contents file)
  unfolding install
  install-MapsDb self contents none = tt
  install-MapsDb self contents (some file) =
      (contents-Alike self (some file) (some contents) false).same_lookup

  module _ (session : Session V) where
    install_apps-MapsDb :
        (self : Db V) (apps_h : Option (Table Bytes (List Bytes)))
        → MapsDb (db_lookup self) (install_apps session.storage self apps_h)
    unfolding install_apps install_contents
    install_apps-MapsDb self none = tt
    install_apps-MapsDb self (some apps_h) = install-MapsDb self _ _

    begin_writeout-MapsTable :
        (table : StoreTable V) (l : List ℕ) (db : Option (Db V))
        → MapsDb (db_lookup table.db) db
        → MapsTable (db_lookup table.db) (begin_writeout session table l db)
    unfolding begin_writeout
    begin_writeout-MapsTable table [] none h = tt
    begin_writeout-MapsTable table [] (some db) h = h
    begin_writeout-MapsTable table (x ∷ l) db h = tt

    ensure_writeout-MapsTable :
        (table : StoreTable V) (invocation : ℕ)
        → MapsTable (db_lookup table.db) (ensure_writeout session table invocation)
    unfolding ensure_writeout start_writeout update
    ensure_writeout-MapsTable table invocation =
        if_both (MapsTable (db_lookup table.db)) (not table.writing)
          (begin_writeout-MapsTable
            (record table { outstanding_writes = invocation ∷ table.outstanding_writes })
            table.current_writes _ (install_apps-MapsDb table.db _))
          (λ j. refl)

    same_maps :
        (m m' : Entries V) (table : Option (StoreTable V))
        → ((j : Bytes) → m j ≡ m' j)
        → MapsTable m table
        → MapsTable m' table
    same_maps m m' none e h = tt
    same_maps m m' (some table) e h = λ j. h j ∙ e j

    with_answers-Changes :
        (m : Entries V) (table : Option (StoreTable V)) (answers : Answers V)
        → MapsTable m table
        → Changes m (with_answers table answers)
    with_answers-Changes m none answers h = tt
    with_answers-Changes m (some table) answers h = h

    write_entry-Changes :
        (table : StoreTable V) (invocation : ℕ) (id : Bytes) (entry : Option (Entry V))
        → Changes
            (put id entry (db_lookup table.db))
            (write_entry session table invocation id entry)
    unfolding write_entry
    write_entry-Changes table invocation id entry =
        let changed = record table { db = set_entry table.db id entry } in
        with_answers-Changes _ (ensure_writeout session changed invocation) [] (
          same_maps (db_lookup changed.db) (put id entry (db_lookup table.db)) _
            (db_lookup-set_entry table.db id entry) (ensure_writeout-MapsTable changed invocation))

    write_new-Changes :
        (table : StoreTable V) (invocation : ℕ) (id : Bytes) (entry : Option (Entry V))
        → Changes (put id entry (db_lookup table.db)) (write_new session table invocation id entry)
    unfolding write_new
    write_new-Changes table invocation id none = tt
    write_new-Changes table invocation id (some entry) =
        write_entry-Changes table invocation id (some entry)

    both_if :
        (R : Entries V → Handled V → Type 0) (test : Bool) {m m' : Entries V} {h h' : Handled V}
        → R m h
        → R m' h'
        → R (if test then m else m') (if test then h else h')
    both_if R true x y = x
    both_if R false x y = y

    delete-Changes :
        (table : StoreTable V) (invocation : ℕ) (id : Bytes) (found : Option (Entry V))
        → db_lookup table.db id ≡ found
        → Changes (put id none (db_lookup table.db)) (elim found [
          | none ↦ answer table invocation (refused not_found)
          | some entry ↦ write_entry session table invocation id none
        ])
    delete-Changes table invocation id none e = λ j. ground (arith, str_eq_iff id j, e)
    delete-Changes table invocation id (some entry) e = write_entry-Changes table invocation id none

    pub handle_table-Changes :
        ⦃g : Variants V⦄ (table : StoreTable V) (invocation : ℕ) (request : Request V)
        → Changes
            (entries_after request (db_lookup table.db))
            (handle_table session table invocation request)
    unfolding handle_table handle_list handle_lookup handle_delete handle_set handle_set_permission
        handle_set_value
    handle_table-Changes table invocation list_request = λ j. refl
    handle_table-Changes table invocation (lookup_request id) =
        option_both (Changes (db_lookup table.db)) (db_lookup table.db id) (λ j. refl)
          (λ entry j. refl)
    handle_table-Changes table invocation (delete_request id) =
        delete-Changes table invocation id (db_lookup table.db id) refl
    handle_table-Changes table invocation (set_request create id app_permissions value) =
        both_if Changes (may_write (db_lookup table.db id) create)
          (write_new-Changes table invocation id (add_all (entry_new (some value)) app_permissions))
          (λ j. refl)
    handle_table-Changes table invocation (set_permission_request create id app permissions) =
        both_if Changes (may_write (db_lookup table.db id) create)
          (write_new-Changes table invocation id
            (set_app_permissions (entry_or_new (db_lookup table.db id)) app (some permissions)))
          (λ j. refl)
    handle_table-Changes ⦃g⦄ table invocation (set_value_request create id value) =
        both_if Changes (may_write (db_lookup table.db id) create)
          (write_entry-Changes table invocation id
            (some (entry_with_value (db_lookup table.db id) (g.boxed value))))
          (λ j. refl)
