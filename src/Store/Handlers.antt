-- ===== src/Store/Handlers.antt =====
-- The methods of the service (session-helper/xdg-app-permission-store.c).
use xdg_app.Db.Entry.{
  AppPermissions, Entry, Variants, entry_list_apps, entry_list_permissions, entry_modify_data,
  entry_new, get_data, set_app_permissions,
}
use xdg_app.Db.Queries.{db_lookup, list_ids}
use xdg_app.Db.Update.{set_entry}
use xdg_app.Prelude.{
  Bool, Bytes, List, Option, Table, [], bytes_eq, direct_eq, if◌then◌else◌, is_some, none, replace,
  some, ℕ, ◌||◌, ◌∷◌,
}
use xdg_app.Store.{
  Answer, Answers, Session, StoreTable, ensure_writeout, found_entry, listed_ids, lookup_table,
  not_found, refused, store_failed, with_answers,
}

-- Each handler on the table that it is about: the table afterwards and the answers.
abbrev pub Handled : Type 0 → Type 0
Handled V = Option (StoreTable V × Answers V)

module _ {V : Type 0} where
  abbrev pub answer : StoreTable V → ℕ → Answer V → Handled V
  answer table invocation reply = some (table, (invocation, reply) ∷ [])

  -- A change of an entry, and the answer when it is saved.
  unfoldable pub write_entry : Session V → StoreTable V → ℕ → Bytes → Option (Entry V) → Handled V
  unfolding ensure_writeout
  write_entry session table invocation id entry =
      with_answers
        (ensure_writeout session (record table { db = set_entry table.db id entry }) invocation) []

  unfoldable pub handle_list : StoreTable V → ℕ → Handled V
  handle_list table invocation = answer table invocation (listed_ids (list_ids table.db))

  -- The loop of handle_lookup over the applications.
  unfoldable pub permissions_of : Entry V → List Bytes → AppPermissions
  permissions_of entry [] = []
  permissions_of entry (app ∷ apps) =
      (app, entry_list_permissions entry app) ∷ permissions_of entry apps

  unfoldable pub handle_lookup : StoreTable V → ℕ → Bytes → Handled V
  unfolding permissions_of
  handle_lookup table invocation id = elim (db_lookup table.db id) [
    | none ↦ answer table invocation (refused not_found)
    | some entry ↦
        answer table invocation
          (found_entry (permissions_of entry (entry_list_apps entry)) (get_data entry))
  ]

  unfoldable pub handle_delete : Session V → StoreTable V → ℕ → Bytes → Handled V
  unfolding write_entry
  handle_delete session table invocation id = elim (db_lookup table.db id) [
    | none ↦ answer table invocation (refused not_found)
    | some entry ↦ write_entry session table invocation id none
  ]

  -- The loop of handle_set over the permissions that are given; `none` is an abort.
  unfoldable pub add_all : Entry V → AppPermissions → Option (Entry V)
  add_all new_entry [] = some new_entry
  add_all new_entry ((child_app_id, permissions) ∷ iter) =
      elim (set_app_permissions new_entry child_app_id (some permissions)) [
        | none ↦ none
        | some next_entry ↦ add_all next_entry iter
      ]

  -- Whether an entry is there, or may be made.
  unfoldable pub may_write : Option (Entry V) → Bool → Bool
  may_write old_entry create = is_some old_entry || create

  unfoldable pub write_new : Session V → StoreTable V → ℕ → Bytes → Option (Entry V) → Handled V
  unfolding write_entry
  write_new session table invocation id none = none
  write_new session table invocation id (some new_entry) =
      write_entry session table invocation id (some new_entry)

  -- The value of the argument of type v is used.
  unfoldable pub handle_set :
      ⦃g : Variants V⦄
      → Session V
      → StoreTable V
      → ℕ
      → Bool
      → Bytes
      → AppPermissions
      → V
      → Handled V
  unfolding write_new add_all may_write
  handle_set session table invocation create id app_permissions data_child =
      if may_write (db_lookup table.db id) create
      then write_new session table invocation id
          (add_all (entry_new (some data_child)) app_permissions)
      else answer table invocation (refused not_found)

  -- The entry that handle_set_permission starts from.
  unfoldable pub entry_or_new : ⦃g : Variants V⦄ → Option (Entry V) → Entry V
  entry_or_new none = entry_new none
  entry_or_new (some entry) = entry

  unfoldable pub handle_set_permission :
      ⦃g : Variants V⦄
      → Session V
      → StoreTable V
      → ℕ
      → Bool
      → Bytes
      → Bytes
      → List Bytes
      → Handled V
  unfolding write_new may_write entry_or_new
  handle_set_permission session table invocation create id app permissions =
      if may_write (db_lookup table.db id) create
      then write_new session table invocation id
          (set_app_permissions (entry_or_new (db_lookup table.db id)) app (some permissions))
      else answer table invocation (refused not_found)

  unfoldable pub entry_with_value : ⦃g : Variants V⦄ → Option (Entry V) → V → Entry V
  entry_with_value none value = entry_new (some value)
  entry_with_value (some entry) value = entry_modify_data entry (some value)

  -- The argument of type v is used as it is, so the entry holds it in one more v.
  unfoldable pub handle_set_value :
      ⦃g : Variants V⦄ → Session V → StoreTable V → ℕ → Bool → Bytes → V → Handled V
  unfolding write_entry may_write entry_with_value
  handle_set_value ⦃g⦄ session table invocation create id data_child =
      if may_write (db_lookup table.db id) create
      then write_entry session table invocation id
          (some (entry_with_value (db_lookup table.db id) (g.boxed data_child)))
      else answer table invocation (refused not_found)

-- A method call with its arguments.
pub data Request (V : Type 0) : Type 0 where
  list_request : Request V
  lookup_request delete_request : Bytes → Request V
  set_request : Bool → Bytes → AppPermissions → V → Request V
  set_permission_request : Bool → Bytes → Bytes → List Bytes → Request V
  set_value_request : Bool → Bytes → V → Request V

module _ {V : Type 0} ⦃g : Variants V⦄ (session : Session V) where
  -- The handlers that xdg_app_permission_store_start connects.
  unfoldable pub handle_table : StoreTable V → ℕ → Request V → Handled V
  unfolding handle_list handle_lookup handle_delete handle_set handle_set_permission
      handle_set_value
  handle_table table invocation list_request = handle_list table invocation
  handle_table table invocation (lookup_request id) = handle_lookup table invocation id
  handle_table table invocation (delete_request id) = handle_delete session table invocation id
  handle_table table invocation (set_request create id app_permissions value) =
      handle_set session table invocation create id app_permissions value
  handle_table table invocation (set_permission_request create id app permissions) =
      handle_set_permission session table invocation create id app permissions
  handle_table table invocation (set_value_request create id value) =
      handle_set_value session table invocation create id value

  unfoldable pub store_table :
      Table Bytes (StoreTable V)
      → Bytes
      → Handled V
      → Option (Table Bytes (StoreTable V) × Answers V)
  store_table tables name none = none
  store_table tables name (some (table, answers)) = some (replace name table tables, answers)

  -- A method call on a table, which each handler looks up first.
  unfoldable pub handle_call :
      Table Bytes (StoreTable V)
      → ℕ
      → Bytes
      → Request V
      → Option (Table Bytes (StoreTable V) × Answers V)
  unfolding lookup_table store_table handle_table
  handle_call tables invocation table_name request = elim (lookup_table session tables table_name) [
    | none ↦ some (tables, (invocation, refused store_failed) ∷ [])
    | some (tables', table) ↦ store_table tables' table_name (handle_table table invocation request)
  ]
