-- ===== src/Db/Save.antt =====
-- The contents of a database: making, saving and printing them (lib/xdg-app-db.c).
pub mod Builds
pub mod Reopen
pub mod Saved
pub mod Reached
use xdg_app.Db.Entry.{Entry}
use xdg_app.Db.Queries.{db_lookup, list_apps, list_ids, list_ids_by_app}
use xdg_app.Db.State.{Db, GvdbFile, Storage}
use xdg_app.Db.Strings.{len_is_zero, sort_strv}
use xdg_app.Prelude.{
  Bool, Bytes, List, Option, Table, [], bytes_eq, direct_eq, false, if◌then◌else◌, inl, inr, none,
  replace, some, ◌∷◌, ◌⊎◌,
}

module _ {V : Type 0} where
  -- The body of the first loop of xdg_app_db_update, and the loop.
  unfoldable pub insert_entry :
      Bytes → Option (Entry V) → Table Bytes (Entry V) → Table Bytes (Entry V)
  insert_entry id none main_h = main_h
  insert_entry id (some entry) main_h = replace id entry main_h

  unfoldable pub build_main : Db V → List Bytes → Table Bytes (Entry V) → Table Bytes (Entry V)
  unfolding insert_entry
  build_main self [] main_h = main_h
  build_main self (id ∷ ids) main_h =
      build_main self ids (insert_entry id (db_lookup self id) main_h)

  -- The second loop; `none` is the failed assertion on an application without ids.
  unfoldable pub build_apps :
      Db V → List Bytes → Table Bytes (List Bytes) → Option (Table Bytes (List Bytes))
  unfolding list_ids_by_app
  build_apps self [] apps_h = some apps_h
  build_apps self (app ∷ apps) apps_h =
      let app_ids = sort_strv (list_ids_by_app self app) in
      let rest = build_apps self apps (replace app app_ids apps_h) in
      if len_is_zero app_ids then none else rest

  unfoldable pub install : Db V → Bytes → Option (GvdbFile V) → Option (Db V)
  install self new_contents none = none
  install self new_contents (some new_gvdb) =
      some (record self { gvdb = some new_gvdb; gvdb_contents = some new_contents; dirty = false })

  unfoldable pub install_contents : Storage V → Db V → Bytes → Option (Db V)
  unfolding install
  install_contents storage self new_contents =
      install self new_contents (storage.table_new_from_bytes new_contents)

  unfoldable pub install_apps : Storage V → Db V → Option (Table Bytes (List Bytes)) → Option (Db V)
  unfolding install_contents build_main
  install_apps storage self none = none
  install_apps storage self (some apps_h) =
      install_contents storage self
        (storage.get_content (build_main self (list_ids self) []) apps_h)

  -- xdg_app_db_update; `none` is a failed assertion.
  unfoldable pub update : Storage V → Db V → Option (Db V)
  unfolding build_apps install_apps
  update storage self = install_apps storage self (build_apps self (list_apps self) [])

pub data SaveError : Type 0 where
  no_content no_path write_failed : SaveError

-- What is checked before the contents go to the file: the path and the contents, or the error.
unfoldable pub save_request : {V : Type 0} → Db V → SaveError ⊎ (Bytes × Bytes)
save_request self = elim self.gvdb_contents [
  | none ↦ inl no_content
  | some content ↦ elim self.path [ none ↦ inl no_path | some path ↦ inr (path, content) ]
]

-- xdg_app_db_save_content
unfoldable pub save_content : {V : Type 0} → Storage V → Db V → Option SaveError
unfolding save_request
save_content storage self = elim (save_request self) [
  | inl error ↦ some error
  | inr (path, content) ↦ if storage.set_contents path content then none else some write_failed
]

-- A task of g_task_new: it has an error, or a file is being replaced.
pub data SaveTask : Type 0 where
  task_failed : SaveError → SaveTask
  replacing : Bytes → Bytes → SaveTask

-- xdg_app_db_save_content_async
unfoldable pub save_content_async : {V : Type 0} → Db V → SaveTask
unfolding save_request
save_content_async self = elim (save_request self) [
  | inl error ↦ task_failed error
  | inr (path, content) ↦ replacing path content
]

-- What the task returns once the file has been replaced, or not.
unfoldable pub save_content_callback : SaveTask → Bool → Option SaveError
save_content_callback (task_failed error) replaced = some error
save_content_callback (replacing path content) replaced =
    if replaced then none else some write_failed
