-- ===== src/Db/Queries.antt =====
-- What a database answers (lib/xdg-app-db.c).
-- The names of a table that may be NULL.
use xdg_app.Db.Entry.{Entry, Variants, get_data, strv_or_empty}
use xdg_app.Db.State.{Db, GvdbTable}
use xdg_app.Db.Strings.{len_is_zero, str_ptr_array_contains}
use xdg_app.Prelude.{
  Bool, Bytes, List, Option, Table, [], bytes_eq, direct_eq, false, if◌then◌else◌, is_some, lookup,
  none, not, some, true, ◌&&◌, ◌++◌, ◌∷◌,
}
use xdg_app.Proxy.CommandLine.{main}

abbrev pub names_of : {A : Type 0} → Option (GvdbTable A) → List Bytes
names_of none = []
names_of (some table) = table.names

abbrev pub value_of : {A : Type 0} → Option (GvdbTable A) → Bytes → Option A
value_of none key = none
value_of (some table) key = table.value key

-- The ids of an application table that no removal names.
unfoldable pub not_removed : Option (List Bytes) → List Bytes → List Bytes
not_removed none ids = ids
not_removed (some removals) [] = []
not_removed (some removals) (id ∷ ids) =
    let res = not_removed (some removals) ids in
    if not (str_ptr_array_contains removals id) then id ∷ res else res

-- Whether the inner loop of xdg_app_db_list_apps meets an id that is not removed.
unfoldable pub some_left : Option (List Bytes) → List Bytes → Bool
some_left removals [] = false
some_left none (id ∷ ids) = true
some_left (some removals) (id ∷ ids) =
    let rest = some_left (some removals) ids in
    if not (str_ptr_array_contains removals id) then true else rest

unfoldable pub app_update_empty : Table Bytes (List Bytes) → Bytes → Bool
app_update_empty ht app = len_is_zero (strv_or_empty (lookup app ht))

-- The first loop of xdg_app_db_list_apps.
unfoldable pub added_apps : Table Bytes (List Bytes) → List Bytes
added_apps [] = []
added_apps ((key, value) ∷ iter) =
    let res = added_apps iter in if not (len_is_zero value) then key ∷ res else res

module _ {V : Type 0} where
  -- The first loop of xdg_app_db_list_ids, and the second.
  unfoldable pub updated_ids : Table Bytes (Option (Entry V)) → List Bytes
  updated_ids [] = []
  updated_ids ((key, none) ∷ iter) = updated_ids iter
  updated_ids ((key, some value) ∷ iter) = key ∷ updated_ids iter

  unfoldable pub main_ids : Table Bytes (Option (Entry V)) → List Bytes → List Bytes
  main_ids main_updates [] = []
  main_ids main_updates (id ∷ ids) =
      let res = main_ids main_updates ids in
      if is_some (lookup id main_updates) then res else id ∷ res

  -- xdg_app_db_list_ids
  unfoldable pub list_ids : Db V → List Bytes
  unfolding updated_ids main_ids
  list_ids self =
      updated_ids self.main_updates ++ main_ids self.main_updates (names_of self.main_table)

  abbrev pub updated_or : Option (Option (Entry V)) → Option (Entry V) → Option (Entry V)
  updated_or none main = main
  updated_or (some value) main = value

  -- xdg_app_db_lookup
  unfoldable pub db_lookup : Db V → Bytes → Option (Entry V)
  db_lookup self id = updated_or (lookup id self.main_updates) (value_of self.main_table id)

  -- xdg_app_db_list_ids_by_app
  unfoldable pub list_ids_by_app : Db V → Bytes → List Bytes
  unfolding not_removed
  list_ids_by_app self app =
      strv_or_empty (lookup app self.app_additions)
      ++ not_removed (lookup app self.app_removals) (strv_or_empty (value_of self.app_table app))

  -- The second loop of xdg_app_db_list_apps.
  unfoldable pub main_apps : Db V → List Bytes → List Bytes
  unfolding app_update_empty some_left
  main_apps self [] = []
  main_apps self (app ∷ apps) =
      let res = main_apps self apps in
      if app_update_empty self.app_additions app
        && some_left (lookup app self.app_removals) (strv_or_empty (value_of self.app_table app))
      then app ∷ res
      else res

  -- xdg_app_db_list_apps
  unfoldable pub list_apps : Db V → List Bytes
  unfolding added_apps main_apps
  list_apps self = added_apps self.app_additions ++ main_apps self (names_of self.app_table)

  -- The loop of xdg_app_db_list_ids_by_value.
  unfoldable pub ids_with : ⦃g : Variants V⦄ → Db V → V → List Bytes → List Bytes
  unfolding db_lookup get_data
  ids_with ⦃g⦄ self value [] = []
  ids_with ⦃g⦄ self value (id ∷ ids) =
      let res = ids_with self value ids in
      elim (db_lookup self id) [
        | none ↦ res
        | some entry ↦ if g.variant_equal value (get_data entry) then id ∷ res else res
      ]

  -- xdg_app_db_list_ids_by_value
  unfoldable pub list_ids_by_value : ⦃g : Variants V⦄ → Db V → V → List Bytes
  unfolding ids_with list_ids
  list_ids_by_value self value = ids_with self value (list_ids self)

  -- xdg_app_db_is_dirty
  unfoldable pub is_dirty : Db V → Bool
  is_dirty self = self.dirty

  -- xdg_app_db_get_path
  unfoldable pub get_path : Db V → Option Bytes
  get_path self = self.path

  -- xdg_app_db_get_content
  unfoldable pub get_content : Db V → Option Bytes
  get_content self = self.gvdb_contents
