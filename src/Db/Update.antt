-- ===== src/Db/Update.antt =====
-- Changing a database, and its contents (lib/xdg-app-db.c).
-- `if (array) … else …`: the id is in the array of the app afterwards.
use xdg_app.Db.Entry.{Entry, entry_list_apps}
use xdg_app.Db.Queries.{db_lookup}
use xdg_app.Db.State.{Db}
use xdg_app.Db.Strings.{add_string, less, remove_string, sort_strv}
use xdg_app.Prelude.{
  Bytes, List, Option, Table, [], bytes_eq, direct_eq, if◌then◌else◌, lookup, none, replace, some,
  str_eq, true, ◌∷◌,
}

unfoldable pub put_string : Bytes → Bytes → Table Bytes (List Bytes) → Table Bytes (List Bytes)
put_string app id ht = elim (lookup app ht) [
  | none ↦ replace app (id ∷ []) ht
  | some array ↦ replace app (add_string id array) ht
]

-- `if (array)`: the id is not in the array of the app afterwards.
unfoldable pub take_string : Bytes → Bytes → Table Bytes (List Bytes) → Table Bytes (List Bytes)
take_string app id ht = elim (lookup app ht) [
  | none ↦ ht
  | some array ↦ replace app (remove_string id array) ht
]

module _ {V : Type 0} where
  unfoldable pub add_app_id : Db V → Bytes → Bytes → Db V
  unfolding put_string take_string
  add_app_id self app id = record self {
    app_additions = put_string app id self.app_additions;
    app_removals = take_string app id self.app_removals;
  }

  unfoldable pub remove_app_id : Db V → Bytes → Bytes → Db V
  unfolding put_string take_string
  remove_app_id self app id = record self {
    app_additions = take_string app id self.app_additions;
    app_removals = put_string app id self.app_removals;
  }

  -- The loop of xdg_app_db_set_entry: `a` and `b` are what is left of the old and new applications.
  unfoldable pub merge_loop : Db V → Bytes → List Bytes → List Bytes → Db V
  unfolding add_app_id remove_app_id
  merge_loop self id [] [] = self
  merge_loop self id [] (new ∷ b) = merge_loop (add_app_id self new id) id [] b
  merge_loop self id (old ∷ a) [] = merge_loop (remove_app_id self old id) id a []
  merge_loop self id (old ∷ a) (new ∷ b) =
      let both = merge_loop self id a b in
      let removed = merge_loop (remove_app_id self old id) id a (new ∷ b) in
      let added = merge_loop (add_app_id self new id) id (old ∷ a) b in
      if str_eq old new then both else if less old new then removed else added

  -- The applications of an entry that may be NULL, sorted.
  unfoldable pub sorted_apps : Option (Entry V) → List Bytes
  sorted_apps none = []
  sorted_apps (some entry) = sort_strv (entry_list_apps entry)

  -- xdg_app_db_set_entry; without an entry, g_variant_ref warns and the table holds NULL.
  unfoldable pub set_entry : Db V → Bytes → Option (Entry V) → Db V
  unfolding merge_loop sorted_apps
  set_entry self id entry =
      let old_entry = db_lookup self id in
      merge_loop (record self { dirty = true; main_updates = replace id entry self.main_updates })
        id (sorted_apps old_entry) (sorted_apps entry)
