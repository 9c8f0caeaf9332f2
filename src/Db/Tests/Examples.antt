-- ===== src/Db/Tests/Examples.antt =====
-- The database at work.
-- A database with one entry, and no file.
use xdg_app.Db.Entry.{
  Entry, entry_list_permissions, get_data, get_permissions_variant, set_app_permissions,
}
use xdg_app.Db.Entry.Permissions.{set_app_permissions-entry_list_permissions}
use xdg_app.Db.Entry.Search.{IsSorted, get_permissions_variant-lookup}
use xdg_app.Db.Index.Agrees.{db_lookup-set_entry}
use xdg_app.Db.Index.Lists.{list_apps-list_ids_by_app}
use xdg_app.Db.Queries.{db_lookup, list_apps, list_ids_by_app}
use xdg_app.Db.Save.Reached.{Consistent, Reached, Reached-Consistent, after_set_entry, without_file}
use xdg_app.Db.Save.Saved.{Saved, update-Saved}
use xdg_app.Db.State.{
  Db, db_init, db_new, file_noent, init_from, initable_init, is_noent, load_file,
}
use xdg_app.Db.Strings.{len_is_zero, less, str_ptr_array_contains}
use xdg_app.Db.Tests.{app_name, bin_name, id_x, id_y, read_name, test_entry, test_path}
use xdg_app.Db.Tests.Codec.{test_storage, test_storage-Stores}
use xdg_app.Db.Update.{set_entry}
use xdg_app.Prelude.{
  Bytes, [], bytes_eq, direct_eq, false, if◌then◌else◌, lookup, none, not, refl, some, str_eq, ℕ,
  ◌∷◌, ◌≡◌, ◌≢◌,
}

abbrev pub start : Db ℕ
start = db_init (some test_path) false

abbrev pub one : Db ℕ
one = set_entry start id_x (some test_entry)

pub test_entry-IsSorted : IsSorted test_entry.app_permissions
unfolding less
test_entry-IsSorted = ((refl, tt), (tt, tt))

start-Reached : Reached test_storage start
unfolding db_init db_new initable_init load_file init_from is_noent str_eq
start-Reached = without_file test_path false file_noent start refl refl

one-Reached : Reached test_storage one
one-Reached = after_set_entry start id_x (some test_entry) test_entry-IsSorted start-Reached

pub one-Consistent : Consistent one
one-Consistent = Reached-Consistent test_storage test_storage-Stores one one-Reached

Reached-Consistent_example : Consistent (set_entry one id_x none)
Reached-Consistent_example =
    Reached-Consistent test_storage test_storage-Stores (set_entry one id_x none)
      (after_set_entry one id_x none tt one-Reached)

update-Saved_example : Saved test_storage test_storage-Stores one
update-Saved_example =
    update-Saved test_storage test_storage-Stores one one-Consistent.complete one-Consistent.agrees

db_lookup-set_entry_example :
    db_lookup (set_entry one id_y (some test_entry)) id_x
    ≡ (if str_eq id_y id_x then some test_entry else db_lookup one id_x)
db_lookup-set_entry_example = db_lookup-set_entry one id_y (some test_entry) id_x

list_apps-list_ids_by_app_example :
    str_ptr_array_contains (list_apps one) app_name
    ≡ not (len_is_zero (list_ids_by_app one app_name))
list_apps-list_ids_by_app_example = list_apps-list_ids_by_app one app_name one-Consistent.complete

get_permissions_variant-lookup_example :
    get_permissions_variant test_entry bin_name ≡ some (lookup bin_name test_entry.app_permissions)
get_permissions_variant-lookup_example =
    get_permissions_variant-lookup test_entry bin_name test_entry-IsSorted

set_app_permissions-entry_list_permissions_example :
    (new : Entry ℕ) × (set_app_permissions test_entry bin_name (some (read_name ∷ [])) ≡ some new)
    × IsSorted new.app_permissions
    × (get_data new ≡ get_data test_entry)
    × (entry_list_permissions new bin_name ≡ read_name ∷ [])
    × ((other : Bytes)
        → bin_name ≢ other
        → entry_list_permissions new other ≡ entry_list_permissions test_entry other)
set_app_permissions-entry_list_permissions_example =
    set_app_permissions-entry_list_permissions test_entry bin_name (read_name ∷ [])
      test_entry-IsSorted
