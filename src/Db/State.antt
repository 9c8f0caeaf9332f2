-- ===== src/Db/State.antt =====
-- The state of a database, opening it, and what it answers (lib/xdg-app-db.c).
-- gvdb_table_get_names and gvdb_table_get_value of one table.
use xdg_app.Db.Entry.{Entry}
use xdg_app.Prelude.{
  Bool, Bytes, List, Option, Table, [], bytes_eq, direct_eq, false, if◌then◌else◌, none, not, some,
  true, ◌&&◌,
}

pub record GvdbTable (A : Type 0) : Type 0 where
  pub names : List Bytes
  pub value : Bytes → Option A

-- gvdb_table_get_table of a file for "main" and for "apps".
pub record GvdbFile (V : Type 0) : Type 0 where
  pub table_main : Option (GvdbTable (Entry V))
  pub table_apps : Option (GvdbTable (List Bytes))

-- An error of reading a file, by its domain: G_FILE_ERROR_NOENT, G_IO_ERROR_NOT_FOUND, another.
pub data FileError : Type 0 where
  file_noent io_not_found other_error : FileError

pub data Load : Type 0 where
  loaded : Bytes → Load
  unreadable : FileError → Load

-- What the database asks of the file system and of the gvdb library.
pub record Storage (V : Type 0) : Type 0 where
  pub is_on_nfs : Bytes → Bool
  pub load_contents : Bytes → Load
  pub mapped_file : Bytes → Load
  pub table_new_from_bytes : Bytes → Option (GvdbFile V)
  pub get_content : Table Bytes (Entry V) → Table Bytes (List Bytes) → Bytes
  pub set_contents : Bytes → Bytes → Bool

-- `none` in main_updates is an entry that was removed.
pub record Db (V : Type 0) : Type 0 where
  pub path : Option Bytes
  pub fail_if_not_found : Bool
  pub gvdb : Option (GvdbFile V)
  pub gvdb_contents : Option Bytes
  pub dirty : Bool
  pub main_table : Option (GvdbTable (Entry V))
  pub main_updates : Table Bytes (Option (Entry V))
  pub app_table : Option (GvdbTable (List Bytes))
  pub app_additions : Table Bytes (List Bytes)
  pub app_removals : Table Bytes (List Bytes)

pub data OpenError : Type 0 where
  file_error : FileError → OpenError
  bad_contents no_main_table no_app_table : OpenError

pub data Opened (V : Type 0) : Type 0 where
  opened : Db V → Opened V
  failed : OpenError → Opened V

unfoldable pub is_noent : FileError → Bool
is_noent file_noent = true
is_noent _ = false

module _ {V : Type 0} where
  -- xdg_app_db_init, with the two properties that are set behind it
  unfoldable pub db_init : Option Bytes → Bool → Db V
  db_init path fail_if_not_found = record {
    path = path;
    fail_if_not_found = fail_if_not_found;
    gvdb = none;
    gvdb_contents = none;
    dirty = false;
    main_table = none;
    main_updates = [];
    app_table = none;
    app_additions = [];
    app_removals = [];
  }

  -- The tables of the file, once its contents are there.
  unfoldable pub load_tables : Db V → Option (GvdbFile V) → Opened V
  load_tables self none = failed bad_contents
  load_tables self (some gvdb) = elim gvdb.table_main [
    | none ↦ failed no_main_table
    | some main_table ↦ elim gvdb.table_apps [
      | none ↦ failed no_app_table
      | some app_table ↦ opened (record self {
        gvdb = some gvdb;
        main_table = some main_table;
        app_table = some app_table;
      })
    ]
  ]

  unfoldable pub init_from : Storage V → Db V → Load → Opened V
  unfolding is_noent load_tables
  init_from storage self (unreadable my_error) =
      if not self.fail_if_not_found && is_noent my_error
      then opened self
      else failed (file_error my_error)
  init_from storage self (loaded contents) =
      load_tables (record self { gvdb_contents = some contents })
        (storage.table_new_from_bytes contents)

  -- How the file is read.
  unfoldable pub load_file : Storage V → Bytes → Load
  load_file storage path =
      if storage.is_on_nfs path then storage.load_contents path else storage.mapped_file path

  unfoldable pub initable_init : Storage V → Db V → Opened V
  unfolding init_from load_file
  initable_init storage self = elim self.path [
    | none ↦ opened self
    | some path ↦ init_from storage self (load_file storage path)
  ]

  -- xdg_app_db_new
  unfoldable pub db_new : Storage V → Option Bytes → Bool → Opened V
  unfolding db_init initable_init
  db_new storage path fail_if_not_found = initable_init storage (db_init path fail_if_not_found)

  -- xdg_app_db_set_path
  unfoldable pub set_path : Db V → Option Bytes → Db V
  set_path self path = record self { path = path }
