-- ===== src/Db/Save/Reopen.antt =====
-- A database that is opened on the contents made of another answers as it does (lib/xdg-app-db.c).
-- What a file of gvdb holds: the tables that it was made of.
use xdg_app.Db.Entry.{Entry, strv_or_empty}
use xdg_app.Db.Entry.Apps.{SortedEntry, lists_app}
use xdg_app.Db.Index.{AreDistinct, listed}
use xdg_app.Db.Index.Agrees.{Agrees}
use xdg_app.Db.Index.Lists.{Complete, NamesValues}
use xdg_app.Db.Index.Steps.{WellFormed}
use xdg_app.Db.Queries.{db_lookup, list_ids_by_app, not_removed}
use xdg_app.Db.Save.Builds.{Built, saved_ids}
use xdg_app.Db.State.{
  Db, GvdbFile, GvdbTable, Storage, db_init, init_from, load_tables, loaded, opened,
}
use xdg_app.Db.Strings.{len_is_zero, sort_strv, str_ptr_array_contains}
use xdg_app.Db.Strings.Arrays.{contains-sort_strv}
use xdg_app.Prelude.{
  Bool, Bytes, List, Option, Table, [], ap, bytes_eq, direct_eq, if◌then◌else◌, lookup, none, refl,
  some, subst, sym, ◌∙◌, ◌∷◌, ◌≡◌,
}
use xdg_app.Proxy.CommandLine.{main}

pub record Holds {V : Type 0} (file : Option (GvdbFile V)) (main_h : Table Bytes (Entry V))
    (apps_h : Table Bytes (List Bytes)) : Type 0 where
  pub held_main : GvdbTable (Entry V)
  pub held_apps : GvdbTable (List Bytes)
  pub parsed : file ≡ some (record { table_main = some held_main; table_apps = some held_apps })
  pub main_value : (key : Bytes) → held_main.value key ≡ lookup key main_h
  pub apps_value : (key : Bytes) → held_apps.value key ≡ lookup key apps_h
  pub main_names : NamesValues (some held_main)
  pub apps_names : NamesValues (some held_apps)

-- gvdb reads back what it wrote.
abbrev pub Stores : {V : Type 0} → Storage V → Type 0
Stores storage =
    (main_h : Table Bytes (Entry _)) (apps_h : Table Bytes (List Bytes))
    → Holds (storage.table_new_from_bytes (storage.get_content main_h apps_h)) main_h apps_h

-- A database and another that answers every question about entries and applications alike.
pub record Alike {V : Type 0} (self again : Db V) : Type 0 where
  pub same_lookup : (id : Bytes) → db_lookup again id ≡ db_lookup self id
  pub same_listed : (app id : Bytes) → listed again app id ≡ listed self app id

saved-contains :
    (xs : List Bytes) (id : Bytes)
    → str_ptr_array_contains
        (strv_or_empty (if len_is_zero xs then none else some (sort_strv xs)))
        id
      ≡ str_ptr_array_contains xs id
saved-contains [] id = refl
saved-contains (x ∷ xs) id = contains-sort_strv (x ∷ xs) id

module _ {V : Type 0} (self : Db V) (path : Option Bytes) (fail_if_not_found : Bool)
    (contents : Bytes) where
  -- What opening a file makes of its two tables.
  abbrev pub reopened : GvdbTable (Entry V) → GvdbTable (List Bytes) → Db V
  reopened main apps = record (db_init path fail_if_not_found) {
    gvdb_contents = some contents;
    gvdb = some (record { table_main = some main; table_apps = some apps });
    main_table = some main;
    app_table = some apps;
  }

  module _ (main_h : Table Bytes (Entry V)) (apps_h : Table Bytes (List Bytes))
      (file : Option (GvdbFile V)) (built : Built self main_h apps_h)
      (holds : Holds file main_h apps_h) where
    pub reopened-lookup :
        (id : Bytes) → db_lookup (reopened holds.held_main holds.held_apps) id ≡ db_lookup self id
    unfolding db_lookup db_init lookup
    reopened-lookup id = holds.main_value id ∙ built.entries id

    pub reopened-listed :
        (app id : Bytes)
        → listed (reopened holds.held_main holds.held_apps) app id ≡ listed self app id
    unfolding listed list_ids_by_app db_init lookup not_removed saved_ids
    reopened-listed app id =
        ap (λ k. str_ptr_array_contains (strv_or_empty k) id) (holds.apps_value app ∙ built.ids app)
        ∙ saved-contains (list_ids_by_app self app) id

  pub reopened-Complete :
      (file : Option (GvdbFile V)) (main_h : Table Bytes (Entry V))
      (apps_h : Table Bytes (List Bytes)) (holds : Holds file main_h apps_h)
      → Complete (reopened holds.held_main holds.held_apps)
  unfolding db_init
  reopened-Complete file main_h apps_h holds = record {
    main_names = holds.main_names;
    app_names = holds.apps_names;
    updates = tt;
    additions = tt;
  }

  pub reopened-WellFormed :
      (main : GvdbTable (Entry V)) (apps : GvdbTable (List Bytes)) → WellFormed (reopened main apps)
  unfolding db_init AreDistinct lookup
  reopened-WellFormed main apps = record { additions = λ app. tt; removals = λ app. tt }

  -- Opening the file, on which the tables are in place.
  pub tables_loaded :
      (storage : Storage V) (main : GvdbTable (Entry V)) (apps : GvdbTable (List Bytes))
      → storage.table_new_from_bytes contents
        ≡ some (record { table_main = some main; table_apps = some apps })
      → init_from storage (db_init path fail_if_not_found) (loaded contents)
        ≡ opened (reopened main apps)
  unfolding init_from load_tables
  tables_loaded storage main apps e = rw e refl

-- A database that agrees with another that agrees.
pub Alike-Agrees :
    {V : Type 0} (self again : Db V)
    → Alike self again
    → WellFormed again
    → Agrees self
    → Agrees again
Alike-Agrees self again alike wf agrees = record {
  well_formed = wf;
  sorted = λ id. subst SortedEntry (sym (alike.same_lookup id)) (agrees.sorted id);
  agree = λ app id.
      alike.same_listed app id
      ∙ agrees.agree app id
      ∙ ap (λ k. lists_app k app) (sym (alike.same_lookup id));
}

-- Other contents change no answer.
pub contents-Alike :
    {V : Type 0} (self : Db V) (gvdb : Option (GvdbFile V)) (contents : Option Bytes) (dirty : Bool)
    → Alike self (record self { gvdb = gvdb; gvdb_contents = contents; dirty = dirty })
unfolding db_lookup listed list_ids_by_app
contents-Alike self gvdb contents dirty = record {
  same_lookup = λ id. refl;
  same_listed = λ app id. refl;
}
