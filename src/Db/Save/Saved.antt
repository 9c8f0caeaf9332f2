-- ===== src/Db/Save/Saved.antt =====
-- Making the contents of a database, and opening them again (lib/xdg-app-db.c).
use xdg_app.Db.Index.Agrees.{Agrees}
use xdg_app.Db.Index.Lists.{Complete}
use xdg_app.Db.Index.Steps.{WellFormed}
use xdg_app.Db.Queries.{is_dirty, list_apps, list_ids}
use xdg_app.Db.Save.{build_apps, build_main, install, install_apps, install_contents, update}
use xdg_app.Db.Save.Builds.{build_Built}
use xdg_app.Db.Save.Reopen.{
  Alike, Alike-Agrees, Stores, contents-Alike, reopened, reopened-Complete, reopened-WellFormed,
  reopened-listed, reopened-lookup, tables_loaded,
}
use xdg_app.Db.State.{
  Db, GvdbFile, Storage, db_init, db_new, init_from, initable_init, load_file, loaded, opened,
}
use xdg_app.Prelude.{
  Bool, Bytes, List, Table, [], ap, bytes_eq, direct_eq, false, refl, some, ◌∙◌, ◌≡◌,
}

module _ {V : Type 0} (storage : Storage V) (stores : Stores storage) where
  -- What making the contents, and opening them, comes to.
  pub record Saved (self : Db V) : Type 0 where
    pub content : Bytes
    pub updated : Db V
    pub update_done : update storage self ≡ some updated
    pub has_content : updated.gvdb_contents ≡ some content
    pub clean : is_dirty updated ≡ false
    pub alike : Alike self updated
    pub updated_Complete : Complete updated
    pub updated_WellFormed : WellFormed updated
    pub reopen :
        (path : Bytes) (fail_if_not_found : Bool)
        → load_file storage path ≡ loaded content
        → (again : Db V) × (db_new storage (some path) fail_if_not_found ≡ opened again)
          × Alike self again
          × Agrees again
          × Complete again

  install-done :
      (self : Db V) (apps_h : Table Bytes (List Bytes)) (file : GvdbFile V)
      → build_apps self (list_apps self) [] ≡ some apps_h
      → storage.table_new_from_bytes
          (storage.get_content (build_main self (list_ids self) []) apps_h)
        ≡ some file
      → update storage self
        ≡ some (record self {
          gvdb = some file;
          gvdb_contents = some (storage.get_content (build_main self (list_ids self) []) apps_h);
          dirty = false;
        })
  unfolding update install_apps install_contents install
  install-done self apps_h file e f =
      ap (install_apps storage self) e
      ∙ ap (install self (storage.get_content (build_main self (list_ids self) []) apps_h)) f

  loaded-db_new :
      (path : Bytes) (fail_if_not_found : Bool) (content : Bytes)
      → load_file storage path ≡ loaded content
      → db_new storage (some path) fail_if_not_found
        ≡ init_from storage (db_init (some path) fail_if_not_found) (loaded content)
  unfolding db_new initable_init db_init
  loaded-db_new path fail_if_not_found content e = rw e refl

  -- Where gvdb reads back what it wrote, making the contents of a database that keeps its maps
  -- complete and in agreement fails no assertion and changes no answer, and a database that is opened
  -- on a file with these contents has the same entries, lists the same ids under each application,
  -- and keeps its maps complete and in agreement.
  pub update-Saved : (self : Db V) → Complete self → Agrees self → Saved self
  unfolding is_dirty
  update-Saved self c agrees =
      let main_h = build_main self (list_ids self) [] in
      let (apps_h, e, built) = build_Built self c in
      let content = storage.get_content main_h apps_h in
      let file = storage.table_new_from_bytes content in
      let holds = stores main_h apps_h in
      record {
        content = content;
        updated = record self {
          gvdb =
              some
                (record { table_main = some holds.held_main; table_apps = some holds.held_apps });
          gvdb_contents = some content;
          dirty = false;
        };
        update_done = install-done self apps_h _ e holds.parsed;
        has_content = refl;
        clean = refl;
        alike = contents-Alike self _ (some content) false;
        updated_Complete = record {
          main_names = c.main_names;
          app_names = c.app_names;
          updates = c.updates;
          additions = c.additions;
        };
        updated_WellFormed = record {
          additions = agrees.well_formed.additions;
          removals = agrees.well_formed.removals;
        };
        reopen = λ path fail_if_not_found h.
            let again =
              reopened self (some path) fail_if_not_found content holds.held_main holds.held_apps in
            let alike : Alike self again = record {
              same_lookup =
                  reopened-lookup self (some path) fail_if_not_found content main_h apps_h file
                    built holds;
              same_listed =
                  reopened-listed self (some path) fail_if_not_found content main_h apps_h file
                    built holds;
            } in
            (
              again,
              loaded-db_new path fail_if_not_found content h
                  ∙ tables_loaded self (some path) fail_if_not_found content storage holds.held_main
                      holds.held_apps holds.parsed,
              alike,
              Alike-Agrees self again alike
                  (reopened-WellFormed self (some path) fail_if_not_found content holds.held_main
                    holds.held_apps)
                  agrees,
              reopened-Complete self (some path) fail_if_not_found content file main_h apps_h holds,
            );
      }
