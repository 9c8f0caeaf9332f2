-- ===== src/Db/Save/Reached.antt =====
-- The databases that the calls reach, and the agreement of their two maps (lib/xdg-app-db.c).
use xdg_app.Db.Entry.{Entry}
use xdg_app.Db.Entry.Apps.{SortedEntry, lists_app}
use xdg_app.Db.Index.{AreDistinct, listed}
use xdg_app.Db.Index.Agrees.{Agrees, set_entry-Agrees}
use xdg_app.Db.Index.Kept.{set_entry-Complete}
use xdg_app.Db.Index.Lists.{Complete}
use xdg_app.Db.Queries.{db_lookup, list_ids_by_app, not_removed}
use xdg_app.Db.Save.{update}
use xdg_app.Db.Save.Reopen.{Alike-Agrees, Stores}
use xdg_app.Db.Save.Saved.{Saved, update-Saved}
use xdg_app.Db.State.{
  Db, FileError, Opened, Storage, db_init, db_new, failed, file_error, init_from, initable_init,
  is_noent, load_file, loaded, opened, unreadable,
}
use xdg_app.Db.Strings.Arrays.{contains-nil}
use xdg_app.Db.Update.{set_entry}
use xdg_app.Prelude.{
  Bool, Bytes, Option, ap, bytes_eq, direct_eq, if_both, lookup, none, not, some, some_injective,
  subst, sym, ◌&&◌, ◌∙◌, ◌≡◌,
}

module _ {V : Type 0} where
  -- What every database that calls reach keeps.
  pub record Consistent (self : Db V) : Type 0 where
    pub complete : Complete self
    pub agrees : Agrees self

  db_init-Consistent :
      (path : Option Bytes) (fail_if_not_found : Bool) → Consistent (db_init path fail_if_not_found)
  unfolding db_init AreDistinct lookup db_lookup listed list_ids_by_app lists_app not_removed
  db_init-Consistent path fail_if_not_found = record {
    complete = record {
      main_names = λ key. contains-nil key;
      app_names = λ key. contains-nil key;
      updates = tt;
      additions = tt;
    };
    agrees = record {
      well_formed = record { additions = λ app. tt; removals = λ app. tt };
      sorted = λ id. tt;
      agree = λ app id. contains-nil id;
    };
  }

module _ {V : Type 0} (storage : Storage V) where
  -- The databases that calls reach from one without a file, over files that the calls made.
  pub data Reached : Db V → Type 0 where
    without_path : (fail_if_not_found : Bool) → Reached (db_init none fail_if_not_found)
    without_file :
        (path : Bytes) (fail_if_not_found : Bool) (error : FileError) (self : Db V)
        → load_file storage path ≡ unreadable error
        → db_new storage (some path) fail_if_not_found ≡ opened self
        → Reached self
    after_set_entry :
        (self : Db V) (id : Bytes) (entry : Option (Entry V))
        → SortedEntry entry
        → Reached self
        → Reached (set_entry self id entry)
    after_update :
        (self self' : Db V) → update storage self ≡ some self' → Reached self → Reached self'
    after_reopening :
        (self self' again : Db V) (path content : Bytes) (fail_if_not_found : Bool)
        → update storage self ≡ some self'
        → self'.gvdb_contents ≡ some content
        → load_file storage path ≡ loaded content
        → db_new storage (some path) fail_if_not_found ≡ opened again
        → Reached self
        → Reached again

  -- What opening returns, unless it fails.
  abbrev OpenedConsistent : Opened V → Type 0
  OpenedConsistent (opened self) = Consistent self
  OpenedConsistent (failed error) = Unit

  no_file-OpenedConsistent :
      (path : Bytes) (fail_if_not_found : Bool) (error : FileError)
      → load_file storage path ≡ unreadable error
      → OpenedConsistent (db_new storage (some path) fail_if_not_found)
  unfolding db_new initable_init init_from db_init
  no_file-OpenedConsistent path fail_if_not_found error e =
      subst (λ k. OpenedConsistent (init_from storage (db_init (some path) fail_if_not_found) k))
        (sym e)
        (if_both OpenedConsistent (not fail_if_not_found && is_noent error)
          {x = opened (db_init (some path) fail_if_not_found)} {y = failed (file_error error)}
          (db_init-Consistent (some path) fail_if_not_found) tt)

  pub updated-Consistent :
      (stores : Stores storage) (self self' : Db V)
      → Agrees self
      → (saved : Saved storage stores self) → update storage self ≡ some self'
      → Consistent self'
  updated-Consistent stores self self' agrees saved e =
      subst Consistent (some_injective (sym saved.update_done ∙ e)) (record {
        complete = saved.updated_Complete;
        agrees = Alike-Agrees self saved.updated saved.alike saved.updated_WellFormed agrees;
      })

  -- The contents are those that were saved.
  same_content :
      (stores : Stores storage) (self self' : Db V) (content : Bytes)
      (saved : Saved storage stores self)
      → update storage self ≡ some self'
      → self'.gvdb_contents ≡ some content
      → content ≡ saved.content
  same_content stores self self' content saved e f = some_injective (
      sym f
      ∙ ap (λ k. k.gvdb_contents) (some_injective (sym e ∙ saved.update_done))
      ∙ saved.has_content)

  again-Consistent :
      (stores : Stores storage) (self self' again : Db V) (path content : Bytes)
      (fail_if_not_found : Bool)
      → (saved : Saved storage stores self) → update storage self ≡ some self'
      → self'.gvdb_contents ≡ some content
      → load_file storage path ≡ loaded content
      → db_new storage (some path) fail_if_not_found ≡ opened again
      → Consistent again
  again-Consistent stores self self' again path content fail_if_not_found saved e f g h =
      let (again', e', alike, agrees, complete) =
        saved.reopen path fail_if_not_found
          (g ∙ ap loaded (same_content stores self self' content saved e f)) in
      subst OpenedConsistent (sym e' ∙ h) (record { complete = complete; agrees = agrees })

  -- Where gvdb reads back what it wrote, every database that calls reach keeps its maps in
  -- agreement, whatever entries are set, with their applications sorted, and removed, and however
  -- often the contents are made and a database is opened on them: an id is listed under an
  -- application just if its entry has a permission for it.
  pub Reached-Consistent : Stores storage → (self : Db V) → Reached self → Consistent self
  Reached-Consistent stores _ (without_path fail_if_not_found) =
      db_init-Consistent none fail_if_not_found
  Reached-Consistent stores _ (without_file path fail_if_not_found error self e f) =
      subst OpenedConsistent f (no_file-OpenedConsistent path fail_if_not_found error e)
  Reached-Consistent stores _ (after_set_entry before id entry sorted r) =
      let c = Reached-Consistent stores before r in
      record {
        complete = set_entry-Complete before id entry c.complete;
        agrees = set_entry-Agrees before id entry c.agrees sorted;
      }
  Reached-Consistent stores _ (after_update before self e r) =
      let c = Reached-Consistent stores before r in
      updated-Consistent stores before self c.agrees
        (update-Saved storage stores before c.complete c.agrees) e
  Reached-Consistent stores _
        (after_reopening before self' again path content fail_if_not_found e f g h r) =
      let c = Reached-Consistent stores before r in
      again-Consistent stores before self' again path content fail_if_not_found
        (update-Saved storage stores before c.complete c.agrees) e f g h
