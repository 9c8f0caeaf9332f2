-- ===== src/Db/Index/Agrees.antt =====
-- The map from applications to ids agrees with the entries, and setting an entry changes that entry
-- alone (lib/xdg-app-db.c).
-- What holds of a database between calls.
use xdg_app.Db.Entry.{Entry}
use xdg_app.Db.Entry.Apps.{SortedEntry, lists_app, sorted_apps-Strict, sorted_apps-contains}
use xdg_app.Db.Index.{listed}
use xdg_app.Db.Index.Merge.{merge_loop-Merged}
use xdg_app.Db.Index.Steps.{Frame, Frame-refl, Frame-trans, WellFormed, changes-Frame}
use xdg_app.Db.Queries.{db_lookup, list_ids_by_app}
use xdg_app.Db.State.{Db}
use xdg_app.Db.Strings.{less}
use xdg_app.Db.Update.{add_app_id, merge_loop, remove_app_id, set_entry, sorted_apps}
use xdg_app.Prelude.{
  Bytes, List, Option, [], arith, bytes_eq, direct_eq, if_both, if◌then◌else◌, lookup-replace, refl,
  replace, str_eq, str_eq_iff, subst, sym, true, ◌∙◌, ◌∷◌, ◌≡◌,
}

pub record Agrees {V : Type 0} (self : Db V) : Type 0 where
  pub well_formed : WellFormed self
  pub sorted : (id : Bytes) → SortedEntry (db_lookup self id)
  pub agree : (app id : Bytes) → listed self app id ≡ lists_app (db_lookup self id) app

module _ {V : Type 0} where
  merge_loop-Frame :
      (self : Db V) (id : Bytes) (a b : List Bytes) → Frame self (merge_loop self id a b)
  unfolding merge_loop add_app_id remove_app_id
  merge_loop-Frame self id [] [] = Frame-refl self
  merge_loop-Frame self id [] (new ∷ b) =
      Frame-trans self _ _ (changes-Frame self _ _)
        (merge_loop-Frame (add_app_id self new id) id [] b)
  merge_loop-Frame self id (old ∷ a) [] =
      Frame-trans self _ _ (changes-Frame self _ _)
        (merge_loop-Frame (remove_app_id self old id) id a [])
  merge_loop-Frame self id (old ∷ a) (new ∷ b) =
      if_both (Frame self) (str_eq old new) (merge_loop-Frame self id a b) (
        if_both (Frame self) (less old new)
          (Frame-trans self _ _ (changes-Frame self _ _)
            (merge_loop-Frame (remove_app_id self old id) id a (new ∷ b)))
          (Frame-trans self _ _ (changes-Frame self _ _)
            (merge_loop-Frame (add_app_id self new id) id (old ∷ a) b)))

  -- The database as the loop of xdg_app_db_set_entry gets it.
  abbrev put_entry : Db V → Bytes → Option (Entry V) → Db V
  put_entry self id entry = record self {
    dirty = true;
    main_updates = replace id entry self.main_updates;
  }

  put_entry-lookup :
      (self : Db V) (id : Bytes) (entry : Option (Entry V)) (j : Bytes)
      → db_lookup (put_entry self id entry) j ≡ (if str_eq id j then entry else db_lookup self j)
  unfolding db_lookup
  put_entry-lookup self id entry j = ground (arith, lookup-replace id j entry self.main_updates)

  -- After an entry is set or removed, that id has this entry, or none, and every other id what it
  -- had: the database is a map from ids to entries.
  pub db_lookup-set_entry :
      (self : Db V) (id : Bytes) (entry : Option (Entry V)) (j : Bytes)
      → db_lookup (set_entry self id entry) j ≡ (if str_eq id j then entry else db_lookup self j)
  unfolding set_entry
  db_lookup-set_entry self id entry j =
      (merge_loop-Frame (put_entry self id entry) id (sorted_apps (db_lookup self id))
          (sorted_apps entry)).same_lookup
        j
      ∙ put_entry-lookup self id entry j

  put_entry-listed :
      (self : Db V) (id : Bytes) (entry : Option (Entry V)) (app j : Bytes)
      → listed (put_entry self id entry) app j ≡ listed self app j
  unfolding listed list_ids_by_app
  put_entry-listed self id entry app j = refl

  -- If the two maps of a database agree and the applications of an entry are sorted, they agree
  -- when this entry is set or an entry is removed: an id is listed under an application just if its
  -- entry has a permission for it.
  pub set_entry-Agrees :
      (self : Db V) (id : Bytes) (entry : Option (Entry V))
      → Agrees self
      → SortedEntry entry
      → Agrees (set_entry self id entry)
  unfolding set_entry
  set_entry-Agrees self id entry agrees sorted =
      let old = db_lookup self id in
      let m =
        merge_loop-Merged (put_entry self id entry) id (sorted_apps old) (sorted_apps entry)
          (record {
            additions = agrees.well_formed.additions;
            removals = agrees.well_formed.removals;
          })
          (sorted_apps-Strict old (agrees.sorted id)) (sorted_apps-Strict entry sorted) in
      record {
        well_formed = m.well_formed;
        sorted = λ j.
            subst SortedEntry (sym (db_lookup-set_entry self id entry j))
              (if_both SortedEntry (str_eq id j) sorted (agrees.sorted j));
        agree = λ app j. ground (
          arith,
          m.merged app j,
          put_entry-listed self id entry app j,
          db_lookup-set_entry self id entry j,
          agrees.agree app j,
          agrees.agree app id,
          sorted_apps-contains old app,
          sorted_apps-contains entry app,
          str_eq_iff id j,
        );
      }
