-- ===== src/Db/Index/Kept.antt =====
-- Setting an entry, and the lists of ids and of applications (lib/xdg-app-db.c).
use xdg_app.Db.Entry.{Entry}
use xdg_app.Db.Index.Lists.{Complete, UniqueKeys, replace-UniqueKeys}
use xdg_app.Db.Queries.{db_lookup}
use xdg_app.Db.State.{Db}
use xdg_app.Db.Strings.{add_string, less, remove_string}
use xdg_app.Db.Update.{
  add_app_id, merge_loop, put_string, remove_app_id, set_entry, sorted_apps, take_string,
}
use xdg_app.Prelude.{
  Bytes, List, Option, Table, [], bytes_eq, direct_eq, if_both, lookup, none, remove, replace, some,
  str_eq, ◌∷◌,
}

changed_UniqueKeys :
    (found : Option (List Bytes)) (app : Bytes) (change : List Bytes → List Bytes)
    (ht other : Table Bytes (List Bytes))
    → UniqueKeys ht
    → UniqueKeys other
    → UniqueKeys (elim found [ none ↦ other | some array ↦ replace app (change array) ht ])
changed_UniqueKeys none app change ht other u v = v
changed_UniqueKeys (some array) app change ht other u v = replace-UniqueKeys app (change array) ht u

put_string-UniqueKeys :
    (app id : Bytes) (ht : Table Bytes (List Bytes))
    → UniqueKeys ht
    → UniqueKeys (put_string app id ht)
unfolding put_string
put_string-UniqueKeys app id ht u =
    changed_UniqueKeys (lookup app ht) app (add_string id) ht _ u
      (replace-UniqueKeys app (id ∷ []) ht u)

take_string-UniqueKeys :
    (app id : Bytes) (ht : Table Bytes (List Bytes))
    → UniqueKeys ht
    → UniqueKeys (take_string app id ht)
unfolding take_string
take_string-UniqueKeys app id ht u =
    changed_UniqueKeys (lookup app ht) app (remove_string id) ht ht u u

module _ {V : Type 0} where
  -- What adding and removing an application keep, the loop of xdg_app_db_set_entry keeps.
  merge_loop-keeps :
      (P : Db V → Type 0) (id : Bytes)
      → ((self : Db V) (app : Bytes) → P self → P (add_app_id self app id))
      → ((self : Db V) (app : Bytes) → P self → P (remove_app_id self app id))
      → (self : Db V) (a b : List Bytes) → P self
      → P (merge_loop self id a b)
  unfolding merge_loop
  merge_loop-keeps P id add remove self [] [] p = p
  merge_loop-keeps P id add remove self [] (new ∷ b) p =
      merge_loop-keeps P id add remove (add_app_id self new id) [] b (add self new p)
  merge_loop-keeps P id add remove self (old ∷ a) [] p =
      merge_loop-keeps P id add remove (remove_app_id self old id) a [] (remove self old p)
  merge_loop-keeps P id add remove self (old ∷ a) (new ∷ b) p =
      if_both P (str_eq old new) (merge_loop-keeps P id add remove self a b p) (
        if_both P (less old new)
          (merge_loop-keeps P id add remove (remove_app_id self old id) a (new ∷ b)
            (remove self old p))
          (merge_loop-keeps P id add remove (add_app_id self new id) (old ∷ a) b (add self new p)))

  add_app_id-Complete :
      (id : Bytes) (self : Db V) (app : Bytes) → Complete self → Complete (add_app_id self app id)
  unfolding add_app_id
  add_app_id-Complete id self app c = record {
    main_names = c.main_names;
    app_names = c.app_names;
    updates = c.updates;
    additions = put_string-UniqueKeys app id self.app_additions c.additions;
  }

  remove_app_id-Complete :
      (id : Bytes) (self : Db V) (app : Bytes)
      → Complete self
      → Complete (remove_app_id self app id)
  unfolding remove_app_id
  remove_app_id-Complete id self app c = record {
    main_names = c.main_names;
    app_names = c.app_names;
    updates = c.updates;
    additions = take_string-UniqueKeys app id self.app_additions c.additions;
  }

  pub set_entry-Complete :
      (self : Db V) (id : Bytes) (entry : Option (Entry V))
      → Complete self
      → Complete (set_entry self id entry)
  unfolding set_entry
  set_entry-Complete self id entry c =
      merge_loop-keeps Complete id (add_app_id-Complete id) (remove_app_id-Complete id) _
        (sorted_apps (db_lookup self id)) (sorted_apps entry)
        (record {
          main_names = c.main_names;
          app_names = c.app_names;
          updates = replace-UniqueKeys id entry self.main_updates c.updates;
          additions = c.additions;
        })
