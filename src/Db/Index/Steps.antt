-- ===== src/Db/Index/Steps.antt =====
-- What adding and removing one application does to the map from applications to ids
-- (lib/xdg-app-db.c).
use xdg_app.Db.Index.{
  AreDistinct, Changed, listed, listed_lem, put_string-Changed, take_string-Changed,
}
use xdg_app.Db.Queries.{db_lookup}
use xdg_app.Db.State.{Db}
use xdg_app.Db.Update.{add_app_id, remove_app_id}
use xdg_app.Prelude.{
  Bool, Bytes, List, Table, arith, bytes_eq, direct_eq, false, if◌then◌else◌, not, refl, str_eq,
  true, ◌&&◌, ◌∙◌, ◌≡◌,
}

pub record WellFormed {V : Type 0} (self : Db V) : Type 0 where
  pub additions : AreDistinct self.app_additions
  pub removals : AreDistinct self.app_removals

-- Steps that touch the two tables of changes only.
pub record Frame {V : Type 0} (self self' : Db V) : Type 0 where
  pub same_lookup : (id : Bytes) → db_lookup self' id ≡ db_lookup self id
  pub same_updates : self'.main_updates ≡ self.main_updates
  pub same_main : self'.main_table ≡ self.main_table
  pub same_apps : self'.app_table ≡ self.app_table
  pub same_dirty : self'.dirty ≡ self.dirty

module _ {V : Type 0} where
  pub changes-Frame :
      (self : Db V) (additions removals : Table Bytes (List Bytes))
      → Frame self (record self { app_additions = additions; app_removals = removals })
  unfolding db_lookup
  changes-Frame self additions removals = record {
    same_lookup = λ id. refl;
    same_updates = refl;
    same_main = refl;
    same_apps = refl;
    same_dirty = refl;
  }

  pub Frame-refl : (self : Db V) → Frame self self
  Frame-refl self = record {
    same_lookup = λ id. refl;
    same_updates = refl;
    same_main = refl;
    same_apps = refl;
    same_dirty = refl;
  }

  pub Frame-trans : (a b c : Db V) → Frame a b → Frame b c → Frame a c
  Frame-trans a b c f g = record {
    same_lookup = λ id. g.same_lookup id ∙ f.same_lookup id;
    same_updates = g.same_updates ∙ f.same_updates;
    same_main = g.same_main ∙ f.same_main;
    same_apps = g.same_apps ∙ f.same_apps;
    same_dirty = g.same_dirty ∙ f.same_dirty;
  }

  -- One pair of an application and an id is listed or not, and all else is as it was.
  pub record Step (now : Bool) (app id : Bytes) (self self' : Db V) : Type 0 where
    pub frame : Frame self self'
    pub well_formed : WellFormed self'
    pub now_listed :
        (app' id' : Bytes)
        → listed self' app' id'
          ≡ (if str_eq app app' && str_eq id id' then now else listed self app' id')

  -- Two tables that change at the pair, one the other way.
  tables-Step :
      (now : Bool) (app id : Bytes) (self : Db V) (additions removals : Table Bytes (List Bytes))
      → Changed now app id self.app_additions additions
      → Changed (not now) app id self.app_removals removals
      → Step now app id self (record self { app_additions = additions; app_removals = removals })
  tables-Step now app id self additions removals added removed =
      let self' = record self { app_additions = additions; app_removals = removals } in
      record {
        frame = changes-Frame self additions removals;
        well_formed = record { additions = added.distinct; removals = removed.distinct };
        now_listed = λ a i. ground (
          arith,
          listed_lem self a i,
          listed_lem self' a i,
          added.has_now a i,
          removed.has_now a i,
        );
      }

  pub add_app_id-Step :
      (self : Db V) (app id : Bytes)
      → WellFormed self
      → Step true app id self (add_app_id self app id)
  unfolding add_app_id
  add_app_id-Step self app id wf =
      tables-Step true app id self _ _ (put_string-Changed app id self.app_additions wf.additions)
        (take_string-Changed app id self.app_removals wf.removals)

  pub remove_app_id-Step :
      (self : Db V) (app id : Bytes)
      → WellFormed self
      → Step false app id self (remove_app_id self app id)
  unfolding remove_app_id
  remove_app_id-Step self app id wf =
      tables-Step false app id self _ _ (take_string-Changed app id self.app_additions wf.additions)
        (put_string-Changed app id self.app_removals wf.removals)
