-- ===== src/Db/Index/Merge.antt =====
-- What the loop of xdg_app_db_set_entry does to the map from applications to ids
-- (lib/xdg-app-db.c).
use xdg_app.Db.Index.{listed}
use xdg_app.Db.Index.Steps.{
  Frame, Frame-refl, Frame-trans, Step, WellFormed, add_app_id-Step, remove_app_id-Step,
}
use xdg_app.Db.State.{Db}
use xdg_app.Db.Strings.{less, str_ptr_array_contains}
use xdg_app.Db.Strings.Arrays.{above-contains, contains-cons, contains-nil}
use xdg_app.Db.Strings.Order.{All-less_trans, Strict, less_total}
use xdg_app.Db.Update.{add_app_id, merge_loop, remove_app_id}
use xdg_app.Prelude.{
  Bytes, List, [], arith, false, if_cases, if◌then◌else◌, str_eq, str_eq_iff, true, ◌∷◌, ◌≡◌,
}

module _ {V : Type 0} where
  -- The applications in `a` alone are removed, those in `b` alone added.
  pub record Merged (id : Bytes) (a b : List Bytes) (self self' : Db V) : Type 0 where
    pub frame : Frame self self'
    pub well_formed : WellFormed self'
    pub merged :
        (app id' : Bytes)
        → listed self' app id' ≡ (
            if str_eq id id'
            then if str_ptr_array_contains a app
              then if str_ptr_array_contains b app then listed self app id' else false
              else if str_ptr_array_contains b app
              then true
              else listed self app id'
            else listed self app id')

  Merged-removed :
      (id old : Bytes) (a b : List Bytes) (self middle self' : Db V)
      → str_ptr_array_contains a old ≡ false
      → str_ptr_array_contains b old ≡ false
      → Step false old id self middle
      → Merged id a b middle self'
      → Merged id (old ∷ a) b self self'
  Merged-removed id old a b self middle self' not_a not_b s m = record {
    frame = Frame-trans self middle self' s.frame m.frame;
    well_formed = m.well_formed;
    merged = λ app id'. ground (
      arith,
      m.merged app id',
      s.now_listed app id',
      contains-cons old a app,
      str_eq_iff old app,
      not_a,
      not_b,
    );
  }

  Merged-added :
      (id new : Bytes) (a b : List Bytes) (self middle self' : Db V)
      → str_ptr_array_contains a new ≡ false
      → str_ptr_array_contains b new ≡ false
      → Step true new id self middle
      → Merged id a b middle self'
      → Merged id a (new ∷ b) self self'
  Merged-added id new a b self middle self' not_a not_b s m = record {
    frame = Frame-trans self middle self' s.frame m.frame;
    well_formed = m.well_formed;
    merged = λ app id'. ground (
      arith,
      m.merged app id',
      s.now_listed app id',
      contains-cons new b app,
      str_eq_iff new app,
      not_a,
      not_b,
    );
  }

  Merged-both :
      (id old new : Bytes) (a b : List Bytes) (self self' : Db V)
      → str_eq old new ≡ true
      → str_ptr_array_contains a old ≡ false
      → str_ptr_array_contains b new ≡ false
      → Merged id a b self self'
      → Merged id (old ∷ a) (new ∷ b) self self'
  Merged-both id old new a b self self' same not_a not_b m = record {
    frame = m.frame;
    well_formed = m.well_formed;
    merged = λ app id'. ground (
      arith,
      m.merged app id',
      contains-cons old a app,
      contains-cons new b app,
      str_eq_iff old app,
      str_eq_iff new app,
      str_eq_iff old new,
      not_a,
      not_b,
      same,
    );
  }

  pub merge_loop-Merged :
      (self : Db V) (id : Bytes) (a b : List Bytes)
      → WellFormed self
      → Strict a
      → Strict b
      → Merged id a b self (merge_loop self id a b)
  unfolding merge_loop
  merge_loop-Merged self id [] [] wf sa sb = record {
    frame = Frame-refl self;
    well_formed = wf;
    merged = λ app id'. ground (arith, contains-nil app);
  }
  merge_loop-Merged self id [] (new ∷ b) wf sa sb =
      let s = add_app_id-Step self new id wf in
      Merged-added id new [] b self _ _ (contains-nil new) (above-contains new b sb.0) s
        (merge_loop-Merged (add_app_id self new id) id [] b s.well_formed sa sb.1)
  merge_loop-Merged self id (old ∷ a) [] wf sa sb =
      let s = remove_app_id-Step self old id wf in
      Merged-removed id old a [] self _ _ (above-contains old a sa.0) (contains-nil old) s
        (merge_loop-Merged (remove_app_id self old id) id a [] s.well_formed sa.1 sb)
  merge_loop-Merged self id (old ∷ a) (new ∷ b) wf sa sb =
      if_cases (Merged id (old ∷ a) (new ∷ b) self) (str_eq old new)
        (λ same.
          Merged-both id old new a b self _ same (above-contains old a sa.0)
            (above-contains new b sb.0) (merge_loop-Merged self id a b wf sa.1 sb.1))
        (λ other.
          if_cases (Merged id (old ∷ a) (new ∷ b) self) (less old new)
            (λ low.
              let s = remove_app_id-Step self old id wf in
              Merged-removed id old a (new ∷ b) self _ _ (above-contains old a sa.0)
                (above-contains old (new ∷ b) (low, All-less_trans old new b low sb.0)) s
                (merge_loop-Merged (remove_app_id self old id) id a (new ∷ b) s.well_formed sa.1
                  sb))
            (λ high.
              let s = add_app_id-Step self new id wf in
              let below = less_total old new high other in
              Merged-added id new (old ∷ a) b self _ _
                (above-contains new (old ∷ a) (below, All-less_trans new old a below sa.0))
                (above-contains new b sb.0) s
                (merge_loop-Merged (add_app_id self new id) id (old ∷ a) b s.well_formed sa sb.1)))
