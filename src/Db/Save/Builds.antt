-- ===== src/Db/Save/Builds.antt =====
-- Making the contents of a database to save (lib/xdg-app-db.c).
use xdg_app.Db.Entry.{Entry}
use xdg_app.Db.Index.Lists.{Complete, list_apps-list_ids_by_app, list_ids-db_lookup}
use xdg_app.Db.Queries.{db_lookup, list_apps, list_ids, list_ids_by_app}
use xdg_app.Db.Save.{build_apps, build_main, insert_entry}
use xdg_app.Db.State.{Db}
use xdg_app.Db.Strings.{insert_sorted, len_is_zero, less, sort_strv, str_ptr_array_contains}
use xdg_app.Db.Strings.Arrays.{contains-cons, contains-nil}
use xdg_app.Prelude.{
  All, Bytes, List, Option, Option-cases, Table, [], arith, bytes_eq, direct_eq, false, if_both,
  if◌then◌else◌, is_some, lookup, lookup-replace, none, refl, replace, some, str_eq, str_eq_iff,
  str_eq_refl, true, ◌&&◌, ◌∷◌, ◌≡◌,
}

insert_sorted-zero : (x : Bytes) (xs : List Bytes) → len_is_zero (insert_sorted x xs) ≡ false
unfolding insert_sorted
insert_sorted-zero x [] = refl
insert_sorted-zero x (y ∷ ys) = if_both (λ k. len_is_zero k ≡ false) (less y x) refl refl

sort_strv-zero : (xs : List Bytes) → len_is_zero (sort_strv xs) ≡ len_is_zero xs
unfolding sort_strv
sort_strv-zero [] = refl
sort_strv-zero (x ∷ xs) = insert_sorted-zero x (sort_strv xs)

contained-All :
    (P : Bytes → Type 0) (xs : List Bytes)
    → ((x : Bytes) → str_ptr_array_contains xs x ≡ true → P x)
    → All P xs
contained-All P [] h = tt
contained-All P (x ∷ xs) h = (
  h x (ground (arith, contains-cons x xs x, str_eq_refl x)),
  contained-All P xs (λ y k. h y (ground (arith, contains-cons x xs y, k))),
)

insert_entry-lookup :
    {V : Type 0} (x : Bytes) (entry : Option (Entry V)) (main_h : Table Bytes (Entry V))
    (id : Bytes)
    → lookup id (insert_entry x entry main_h)
      ≡ (if str_eq x id && is_some entry then entry else lookup id main_h)
unfolding insert_entry
insert_entry-lookup x none main_h id = ground arith
insert_entry-lookup x (some entry) main_h id = ground (arith, lookup-replace x id entry main_h)

module _ {V : Type 0} (self : Db V) where
  -- What a table holds once the entries of the ids are in it.
  build_main-lookup :
      (ids : List Bytes) (main_h : Table Bytes (Entry V)) (id : Bytes)
      → lookup id (build_main self ids main_h) ≡ (
          if str_ptr_array_contains ids id && is_some (db_lookup self id)
          then db_lookup self id
          else lookup id main_h)
  unfolding build_main
  build_main-lookup [] main_h id = ground (arith, contains-nil id)
  build_main-lookup (x ∷ ids) main_h id = ground (
    arith,
    contains-cons x ids id,
    build_main-lookup ids (insert_entry x (db_lookup self x) main_h) id,
    insert_entry-lookup x (db_lookup self x) main_h id,
    str_eq_iff x id,
  )

  abbrev HasIds : Bytes → Type 0
  HasIds app = len_is_zero (list_ids_by_app self app) ≡ false

  -- The array that goes to the file for an application.
  unfoldable pub saved_ids : Bytes → List Bytes
  saved_ids app = sort_strv (list_ids_by_app self app)

  build_apps-lookup :
      (apps : List Bytes) (apps_h : Table Bytes (List Bytes))
      → All HasIds apps
      → (built : Table Bytes (List Bytes)) × (build_apps self apps apps_h ≡ some built)
        × ((app : Bytes)
            → lookup app built ≡ (
                if str_ptr_array_contains apps app
                then some (saved_ids app)
                else lookup app apps_h))
  unfolding build_apps saved_ids
  build_apps-lookup [] apps_h all = (apps_h, refl, λ app. ground (arith, contains-nil app))
  build_apps-lookup (x ∷ apps) apps_h all =
      let (built, e, h) = build_apps-lookup apps (replace x (saved_ids x) apps_h) all.1 in
      (
        built,
        ground (arith, sort_strv-zero (list_ids_by_app self x), all.0, e),
        λ app. ground (
          arith,
          h app,
          contains-cons x apps app,
          lookup-replace x app (saved_ids x) apps_h,
          str_eq_iff x app,
        ),
      )

  -- The tables that go to the file hold every entry, and the ids of every application.
  pub record Built (main_h : Table Bytes (Entry V)) (apps_h : Table Bytes (List Bytes))
      : Type 0 where
    pub entries : (id : Bytes) → lookup id main_h ≡ db_lookup self id
    pub ids :
        (app : Bytes)
        → lookup app apps_h
          ≡ (if len_is_zero (list_ids_by_app self app) then none else some (saved_ids app))

  pub build_Built :
      Complete self
      → (apps_h : Table Bytes (List Bytes)) × (build_apps self (list_apps self) [] ≡ some apps_h)
        × Built (build_main self (list_ids self) []) apps_h
  unfolding lookup
  build_Built c =
      let all =
        contained-All HasIds (list_apps self)
          (λ app h. ground (arith, list_apps-list_ids_by_app self app c, h)) in
      let (apps_h, e, h) = build_apps-lookup (list_apps self) [] all in
      (
        apps_h,
        e,
        record {
          entries = λ id. ground (
            arith,
            build_main-lookup (list_ids self) [] id,
            list_ids-db_lookup self id c,
            Option-cases (db_lookup self id),
          );
          ids = λ app. ground (arith, h app, list_apps-list_ids_by_app self app c);
        },
      )
