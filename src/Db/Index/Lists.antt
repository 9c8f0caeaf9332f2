-- ===== src/Db/Index/Lists.antt =====
-- The lists of ids and of applications are complete (lib/xdg-app-db.c).
-- No key stands twice in a hash table.
use xdg_app.Db.Entry.{Entry, strv_or_empty}
use xdg_app.Db.Queries.{
  added_apps, app_update_empty, db_lookup, list_apps, list_ids, list_ids_by_app, main_apps,
  main_ids, names_of, not_removed, some_left, updated_ids, updated_or, value_of,
}
use xdg_app.Db.State.{Db, GvdbTable}
use xdg_app.Db.Strings.{len_is_zero, str_ptr_array_contains}
use xdg_app.Db.Strings.Arrays.{contains-append, contains-cons, contains-nil}
use xdg_app.Prelude.{
  Bool, Bool-cases, Bytes, List, Option, Option-cases, Table, [], arith, bytes_eq, direct_eq, false,
  if_cases, inl, inr, is_some, lookup, lookup-replace, none, not, refl, replace, some, str_eq,
  str_eq_comm, str_eq_iff, subst, ◌&&◌, ◌++◌, ◌∙◌, ◌∷◌, ◌≡◌,
}

abbrev pub UniqueKeys : {A : Type 0} → Table Bytes A → Type 0
UniqueKeys [] = Unit
UniqueKeys ((k, v) ∷ t) = (lookup k t ≡ none) × UniqueKeys t

pub replace-UniqueKeys :
    {A : Type 0} (k : Bytes) (v : A) (t : Table Bytes A) → UniqueKeys t → UniqueKeys (replace k v t)
unfolding replace lookup
replace-UniqueKeys k v [] u = (refl, tt)
replace-UniqueKeys k v ((j, w) ∷ t) u =
    if_cases UniqueKeys (str_eq j k)
      (λ same. (subst (λ i. lookup i t ≡ none) ((str_eq_iff j k).0 same) u.0, u.1))
      (λ other. (
        lookup-replace k j v t ∙ ground (arith, str_eq_comm j k, other, u.0),
        replace-UniqueKeys k v t u.1,
      ))

-- The keys of a table of gvdb are those that have a value.
abbrev pub NamesValues : {A : Type 0} → Option (GvdbTable A) → Type 0
NamesValues table =
    (key : Bytes) → str_ptr_array_contains (names_of table) key ≡ is_some (value_of table key)

pub record Complete {V : Type 0} (self : Db V) : Type 0 where
  pub main_names : NamesValues self.main_table
  pub app_names : NamesValues self.app_table
  pub updates : UniqueKeys self.main_updates
  pub additions : UniqueKeys self.app_additions

-- What an update says of an id, if it says anything.
updated_ids-contains :
    {V : Type 0} (t : Table Bytes (Option (Entry V))) (id : Bytes)
    → UniqueKeys t
    → str_ptr_array_contains (updated_ids t) id ≡ is_some (updated_or (lookup id t) none)
unfolding updated_ids lookup
updated_ids-contains [] id u = contains-nil id
updated_ids-contains ((k, none) ∷ t) id u =
    ground (arith, str_eq_iff k id, updated_ids-contains t id u.1, u.0)
updated_ids-contains ((k, some value) ∷ t) id u =
    ground
      (arith, contains-cons k (updated_ids t) id, str_eq_iff k id, updated_ids-contains t id u.1)

main_ids-contains :
    {V : Type 0} (t : Table Bytes (Option (Entry V))) (ids : List Bytes) (id : Bytes)
    → str_ptr_array_contains (main_ids t ids) id
      ≡ (str_ptr_array_contains ids id && not (is_some (lookup id t)))
unfolding main_ids
main_ids-contains t [] id = ground (arith, contains-nil id)
main_ids-contains t (x ∷ ids) id = ground (
  arith,
  contains-cons x ids id,
  contains-cons x (main_ids t ids) id,
  main_ids-contains t ids id,
  str_eq_iff x id,
)

-- The list of ids of a database has just the ids that have an entry.
pub list_ids-db_lookup :
    {V : Type 0} (self : Db V) (id : Bytes)
    → Complete self
    → str_ptr_array_contains (list_ids self) id ≡ is_some (db_lookup self id)
unfolding list_ids db_lookup
list_ids-db_lookup self id c = ground (
  arith,
  contains-append (updated_ids self.main_updates)
      (main_ids self.main_updates (names_of self.main_table)) id,
  updated_ids-contains self.main_updates id c.updates,
  main_ids-contains self.main_updates (names_of self.main_table) id,
  c.main_names id,
)

added_apps-contains :
    (t : Table Bytes (List Bytes)) (app : Bytes)
    → UniqueKeys t
    → str_ptr_array_contains (added_apps t) app ≡ not (len_is_zero (strv_or_empty (lookup app t)))
unfolding added_apps lookup
added_apps-contains [] app u = contains-nil app
added_apps-contains ((k, []) ∷ t) app u =
    ground (arith, str_eq_iff k app, added_apps-contains t app u.1, u.0)
added_apps-contains ((k, x ∷ xs) ∷ t) app u =
    ground
      (arith, contains-cons k (added_apps t) app, str_eq_iff k app, added_apps-contains t app u.1)

some_left_lem :
    (removals : Option (List Bytes)) (ids : List Bytes)
    → some_left removals ids ≡ not (len_is_zero (not_removed removals ids))
unfolding some_left not_removed
some_left_lem none [] = refl
some_left_lem none (id ∷ ids) = refl
some_left_lem (some removals) [] = refl
some_left_lem (some removals) (id ∷ ids) = ground (arith, some_left_lem (some removals) ids)

append-zero :
    (xs ys : List Bytes) (b : Bool)
    → b ≡ not (len_is_zero ys)
    → len_is_zero (xs ++ ys) ≡ (len_is_zero xs && not b)
append-zero [] ys b h = ground (arith, h)
append-zero (x ∷ xs) ys b h = refl

module _ {V : Type 0} (self : Db V) where
  main_apps-contains :
      (apps : List Bytes) (app : Bytes)
      → str_ptr_array_contains (main_apps self apps) app ≡ (
          str_ptr_array_contains apps app
          && (app_update_empty self.app_additions app
              && some_left
                  (lookup app self.app_removals)
                  (strv_or_empty (value_of self.app_table app))))
  unfolding main_apps
  main_apps-contains [] app = ground (arith, contains-nil app)
  main_apps-contains (x ∷ apps) app = ground (
    arith,
    contains-cons x apps app,
    contains-cons x (main_apps self apps) app,
    main_apps-contains apps app,
    str_eq_iff x app,
  )

  app_ids-zero :
      (app : Bytes)
      → len_is_zero (list_ids_by_app self app) ≡ (
          app_update_empty self.app_additions app
          && not (
              some_left
                (lookup app self.app_removals)
                (strv_or_empty (value_of self.app_table app))))
  unfolding list_ids_by_app app_update_empty
  app_ids-zero app =
      append-zero (strv_or_empty (lookup app self.app_additions)) _ _
        (some_left_lem (lookup app self.app_removals) (strv_or_empty (value_of self.app_table app)))

  no_value-some_left :
      (app : Bytes)
      → is_some (value_of self.app_table app) ≡ false
      → some_left (lookup app self.app_removals) (strv_or_empty (value_of self.app_table app))
        ≡ false
  unfolding some_left
  no_value-some_left app h = elim (Option-cases (value_of self.app_table app)) [
    | inl e ↦ ground (arith, e)
    | inr (ids, e) ↦ ground (arith, e, h)
  ]

  -- A database lists an application just if it lists an id for it.
  pub list_apps-list_ids_by_app :
      (app : Bytes)
      → Complete self
      → str_ptr_array_contains (list_apps self) app ≡ not (len_is_zero (list_ids_by_app self app))
  unfolding list_apps app_update_empty
  list_apps-list_ids_by_app app c = elim (Bool-cases (is_some (value_of self.app_table app))) [
    | inl there ↦ ground (
      arith,
      contains-append (added_apps self.app_additions) (main_apps self (names_of self.app_table))
          app,
      added_apps-contains self.app_additions app c.additions,
      main_apps-contains (names_of self.app_table) app,
      c.app_names app,
      app_ids-zero app,
      there,
    )
    | inr missing ↦ ground (
      arith,
      contains-append (added_apps self.app_additions) (main_apps self (names_of self.app_table))
          app,
      added_apps-contains self.app_additions app c.additions,
      main_apps-contains (names_of self.app_table) app,
      c.app_names app,
      app_ids-zero app,
      no_value-some_left app missing,
      missing,
    )
  ]
