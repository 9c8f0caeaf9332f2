-- ===== src/Db/Index.antt =====
-- The map from applications to ids, and what the two tables of changes make of it
-- (lib/xdg-app-db.c).
pub mod Steps
pub mod Merge
pub mod Agrees
pub mod Lists
pub mod Kept
use xdg_app.Db.Entry.{strv_or_empty}
use xdg_app.Db.Queries.{list_ids_by_app, not_removed, value_of}
use xdg_app.Db.State.{Db}
use xdg_app.Db.Strings.{add_string, remove_string, str_ptr_array_contains}
use xdg_app.Db.Strings.Arrays.{
  Distinct, add_string-Added, contains-append, contains-cons, contains-nil, remove_string-Removed,
}
use xdg_app.Db.Update.{put_string, take_string}
use xdg_app.Prelude.{
  Bool, Bytes, List, Option, Option-cases, Table, [], ap, arith, bytes_eq, direct_eq, false,
  if_both, if◌then◌else◌, inl, inr, lookup, lookup-replace, none, not, refl, replace, some, str_eq,
  str_eq_iff, subst, sym, true, ◌&&◌, ◌||◌, ◌∙◌, ◌∷◌, ◌≡◌,
}

-- Whether the array of an application in a table has the id.
unfoldable pub has : Table Bytes (List Bytes) → Bytes → Bytes → Bool
has ht app id = str_ptr_array_contains (strv_or_empty (lookup app ht)) id

-- No array of the table has an id twice.
unfoldable pub AreDistinct : Table Bytes (List Bytes) → Type 0
AreDistinct ht = (app : Bytes) → Distinct (strv_or_empty (lookup app ht))

-- A table in which one pair of an application and an id is as `now` says, and all else as it was.
pub record Changed (now : Bool) (app id : Bytes) (ht ht' : Table Bytes (List Bytes)) : Type 0 where
  pub has_now :
      (app' id' : Bytes)
      → has ht' app' id' ≡ (if str_eq app app' && str_eq id id' then now else has ht app' id')
  pub distinct : AreDistinct ht'

-- The new array of the application has to have it, and may not have anything twice.
Changed-replace :
    (now : Bool) (app id : Bytes) (ht : Table Bytes (List Bytes)) (array : List Bytes)
    → AreDistinct ht
    → Distinct array
    → ((id' : Bytes)
        → str_ptr_array_contains array id' ≡ (if str_eq id id' then now else has ht app id'))
    → Changed now app id ht (replace app array ht)
unfolding has AreDistinct
Changed-replace now app id ht array old d h = record {
  has_now =
      λ app' id'. ground (arith, lookup-replace app app' array ht, str_eq_iff app app', h id');
  distinct = λ app'.
      subst (λ k. Distinct (strv_or_empty k)) (sym (lookup-replace app app' array ht))
        (if_both (λ k. Distinct (strv_or_empty k)) (str_eq app app') d (old app'));
}

put_string-some :
    (app id : Bytes) (ht : Table Bytes (List Bytes)) (array : List Bytes)
    → lookup app ht ≡ some array
    → put_string app id ht ≡ replace app (add_string id array) ht
unfolding put_string
put_string-some app id ht array e = rw (e, put_string) refl

put_string-none :
    (app id : Bytes) (ht : Table Bytes (List Bytes))
    → lookup app ht ≡ none
    → put_string app id ht ≡ replace app (id ∷ []) ht
unfolding put_string
put_string-none app id ht e = rw (e, put_string) refl

take_string-some :
    (app id : Bytes) (ht : Table Bytes (List Bytes)) (array : List Bytes)
    → lookup app ht ≡ some array
    → take_string app id ht ≡ replace app (remove_string id array) ht
unfolding take_string
take_string-some app id ht array e = rw (e, take_string) refl

take_string-none :
    (app id : Bytes) (ht : Table Bytes (List Bytes))
    → lookup app ht ≡ none
    → take_string app id ht ≡ ht
unfolding take_string
take_string-none app id ht e = rw (e, take_string) refl

-- The array that the table has, where there is one.
found-Distinct :
    (app : Bytes) (ht : Table Bytes (List Bytes)) (array : List Bytes)
    → AreDistinct ht
    → lookup app ht ≡ some array
    → Distinct array
unfolding AreDistinct
found-Distinct app ht array old e = subst (λ k. Distinct (strv_or_empty k)) e (old app)

pub put_string-Changed :
    (app id : Bytes) (ht : Table Bytes (List Bytes))
    → AreDistinct ht
    → Changed true app id ht (put_string app id ht)
unfolding has
put_string-Changed app id ht old = elim (Option-cases (lookup app ht)) [
  | inl e ↦ subst (Changed true app id ht) (sym (put_string-none app id ht e)) (
      Changed-replace true app id ht (id ∷ []) old (contains-nil id, tt)
        (λ s. ground (arith, contains-cons id [] s, contains-nil s, e)))
  | inr (array, e) ↦
      let added = add_string-Added id array (found-Distinct app ht array old e) in
      subst (Changed true app id ht) (sym (put_string-some app id ht array e)) (
        Changed-replace true app id ht (add_string id array) old added.distinct
          (λ s. ground (arith, added.rest s, e)))
]

pub take_string-Changed :
    (app id : Bytes) (ht : Table Bytes (List Bytes))
    → AreDistinct ht
    → Changed false app id ht (take_string app id ht)
unfolding has
take_string-Changed app id ht old = elim (Option-cases (lookup app ht)) [
  | inl e ↦ subst (Changed false app id ht) (sym (take_string-none app id ht e)) (record {
    has_now = λ app' id'. ground (arith, str_eq_iff app app', contains-nil id', e);
    distinct = old;
  })
  | inr (array, e) ↦
      let removed = remove_string-Removed id array (found-Distinct app ht array old e) in
      subst (Changed false app id ht) (sym (take_string-some app id ht array e)) (
        Changed-replace false app id ht (remove_string id array) old removed.distinct
          (λ s. ground (arith, removed.rest s, e)))
]

not_removed-contains :
    (removals : Option (List Bytes)) (ids : List Bytes) (id : Bytes)
    → str_ptr_array_contains (not_removed removals ids) id
      ≡ (str_ptr_array_contains ids id && not (str_ptr_array_contains (strv_or_empty removals) id))
unfolding not_removed
not_removed-contains none ids id = ground (arith, contains-nil id)
not_removed-contains (some removals) [] id = ground (arith, contains-nil id)
not_removed-contains (some removals) (x ∷ ids) id = ground (
  arith,
  contains-cons x ids id,
  contains-cons x (not_removed (some removals) ids) id,
  not_removed-contains (some removals) ids id,
  str_eq_iff x id,
)

-- Whether the database lists the id under the application.
unfoldable pub listed : {V : Type 0} → Db V → Bytes → Bytes → Bool
listed self app id = str_ptr_array_contains (list_ids_by_app self app) id

pub listed_lem :
    {V : Type 0} (self : Db V) (app id : Bytes)
    → listed self app id ≡ (
        has self.app_additions app id
        || str_ptr_array_contains (strv_or_empty (value_of self.app_table app)) id
          && not (has self.app_removals app id))
unfolding listed list_ids_by_app has
listed_lem self app id =
    contains-append (strv_or_empty (lookup app self.app_additions)) _ id
    ∙ ap (λ k. str_ptr_array_contains (strv_or_empty (lookup app self.app_additions)) id || k)
        (not_removed-contains (lookup app self.app_removals) _ id)
