-- ===== src/Db/Entry.antt =====
-- Entries: a value and the permissions of applications on it (lib/xdg-app-db.c).
pub mod Search
pub mod Permissions
pub mod Apps
use xdg_app.Db.Strings.{len_is_zero, less, str_ptr_array_contains}
use xdg_app.Prelude.{
  Bool, Bytes, List, Option, [], false, get_elem?, if◌then◌else◌, length, ltb, none, not, some,
  str_eq, suc, true, zero, ℕ, ◌+◌, ◌/◌, ◌∷◌,
}

-- What the database and the service ask of GVariant: g_variant_new_byte (0), g_variant_equal, and
-- the value of type v that holds another.
pub record Variants (V : Type 0) : Type 0 where
  pub byte_zero : V
  pub variant_equal : V → V → Bool
  pub boxed : V → V

-- An a{sas}: application ids with their permissions.
abbrev pub AppPermissions : Type 0
AppPermissions = List (Bytes × List Bytes)

-- A (v@a{sas}).
pub record Entry (V : Type 0) : Type 0 where
  pub value : V
  pub app_permissions : AppPermissions

module _ {V : Type 0} where
  unfoldable pub make_entry : V → AppPermissions → Entry V
  make_entry value app_permissions = record { value = value; app_permissions = app_permissions }

  -- xdg_app_db_entry_get_data
  unfoldable pub get_data : Entry V → V
  get_data entry = entry.value

unfoldable pub apps_of : AppPermissions → List Bytes
apps_of [] = []
apps_of ((child_app_id, permissions) ∷ iter) =
    let res = apps_of iter in if not (len_is_zero permissions) then child_app_id ∷ res else res

-- xdg_app_db_entry_list_apps
unfoldable pub entry_list_apps : {V : Type 0} → Entry V → List Bytes
unfolding apps_of
entry_list_apps entry = apps_of entry.app_permissions

-- The loop of xdg_app_db_entry_get_permissions_variant; `none` is fuel that ran out.
unfoldable pub search_loop : ℕ → AppPermissions → Bytes → ℕ → ℕ → Option (Option (List Bytes))
search_loop zero app_array app_id start end = none
search_loop (suc fuel) app_array app_id start end =
    let m = (start + end) / 2 in
    let lower = search_loop fuel app_array app_id start m in
    let upper = search_loop fuel app_array app_id (suc m) end in
    if ltb start end
    then elim (get_elem? app_array m) [
      | none ↦ some none
      | some (child_app_id, permissions) ↦
          if str_eq app_id child_app_id
          then some (some permissions)
          else if less app_id child_app_id
          then lower
          else upper
    ]
    else some none

-- xdg_app_db_entry_get_permissions_variant
unfoldable pub get_permissions_variant :
    {V : Type 0} → Entry V → Bytes → Option (Option (List Bytes))
unfolding search_loop
get_permissions_variant entry app_id =
    let n_children = length entry.app_permissions in
    search_loop (suc n_children) entry.app_permissions app_id 0 n_children

abbrev pub strv_or_empty : Option (List Bytes) → List Bytes
strv_or_empty none = []
strv_or_empty (some permissions) = permissions

abbrev pub found_or_empty : Option (Option (List Bytes)) → List Bytes
found_or_empty none = []
found_or_empty (some permissions) = strv_or_empty permissions

-- xdg_app_db_entry_list_permissions
unfoldable pub entry_list_permissions : {V : Type 0} → Entry V → Bytes → List Bytes
unfolding get_permissions_variant
entry_list_permissions entry app = found_or_empty (get_permissions_variant entry app)

-- xdg_app_db_entry_has_permission, with g_strv_contains
unfoldable pub has_permission : {V : Type 0} → Entry V → Bytes → Bytes → Bool
unfolding entry_list_permissions
has_permission entry app permission =
    str_ptr_array_contains (entry_list_permissions entry app) permission

unfoldable pub contains_all : List Bytes → List Bytes → Bool
contains_all app_permissions [] = true
contains_all app_permissions (permission ∷ permissions) =
    let rest = contains_all app_permissions permissions in
    if not (str_ptr_array_contains app_permissions permission) then false else rest

-- xdg_app_db_entry_has_permissions
unfoldable pub entry_has_permissions : {V : Type 0} → Entry V → Bytes → List Bytes → Bool
unfolding entry_list_permissions contains_all
entry_has_permissions entry app permissions =
    contains_all (entry_list_permissions entry app) permissions

-- The array that stands in for NULL is itself NULL, so g_variant_new_strv has no value for it and
-- g_variant_new ends the process: `none`.
unfoldable pub make_permissions : Bytes → Option (List Bytes) → Option (Bytes × List Bytes)
make_permissions app none = none
make_permissions app (some permissions) = some (app, permissions)

-- The loop of add_permissions.
unfoldable pub add_loop : Bool → Bytes → List Bytes → AppPermissions → AppPermissions
add_loop added new_app_id permissions [] = if not added then (new_app_id, permissions) ∷ [] else []
add_loop added new_app_id permissions ((child_app_id, old) ∷ iter) =
    let behind_new = add_loop true new_app_id permissions iter in
    let behind_old = add_loop added new_app_id permissions iter in
    if str_eq new_app_id child_app_id
    then (new_app_id, permissions) ∷ behind_new
    else if less new_app_id child_app_id
    then if not added
      then (new_app_id, permissions) ∷ (child_app_id, old) ∷ behind_new
      else (child_app_id, old) ∷ behind_old
    else (child_app_id, old) ∷ behind_old

unfoldable pub add_permissions : AppPermissions → Bytes × List Bytes → AppPermissions
unfolding add_loop
add_permissions app_permissions (new_app_id, permissions) =
    add_loop false new_app_id permissions app_permissions

module _ {V : Type 0} ⦃g : Variants V⦄ where
  unfoldable pub value_or_zero : Option V → V
  value_or_zero none = g.byte_zero
  value_or_zero (some value) = value

  -- xdg_app_db_entry_new
  unfoldable pub entry_new : Option V → Entry V
  unfolding make_entry value_or_zero
  entry_new value = make_entry (value_or_zero value) []

  -- xdg_app_db_entry_modify_data
  unfoldable pub entry_modify_data : Entry V → Option V → Entry V
  unfolding make_entry value_or_zero
  entry_modify_data entry value = make_entry (value_or_zero value) entry.app_permissions

-- xdg_app_db_entry_set_app_permissions
unfoldable pub set_app_permissions :
    {V : Type 0} → Entry V → Bytes → Option (List Bytes) → Option (Entry V)
unfolding make_entry add_permissions make_permissions get_data
set_app_permissions entry app permissions = elim (make_permissions app permissions) [
  | none ↦ none
  | some new ↦ some (make_entry (get_data entry) (add_permissions entry.app_permissions new))
]
