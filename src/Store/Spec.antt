-- ===== src/Store/Spec.antt =====
-- What the service keeps, as a map from ids to values with permissions, and what each method is to
-- do to it (session-helper/xdg-app-permission-store.c).
use xdg_app.Db.Entry.{AppPermissions, Entry, Variants, entry_list_permissions, get_data}
use xdg_app.Prelude.{
  Bool, Bytes, List, Option, [], false, if◌then◌else◌, none, some, str_eq, true, ◌∷◌, ◌≡◌,
}
use xdg_app.Store.Changes.{Entries}
use xdg_app.Store.Handlers.{
  Request, delete_request, list_request, lookup_request, set_permission_request, set_request,
  set_value_request,
}

-- What is kept for an id: a value, and the permissions of each application.
pub record Kept (V : Type 0) : Type 0 where
  pub kept_value : V
  pub grants : Bytes → List Bytes

abbrev pub KeptMap : Type 0 → Type 0
KeptMap V = Bytes → Option (Kept V)

-- The permissions of one application are set.
abbrev pub grant : Bytes → List Bytes → (Bytes → List Bytes) → Bytes → List Bytes
grant app permissions grants x = if str_eq app x then permissions else grants x

-- Permissions are set in turn.
abbrev pub grant_each : AppPermissions → (Bytes → List Bytes) → Bytes → List Bytes
grant_each [] grants = grants
grant_each ((app, permissions) ∷ more) grants = grant_each more (grant app permissions grants)

module _ {V : Type 0} where
  -- What a call makes of what is kept for its id; `none` where it changes nothing. An id without a
  -- value is written only by a call that may create it.
  abbrev pub set_kept : Option (Kept V) → Bool → AppPermissions → V → Option (Kept V)
  set_kept none false app_permissions value = none
  set_kept none true app_permissions value =
      some (record { kept_value = value; grants = grant_each app_permissions (λ x. []) })
  set_kept (some old) create app_permissions value =
      some (record { kept_value = value; grants = grant_each app_permissions (λ x. []) })

  abbrev pub grant_kept : V → Option (Kept V) → Bool → Bytes → List Bytes → Option (Kept V)
  grant_kept zero_value none false app permissions = none
  grant_kept zero_value none true app permissions =
      some (record { kept_value = zero_value; grants = grant app permissions (λ x. []) })
  grant_kept zero_value (some old) create app permissions =
      some (record { kept_value = old.kept_value; grants = grant app permissions old.grants })

  abbrev pub revalue_kept : Option (Kept V) → Bool → V → Option (Kept V)
  revalue_kept none false value = none
  revalue_kept none true value = some (record { kept_value = value; grants = λ x. [] })
  revalue_kept (some old) create value = some (record { kept_value = value; grants = old.grants })

  abbrev pub keep : Bytes → Option (Kept V) → KeptMap V → KeptMap V
  keep id none m j = m j
  keep id (some new) m j = if str_eq id j then some new else m j

  -- What each method is to do. SetValue keeps its argument of type v in one more v.
  abbrev pub spec : ⦃g : Variants V⦄ → Request V → KeptMap V → KeptMap V
  spec list_request m j = m j
  spec (lookup_request id) m j = m j
  spec (delete_request id) m j = if str_eq id j then none else m j
  spec (set_request create id app_permissions value) m j =
      keep id (set_kept (m id) create app_permissions value) m j
  spec ⦃g⦄ (set_permission_request create id app permissions) m j =
      keep id (grant_kept g.byte_zero (m id) create app permissions) m j
  spec ⦃g⦄ (set_value_request create id value) m j =
      keep id (revalue_kept (m id) create (g.boxed value)) m j

  -- An entry has this value, and these permissions.
  abbrev pub IsShown : Option (Kept V) → Option (Entry V) → Type 0
  IsShown none none = Unit
  IsShown none (some entry) = ⊥
  IsShown (some kept) none = ⊥
  IsShown (some kept) (some entry) =
      (get_data entry ≡ kept.kept_value)
      × ((app : Bytes) → entry_list_permissions entry app ≡ kept.grants app)

  -- The abstract map shows what the entries are.
  abbrev pub Shows : KeptMap V → Entries V → Type 0
  Shows m n = (j : Bytes) → IsShown (m j) (n j)
