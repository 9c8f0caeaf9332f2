-- ===== src/Store/Refines.antt =====
-- The methods of the permission store beside their specification
-- (session-helper/xdg-app-permission-store.c).
use xdg_app.Db.Entry.{
  AppPermissions, Entry, Variants, entry_list_permissions, entry_modify_data, entry_new, get_data,
  get_permissions_variant, make_entry, search_loop, set_app_permissions, value_or_zero,
}
use xdg_app.Db.Entry.Apps.{SortedEntry}
use xdg_app.Db.Entry.Permissions.{set_app_permissions-entry_list_permissions}
use xdg_app.Db.Entry.Search.{IsSorted}
use xdg_app.Db.Queries.{db_lookup}
use xdg_app.Db.Save.Reopen.{Stores}
use xdg_app.Prelude.{
  Bool, Bool-cases, Bytes, List, Option, [], arith, false, if◌then◌else◌, inl, inr, none, refl,
  some, str_eq, str_eq_iff, subst, sym, true, ℕ, ◌∙◌, ◌∷◌, ◌≡◌,
}
use xdg_app.Store.{Session, StoreTable}
use xdg_app.Store.Changes.{Changes, Entries, entries_after, handle_table-Changes, put}
use xdg_app.Store.Handlers.{
  Handled, Request, add_all, delete_request, entry_or_new, entry_with_value, handle_table,
  list_request, lookup_request, may_write, set_permission_request, set_request, set_value_request,
}
use xdg_app.Store.Serves.{entry_new-IsSorted, handle_table-Served}
use xdg_app.Store.Spec.{
  IsShown, Kept, KeptMap, Shows, grant, grant_each, grant_kept, keep, revalue_kept, set_kept, spec,
}
use xdg_app.Store.Writes.{TableOk}

module _ {V : Type 0} where
  put-IsShown :
      (id : Bytes) (new : Option (Kept V)) (entry : Option (Entry V)) (m : KeptMap V)
      (n : Entries V)
      → IsShown new entry
      → Shows m n
      → (j : Bytes) → IsShown (if str_eq id j then new else m j) (put id entry n j)
  put-IsShown id new entry m n h all j = by_test (str_eq id j)
    where
      by_test : (test : Bool) → IsShown (if test then new else m j) (if test then entry else n j)
      by_test true = h
      by_test false = all j

  -- Setting the permissions of an application, on both sides.
  set_app_permissions-IsShown :
      (entry : Entry V) (kept : Kept V) (app : Bytes) (permissions : List Bytes)
      → IsSorted entry.app_permissions
      → IsShown (some kept) (some entry)
      → (new : Entry V) × (set_app_permissions entry app (some permissions) ≡ some new)
        × IsSorted new.app_permissions
        × IsShown
            (some
              (record { kept_value = kept.kept_value; grants = grant app permissions kept.grants }))
            (some new)
  set_app_permissions-IsShown entry kept app permissions sorted shown =
      let made = set_app_permissions-entry_list_permissions entry app permissions sorted in
      (
        made.0,
        made.1,
        made.2,
        (
          made.3 ∙ shown.0,
          λ x. elim (Bool-cases (str_eq app x)) [
            | inl same ↦ rw same (
                subst (λ k. entry_list_permissions made.0 k ≡ permissions)
                  ((str_eq_iff app x).0 same) made.4)
            | inr other ↦ rw other (made.5 x (ground (arith, str_eq_iff app x, other)) ∙ shown.1 x)
          ],
        ),
      )

  add_all-IsShown :
      (entry : Entry V) (kept : Kept V) (iter : AppPermissions)
      → IsSorted entry.app_permissions
      → IsShown (some kept) (some entry)
      → IsShown
          (some (record { kept_value = kept.kept_value; grants = grant_each iter kept.grants }))
          (add_all entry iter)
  unfolding add_all
  add_all-IsShown entry kept [] sorted shown = shown
  add_all-IsShown entry kept ((app, permissions) ∷ iter) sorted shown =
      let (new, e, new_sorted, new_shown) =
        set_app_permissions-IsShown entry kept app permissions sorted shown in
      subst
        (λ k.
          IsShown
            (some (record {
              kept_value = kept.kept_value;
              grants = grant_each iter (grant app permissions kept.grants);
            }))
            (elim k [ none ↦ none | some next ↦ add_all next iter ]))
        (sym e)
        (add_all-IsShown new
          (record { kept_value = kept.kept_value; grants = grant app permissions kept.grants }) iter
          new_sorted new_shown)

module _ {V : Type 0} ⦃g : Variants V⦄ (n : Entries V) (m : KeptMap V) (shows : Shows m n)
    (id : Bytes) where
  entry_new-IsShown :
      (value : V)
      → IsShown
          (some (record { kept_value = value; grants = λ x. [] }))
          (some (entry_new (some value)))
  unfolding entry_new make_entry value_or_zero get_data entry_list_permissions
      get_permissions_variant search_loop
  entry_new-IsShown value = (refl, λ app. refl)

  set-Shows :
      (s : Option (Kept V)) (x : Option (Entry V)) (create : Bool)
      (app_permissions : AppPermissions) (value : V)
      → IsShown s x
      → Shows (keep id (set_kept s create app_permissions value) m) (
          if may_write x create
          then put id (add_all (entry_new (some value)) app_permissions) n
          else n)
  unfolding may_write
  set-Shows none none false l value h = shows
  set-Shows none none true l value h =
      put-IsShown id _ _ m n
        (add_all-IsShown (entry_new (some value)) _ l (entry_new-IsSorted (some value))
          (entry_new-IsShown value))
        shows
  set-Shows (some s) (some x) create l value h =
      put-IsShown id _ _ m n
        (add_all-IsShown (entry_new (some value)) _ l (entry_new-IsSorted (some value))
          (entry_new-IsShown value))
        shows
  set-Shows none (some x) create l value h = absurd h
  set-Shows (some s) none create l value h = absurd h

  -- One application's permissions, on an entry that is shown.
  granted-Shows :
      (entry : Entry V) (kept : Kept V) (app : Bytes) (permissions : List Bytes)
      → IsSorted entry.app_permissions
      → IsShown (some kept) (some entry)
      → Shows
          (keep id
            (some
              (record { kept_value = kept.kept_value; grants = grant app permissions kept.grants }))
            m)
          (put id (set_app_permissions entry app (some permissions)) n)
  granted-Shows entry kept app permissions sorted shown =
      let (new, e, new_sorted, new_shown) =
        set_app_permissions-IsShown entry kept app permissions sorted shown in
      put-IsShown id _ _ m n (subst (IsShown (some _)) (sym e) new_shown) shows

  grant-Shows :
      (s : Option (Kept V)) (x : Option (Entry V)) (create : Bool) (app : Bytes)
      (permissions : List Bytes)
      → SortedEntry x
      → IsShown s x
      → Shows (keep id (grant_kept g.byte_zero s create app permissions) m) (
          if may_write x create
          then put id (set_app_permissions (entry_or_new x) app (some permissions)) n
          else n)
  unfolding may_write entry_or_new entry_new make_entry value_or_zero
  grant-Shows none none false app permissions sorted h = shows
  grant-Shows none none true app permissions sorted h =
      granted-Shows (entry_new none) (record { kept_value = g.byte_zero; grants = λ x. [] }) app
        permissions tt (entry_new-IsShown g.byte_zero)
  grant-Shows (some s) (some x) create app permissions sorted h =
      granted-Shows x s app permissions sorted h
  grant-Shows none (some x) create app permissions sorted h = absurd h
  grant-Shows (some s) none create app permissions sorted h = absurd h

  revalue-Shows :
      (s : Option (Kept V)) (x : Option (Entry V)) (create : Bool) (value : V)
      → IsShown s x
      → Shows
          (keep id (revalue_kept s create value) m)
          (if may_write x create then put id (some (entry_with_value x value)) n else n)
  unfolding may_write entry_with_value entry_modify_data make_entry value_or_zero get_data
      entry_list_permissions get_permissions_variant
  revalue-Shows none none false value h = shows
  revalue-Shows none none true value h = put-IsShown id _ _ m n (entry_new-IsShown value) shows
  revalue-Shows (some s) (some x) create value h = put-IsShown id _ _ m n (refl, h.1) shows
  revalue-Shows none (some x) create value h = absurd h
  revalue-Shows (some s) none create value h = absurd h

-- The entries after a call are shown by the map that the specification gives.
spec-Shows :
    {V : Type 0} ⦃g : Variants V⦄ (request : Request V) (m : KeptMap V) (n : Entries V)
    → Shows m n
    → ((id : Bytes) → SortedEntry (n id))
    → Shows (spec request m) (entries_after request n)
spec-Shows list_request m n shows sorted = shows
spec-Shows (lookup_request id) m n shows sorted = shows
spec-Shows (delete_request id) m n shows sorted = put-IsShown id none none m n tt shows
spec-Shows (set_request create id app_permissions value) m n shows sorted =
    set-Shows n m shows id (m id) (n id) create app_permissions value (shows id)
spec-Shows (set_permission_request create id app permissions) m n shows sorted =
    grant-Shows n m shows id (m id) (n id) create app permissions (sorted id) (shows id)
spec-Shows ⦃g⦄ (set_value_request create id value) m n shows sorted =
    revalue-Shows n m shows id (m id) (n id) create (g.boxed value) (shows id)

-- The table that a call returns, shown by a map.
abbrev pub Maps : {V : Type 0} → KeptMap V → Handled V → Type 0
Maps m none = ⊥
Maps m (some (table, answers)) = Shows m (db_lookup table.db)

-- A method call on a table in order returns. Where a map shows what the entries of the table were,
-- each with its value and the permissions of each application, `spec` of the map shows what they are
-- afterwards. List and Lookup change nothing. Delete removes the id. Set gives it the value and just
-- the permissions that are named; SetPermission sets those of one application and keeps the rest;
-- SetValue keeps the permissions and sets the value, in one more variant than it was given. These
-- three do nothing to an id without a value unless they may create it. No other id changes.
pub handle_table-Maps :
    {V : Type 0} ⦃g : Variants V⦄ (session : Session V) (stores : Stores session.storage)
    (table : StoreTable V) (invocation : ℕ) (request : Request V) (m : KeptMap V)
    → TableOk table
    → Shows m (db_lookup table.db)
    → Maps (spec request m) (handle_table session table invocation request)
handle_table-Maps session stores table invocation request m ordered shows =
    let (table', answers, e, served) =
      handle_table-Served session stores table invocation request ordered in
    let changed : Changes (entries_after request (db_lookup table.db)) (some (table', answers)) =
      subst (Changes (entries_after request (db_lookup table.db))) e
        (handle_table-Changes session table invocation request) in
    subst (Maps (spec request m)) (sym e) (λ j.
      subst (IsShown (spec request m j)) (sym (changed j))
        (spec-Shows request m (db_lookup table.db) shows ordered.consistent.agrees.sorted j))
