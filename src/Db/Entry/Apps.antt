-- ===== src/Db/Entry/Apps.antt =====
-- The applications that an entry lists are those with a permission (lib/xdg-app-db.c).
use xdg_app.Db.Entry.{AppPermissions, Entry, apps_of, entry_list_apps}
use xdg_app.Db.Entry.Search.{IsSorted, keys}
use xdg_app.Db.Strings.{less, str_ptr_array_contains}
use xdg_app.Db.Strings.Arrays.{contains-nil, contains-sort_strv}
use xdg_app.Db.Strings.Order.{Strict, sort_strv-Strict}
use xdg_app.Db.Update.{sorted_apps}
use xdg_app.Prelude.{All, Bool, Bytes, Option, [], false, none, some, subst, sym, true, ◌∷◌, ◌≡◌}

apps_of-All :
    (x : Bytes) (l : AppPermissions)
    → All (λ c. less x c ≡ true) (keys l)
    → All (λ c. less x c ≡ true) (apps_of l)
unfolding apps_of
apps_of-All x [] all = tt
apps_of-All x ((c, []) ∷ l) all = apps_of-All x l all.1
apps_of-All x ((c, p ∷ ps) ∷ l) all = (all.0, apps_of-All x l all.1)

apps_of-Strict : (l : AppPermissions) → IsSorted l → Strict (apps_of l)
unfolding apps_of
apps_of-Strict [] sorted = tt
apps_of-Strict ((c, []) ∷ l) sorted = apps_of-Strict l sorted.1
apps_of-Strict ((c, p ∷ ps) ∷ l) sorted = (apps_of-All c l sorted.0, apps_of-Strict l sorted.1)

-- An entry, where there is one, has its applications sorted.
abbrev pub SortedEntry : {V : Type 0} → Option (Entry V) → Type 0
SortedEntry none = Unit
SortedEntry (some entry) = IsSorted entry.app_permissions

-- Whether an entry, where there is one, lists the application.
unfoldable pub lists_app : {V : Type 0} → Option (Entry V) → Bytes → Bool
lists_app none app = false
lists_app (some entry) app = str_ptr_array_contains (entry_list_apps entry) app

pub sorted_apps-Strict :
    {V : Type 0} (entry : Option (Entry V)) → SortedEntry entry → Strict (sorted_apps entry)
unfolding sorted_apps entry_list_apps
sorted_apps-Strict none sorted = tt
sorted_apps-Strict (some entry) sorted =
    let strict = apps_of-Strict entry.app_permissions sorted in
    subst Strict (sym (sort_strv-Strict (apps_of entry.app_permissions) strict)) strict

pub sorted_apps-contains :
    {V : Type 0} (entry : Option (Entry V)) (app : Bytes)
    → str_ptr_array_contains (sorted_apps entry) app ≡ lists_app entry app
unfolding sorted_apps lists_app
sorted_apps-contains none app = contains-nil app
sorted_apps-contains (some entry) app = contains-sort_strv (entry_list_apps entry) app
