-- ===== src/Db/Entry/Permissions.antt =====
-- Setting and listing the permissions of one application in an entry (lib/xdg-app-db.c).
use xdg_app.Db.Entry.{
  AppPermissions, Entry, add_loop, add_permissions, entry_list_permissions, found_or_empty,
  get_data, make_entry, make_permissions, set_app_permissions, strv_or_empty,
}
use xdg_app.Db.Entry.Search.{IsSorted, get_permissions_variant-lookup, keys}
use xdg_app.Db.Strings.{less}
use xdg_app.Db.Strings.Order.{All-less_trans, less_ne, less_total}
use xdg_app.Prelude.{
  All, Bool, Bytes, List, [], ap, arith, bytes_eq, direct_eq, false, if_both, if_cases, lookup, not,
  refl, some, str_eq, str_eq_comm, str_eq_iff, str_eq_refl, subst, sym, true, ◌∙◌, ◌∷◌, ◌≡◌, ◌≢◌,
}

unchanged-lookup :
    (added : Bool) (new j : Bytes) (p : List Bytes) (l : AppPermissions)
    → str_eq new j ≡ false
    → lookup j (add_loop added new p l) ≡ lookup j l
unfolding add_loop lookup
unchanged-lookup added new j p [] h = ground arith
unchanged-lookup added new j p ((c, old) ∷ l) h = ground (
  arith,
  str_eq_iff new c,
  str_eq_iff c j,
  str_eq_iff new j,
  unchanged-lookup added new j p l h,
  unchanged-lookup true new j p l h,
)

add_loop-lookup :
    (new : Bytes) (p : List Bytes) (l : AppPermissions)
    → lookup new (add_loop false new p l) ≡ some p
unfolding add_loop lookup
add_loop-lookup new p [] = ground (arith, str_eq_refl new)
add_loop-lookup new p ((c, old) ∷ l) =
    ground (arith, str_eq_refl new, str_eq_comm new c, add_loop-lookup new p l)

add_loop-above :
    (new : Bytes) (p : List Bytes) (l : AppPermissions)
    → All (λ c. less new c ≡ true) (keys l)
    → add_loop true new p l ≡ l
unfolding add_loop
add_loop-above new p [] all = refl
add_loop-above new p ((c, old) ∷ l) all =
    ground (arith, less_ne new c all.0, all.0, add_loop-above new p l all.1)

abbrev Above : Bytes → AppPermissions → Type 0
Above x l = All (λ c. less x c ≡ true) (keys l)

add_loop-All :
    (added : Bool) (x new : Bytes) (p : List Bytes) (l : AppPermissions)
    → less x new ≡ true
    → Above x l
    → Above x (add_loop added new p l)
unfolding add_loop
add_loop-All false x new p [] h all = (h, tt)
add_loop-All true x new p [] h all = tt
add_loop-All added x new p ((c, old) ∷ l) h all =
    let behind_new = add_loop-All true x new p l h all.1 in
    let behind_old = add_loop-All added x new p l h all.1 in
    if_both (Above x) (str_eq new c) (h, behind_new)
      (if_both (Above x) (less new c)
        (if_both (Above x) (not added) (h, (all.0, behind_new)) (all.0, behind_old))
        (all.0, behind_old))

-- `add_loop true` in front of a sorted array that lies above the new id
new_first-IsSorted :
    (new : Bytes) (p : List Bytes) (l : AppPermissions)
    → Above new l
    → IsSorted l
    → IsSorted ((new, p) ∷ add_loop true new p l)
new_first-IsSorted new p l all sorted =
    subst (λ k. IsSorted ((new, p) ∷ k)) (sym (add_loop-above new p l all)) (all, sorted)

add_loop-IsSorted :
    (new : Bytes) (p : List Bytes) (l : AppPermissions)
    → IsSorted l
    → IsSorted (add_loop false new p l)
unfolding add_loop
add_loop-IsSorted new p [] sorted = (tt, tt)
add_loop-IsSorted new p ((c, old) ∷ l) sorted =
    if_cases IsSorted (str_eq new c)
      (λ same.
        new_first-IsSorted new p l
          (subst (λ k. Above k l) (sym ((str_eq_iff new c).0 same)) sorted.0) sorted.1)
      (λ other.
        if_cases IsSorted (less new c)
          (λ low.
            let above = All-less_trans new c (keys l) low sorted.0 in
            subst (λ k. IsSorted ((new, p) ∷ (c, old) ∷ k)) (sym (add_loop-above new p l above))
              ((low, above), sorted))
          (λ high. (
            add_loop-All false c new p l (less_total new c high other) sorted.0,
            add_loop-IsSorted new p l sorted.1,
          )))

pub entry_list_permissions-lookup :
    {V : Type 0} (entry : Entry V) (app : Bytes)
    → IsSorted entry.app_permissions
    → entry_list_permissions entry app ≡ strv_or_empty (lookup app entry.app_permissions)
unfolding entry_list_permissions
entry_list_permissions-lookup entry app sorted =
    ap found_or_empty (get_permissions_variant-lookup entry app sorted)

-- Setting the permissions of an application in an entry whose applications are sorted succeeds:
-- the new entry is sorted again and has the same value, it lists these permissions for that
-- application, and for any other the ones it had.
pub set_app_permissions-entry_list_permissions :
    {V : Type 0} (entry : Entry V) (app : Bytes) (permissions : List Bytes)
    → IsSorted entry.app_permissions
    → (new : Entry V) × (set_app_permissions entry app (some permissions) ≡ some new)
      × IsSorted new.app_permissions
      × (get_data new ≡ get_data entry)
      × (entry_list_permissions new app ≡ permissions)
      × ((other : Bytes)
          → app ≢ other
          → entry_list_permissions new other ≡ entry_list_permissions entry other)
unfolding set_app_permissions make_permissions make_entry add_permissions get_data
set_app_permissions-entry_list_permissions entry app permissions sorted =
    let l = entry.app_permissions in
    let new = make_entry (get_data entry) (add_loop false app permissions l) in
    let again = add_loop-IsSorted app permissions l sorted in
    (
      new,
      refl,
      again,
      refl,
      entry_list_permissions-lookup new app again
          ∙ ap strv_or_empty (add_loop-lookup app permissions l),
      λ other h.
          entry_list_permissions-lookup new other again
          ∙ ap strv_or_empty (
              unchanged-lookup false app other permissions l
                (ground (arith, str_eq_iff app other, h)))
          ∙ sym (entry_list_permissions-lookup entry other sorted),
    )
