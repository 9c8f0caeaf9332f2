-- ===== src/Portal/Methods/Setting.antt =====
-- What setting permissions does to every document and application (document-portal/xdp-main.c).
use xdg_app.Db.Entry.{Entry, entry_list_permissions}
use xdg_app.Db.Entry.Apps.{SortedEntry}
use xdg_app.Db.Entry.Permissions.{set_app_permissions-entry_list_permissions}
use xdg_app.Db.Index.Agrees.{Agrees, db_lookup-set_entry, set_entry-Agrees}
use xdg_app.Db.Queries.{db_lookup}
use xdg_app.Db.State.{Db}
use xdg_app.Portal.Documents.{
  DocumentValues, Outcome, do_set_permissions, granted, put_new, put_permissions,
}
use xdg_app.Portal.Flags.{
  Flags, entry_get_permissions, flags_or, flags_within, flags_without, no_flags,
  unparse_permissions,
}
use xdg_app.Portal.Flags.Parsing.{parse_permissions-unparse_permissions}
use xdg_app.Portal.Methods.{grant_flag}
use xdg_app.Prelude.{
  Bool-cases, Bytes, Option, [], ap, arith, false, if◌then◌else◌, inl, inr, none, refl, set, some,
  str_eq, str_eq_iff, subst, true, ◌&&◌, ◌∙◌, ◌≡◌, ◌≢◌,
}

abbrev pub flags_of : {V : Type 0} → Option (Entry V) → Bytes → Flags
flags_of none app = no_flags
flags_of (some entry) app = entry_get_permissions entry app

-- The permissions of an application on a document, none where there is no document.
unfoldable pub permissions_on : {V : Type 0} → Db V → Bytes → Bytes → Flags
permissions_on db id app = flags_of (db_lookup db id) app

pub permissions_on-some :
    {V : Type 0} (db : Db V) (id app : Bytes) (entry : Entry V)
    → db_lookup db id ≡ some entry
    → permissions_on db id app ≡ entry_get_permissions entry app
unfolding permissions_on
permissions_on-some db id app entry e = ap (λ k. flags_of k app) e

pub within-or :
    (p q g : Flags) → flags_within p g ≡ true → flags_within (flags_or p q) (flags_or q g) ≡ true
unfolding flags_within flags_or
within-or p q g h = ground (arith, h)

pub within-without : (p q : Flags) → flags_within (flags_without p q) q ≡ true
unfolding flags_within flags_without
within-without p q = ground arith

pub within_or_left : (p g : Flags) → flags_within p (flags_or p g) ≡ true
unfolding flags_within flags_or
within_or_left p g = ground arith

pub within_grant :
    (p g : Flags)
    → flags_within (flags_or grant_flag p) g ≡ true
    → (g.can_grant ≡ true) × (flags_within p g ≡ true)
unfolding flags_within flags_or
within_grant p g h = (ground (arith, h), ground (arith, h))

-- What the permissions of an application are after they are set.
set_permissions-entry_get_permissions :
    {V : Type 0} (entry new : Entry V) (app x : Bytes) (perms : Flags)
    → str_eq app [] ≡ false
    → entry_list_permissions new app ≡ unparse_permissions perms
    → ((other : Bytes)
        → app ≢ other
        → entry_list_permissions new other ≡ entry_list_permissions entry other)
    → entry_get_permissions new x ≡ (if str_eq app x then perms else entry_get_permissions entry x)
unfolding entry_get_permissions
set_permissions-entry_get_permissions entry new app x perms named set kept =
    elim (Bool-cases (str_eq app x)) [
      | inl same ↦
          ground
            (arith, str_eq_iff app x, same, named, set, parse_permissions-unparse_permissions perms)
      | inr other ↦ ground (arith, other, kept x (ground (arith, str_eq_iff app x, other)))
    ]

module _ {V : Type 0} ⦃docs : DocumentValues V⦄ (db : Db V) (agrees : Agrees db) where
  -- The outcome of do_set_permissions: one application has these permissions on one document, and
  -- everything else is as it was.
  pub record Sets (id app : Bytes) (perms : Flags) (outcome : Option (Outcome V)) : Type 0 where
    pub out : Outcome V
    pub returns : outcome ≡ some out
    pub is_granted : out.reply ≡ granted
    pub still_agrees : Agrees out.db
    pub now_on :
        (d x : Bytes)
        → permissions_on out.db d x
          ≡ (if str_eq id d && str_eq app x then perms else permissions_on db d x)

  pub do_set_permissions-Sets :
      (entry : Entry V) (id app : Bytes) (perms : Flags)
      → db_lookup db id ≡ some entry
      → str_eq app [] ≡ false
      → Sets id app perms (do_set_permissions db entry id app perms)
  unfolding do_set_permissions put_permissions permissions_on
  do_set_permissions-Sets entry id app perms e named =
      let sorted : SortedEntry (some entry) = subst SortedEntry e (agrees.sorted id) in
      let made =
        set_app_permissions-entry_list_permissions entry app (unparse_permissions perms) sorted in
      let new = made.0 in
      record {
        out = put_permissions db id app (unparse_permissions perms) new;
        returns = ap (put_new db id app (unparse_permissions perms)) made.1;
        is_granted = refl;
        still_agrees = set_entry-Agrees db id (some new) agrees made.2;
        now_on = λ d x.
            ap (λ k. flags_of k x) (db_lookup-set_entry db id (some new) d)
            ∙ ground (
              arith,
              set_permissions-entry_get_permissions entry new app x perms named made.4 made.5,
              str_eq_iff id d,
              e,
            );
      }
