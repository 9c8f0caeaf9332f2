-- ===== src/Portal/Methods/Safety.antt =====
-- What granting does to the permissions of all applications (document-portal/xdp-main.c).
use xdg_app.Db.Entry.{Entry}
use xdg_app.Db.Index.Agrees.{Agrees}
use xdg_app.Db.Queries.{db_lookup}
use xdg_app.Db.State.{Db}
use xdg_app.Portal.Documents.{
  DocumentValues, Outcome, PortalError, do_set_permissions, granted, invalid_argument, no_document,
  not_allowed, refuse,
}
use xdg_app.Portal.Flags.{
  Flags, entry_get_permissions, flags_or, flags_within, has_permissions, no_flags,
  parse_permissions,
}
use xdg_app.Portal.Methods.{grant_flag, grant_on, portal_grant_permissions}
use xdg_app.Portal.Methods.Setting.{
  do_set_permissions-Sets, permissions_on, permissions_on-some, within-or, within_grant,
  within_or_left,
}
use xdg_app.Prelude.{
  Bool, Bytes, List, Option, [], arith, false, if_cases, if◌then◌else◌, not, option_cases, refl,
  some, str_eq, str_eq_iff, str_eq_refl, subst, sym, true, ◌&&◌, ◌∙◌, ◌∷◌, ◌≡◌,
}
use xdg_app.Utils.{is_valid_name}

pub valid_ne : (target : Bytes) → is_valid_name target ≡ true → str_eq target [] ≡ false
unfolding is_valid_name str_eq
valid_ne [] h = cc
valid_ne (c ∷ s) h = refl

module _ {V : Type 0} ⦃docs : DocumentValues V⦄ (db : Db V) (agrees : Agrees db) where
  -- What a caller that may grant on the document can pass on: what it has itself.
  unfoldable pub gift : Bytes → Bytes → Bytes → Bytes → Bytes → Flags
  gift caller id target d x =
      if str_eq id d && (str_eq target x && (permissions_on db id caller).can_grant)
      then permissions_on db id caller
      else no_flags

  -- A call that gives no more than the gift.
  pub record Grants (caller id target : Bytes) (perms : Flags) (outcome : Option (Outcome V))
      : Type 0 where
    pub out : Outcome V
    pub returns : outcome ≡ some out
    pub still_agrees : Agrees out.db
    pub bounded :
        (d x : Bytes)
        → flags_within
            (permissions_on out.db d x)
            (flags_or (permissions_on db d x) (gift caller id target d x))
          ≡ true
    pub gives : out.reply ≡ granted → flags_within perms (permissions_on out.db id target) ≡ true

  refused-Grants :
      (caller id target : Bytes) (perms : Flags) (error : PortalError)
      → Grants caller id target perms (some (refuse db error))
  refused-Grants caller id target perms error = record {
    out = refuse db error;
    returns = refl;
    still_agrees = agrees;
    bounded = λ d x. within_or_left (permissions_on db d x) (gift caller id target d x);
    gives = λ h. cc;
  }

  gift-may :
      (caller id target d x : Bytes) (g : Flags)
      → permissions_on db id caller ≡ g
      → g.can_grant ≡ true
      → gift caller id target d x ≡ (if str_eq id d && str_eq target x then g else no_flags)
  unfolding gift
  gift-may caller id target d x g e may =
      subst
        (λ k.
          (if str_eq id d && (str_eq target x && k.can_grant) then k else no_flags)
          ≡ (if str_eq id d && str_eq target x then g else no_flags))
        (sym e) (ground (arith, may))

  -- One pair gets the permissions that are given, with those that it had.
  bounded_pair :
      (here : Bool) (perms had g new old extra : Flags)
      → new ≡ (if here then flags_or perms had else old)
      → (here ≡ true → old ≡ had)
      → extra ≡ (if here then g else no_flags)
      → flags_within perms g ≡ true
      → flags_within new (flags_or old extra) ≡ true
  bounded_pair true perms had g new old extra e f h within =
      subst (λ k. flags_within k (flags_or old extra) ≡ true) (sym e)
        (subst (λ k. flags_within (flags_or perms had) (flags_or k extra) ≡ true) (sym (f refl))
          (subst (λ k. flags_within (flags_or perms had) (flags_or had k) ≡ true) (sym h)
            (within-or perms had g within)))
  bounded_pair false perms had g new old extra e f h within =
      subst (λ k. flags_within k (flags_or old extra) ≡ true) (sym e) (within_or_left old extra)

  pub same_pair :
      (id target d x : Bytes)
      → (str_eq id d && str_eq target x) ≡ true
      → permissions_on db d x ≡ permissions_on db id target
  same_pair id target d x h = ground (arith, str_eq_iff id d, str_eq_iff target x, h)

  set-Grants :
      (caller id target : Bytes) (perms : Flags) (entry : Entry V)
      → db_lookup db id ≡ some entry
      → str_eq target [] ≡ false
      → has_permissions entry caller (flags_or grant_flag perms) ≡ true
      → Grants caller id target perms (
          do_set_permissions db entry id target
            (flags_or perms (entry_get_permissions entry target)))
  unfolding has_permissions
  set-Grants caller id target perms entry e named allowed =
      let had = entry_get_permissions entry target in
      let g = entry_get_permissions entry caller in
      let s = do_set_permissions-Sets db agrees entry id target (flags_or perms had) e named in
      let (may, within) = within_grant perms g allowed in
      record {
        out = s.out;
        returns = s.returns;
        still_agrees = s.still_agrees;
        bounded = λ d x.
            bounded_pair (str_eq id d && str_eq target x) perms had g _ _ _ (s.now_on d x)
              (λ h. same_pair id target d x h ∙ permissions_on-some db id target entry e)
              (gift-may caller id target d x g (permissions_on-some db id caller entry e) may)
              within;
        gives = λ h.
            subst (λ k. flags_within perms k ≡ true)
              (sym (s.now_on id target ∙ rw (str_eq_refl id, str_eq_refl target) refl))
              (within_or_left perms had);
      }

  grant_on-Grants :
      (caller id target : Bytes) (perms : Flags) (entry : Entry V)
      → db_lookup db id ≡ some entry
      → Grants caller id target perms (grant_on db caller id target perms entry)
  unfolding grant_on
  grant_on-Grants caller id target perms entry e =
      if_cases (Grants caller id target perms) (not (is_valid_name target))
        (λ h. refused-Grants caller id target perms invalid_argument)
        (λ valid.
          if_cases (Grants caller id target perms)
            (not (has_permissions entry caller (flags_or grant_flag perms)))
            (λ h. refused-Grants caller id target perms not_allowed)
            (λ allowed.
              set-Grants caller id target perms entry e (valid_ne target (ground (arith, valid)))
                (ground (arith, allowed))))

  -- Where the two maps of the database agree, a call of GrantPermissions returns and they agree
  -- again. If it succeeds, the target has the permissions that were asked for. Whether it succeeds
  -- or not, no application gains a permission on any document, but the target on this document, and
  -- it gains only what the caller has on it itself, and nothing if the caller may not grant.
  pub portal_grant_permissions-Grants :
      (caller id target : Bytes) (permissions : List Bytes)
      → Grants caller id target
          (parse_permissions permissions)
          (portal_grant_permissions db caller id target permissions)
  unfolding portal_grant_permissions
  portal_grant_permissions-Grants caller id target permissions =
      option_cases (Grants caller id target (parse_permissions permissions)) (db_lookup db id)
        (λ e. refused-Grants caller id target (parse_permissions permissions) no_document)
        (λ entry e. grant_on-Grants caller id target (parse_permissions permissions) entry e)
