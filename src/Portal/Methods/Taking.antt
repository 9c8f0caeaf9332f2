-- ===== src/Portal/Methods/Taking.antt =====
-- What revoking and deleting do to the permissions of all applications
-- (document-portal/xdp-main.c).
use xdg_app.Db.Entry.{Entry}
use xdg_app.Db.Index.Agrees.{Agrees, db_lookup-set_entry, set_entry-Agrees}
use xdg_app.Db.Queries.{db_lookup}
use xdg_app.Db.State.{Db}
use xdg_app.Portal.Documents.{
  DocumentValues, Outcome, PortalError, denied, do_set_permissions, granted, invalid_argument,
  no_document, not_allowed, refuse,
}
use xdg_app.Portal.Flags.{
  Flags, entry_get_permissions, flags_within, flags_without, has_permissions, parse_permissions,
}
use xdg_app.Portal.Methods.{
  delete_flag, delete_on, grant_flag, portal_delete, portal_revoke_permissions, revoke_on,
}
use xdg_app.Portal.Methods.Safety.{same_pair, valid_ne}
use xdg_app.Portal.Methods.Setting.{
  do_set_permissions-Sets, permissions_on, permissions_on-some, within-without,
}
use xdg_app.Prelude.{
  Bool, Bytes, List, Option, [], ap, arith, false, if_cases, if◌then◌else◌, none, not, option_cases,
  refl, some, str_eq, str_eq_refl, subst, sym, true, ◌&&◌, ◌||◌, ◌∙◌, ◌≡◌,
}
use xdg_app.Utils.{is_valid_name}

within_refl : (p : Flags) → flags_within p p ≡ true
unfolding flags_within
within_refl p = ground arith

can_grant-within : (g : Flags) → flags_within grant_flag g ≡ true → g.can_grant ≡ true
unfolding flags_within
can_grant-within g h = ground (arith, h)

can_delete-within : (g : Flags) → flags_within delete_flag g ≡ true → g.can_delete ≡ true
unfolding flags_within
can_delete-within g h = ground (arith, h)

without_pair :
    (here : Bool) (perms had new old : Flags)
    → new ≡ (if here then flags_without perms had else old)
    → (here ≡ true → old ≡ had)
    → flags_within new old ≡ true
without_pair true perms had new old e f =
    subst (λ k. flags_within k old ≡ true) (sym e)
      (subst (λ k. flags_within (flags_without perms had) k ≡ true) (sym (f refl))
        (within-without perms had))
without_pair false perms had new old e f =
    subst (λ k. flags_within k old ≡ true) (sym e) (within_refl old)

module _ {V : Type 0} ⦃docs : DocumentValues V⦄ (db : Db V) (agrees : Agrees db) where
  -- A call that takes permissions of the target, and nothing else.
  pub record Revokes (caller id target : Bytes) (perms : Flags) (outcome : Option (Outcome V))
      : Type 0 where
    pub out : Outcome V
    pub returns : outcome ≡ some out
    pub still_agrees : Agrees out.db
    pub shrinks :
        (d x : Bytes) → flags_within (permissions_on out.db d x) (permissions_on db d x) ≡ true
    pub takes :
        out.reply ≡ granted
        → permissions_on out.db id target ≡ flags_without perms (permissions_on db id target)
    pub may_grant : out.reply ≡ granted → (permissions_on db id caller).can_grant ≡ true
    pub not_itself : out.reply ≡ granted → str_eq caller target ≡ false

  refused-Revokes :
      (caller id target : Bytes) (perms : Flags) (error : PortalError)
      → Revokes caller id target perms (some (refuse db error))
  refused-Revokes caller id target perms error = record {
    out = refuse db error;
    returns = refl;
    still_agrees = agrees;
    shrinks = λ d x. within_refl (permissions_on db d x);
    takes = λ h. cc;
    may_grant = λ h. cc;
    not_itself = λ h. cc;
  }

  set-Revokes :
      (caller id target : Bytes) (perms : Flags) (entry : Entry V)
      → db_lookup db id ≡ some entry
      → str_eq target [] ≡ false
      → has_permissions entry caller grant_flag ≡ true
      → str_eq caller target ≡ false
      → Revokes caller id target perms (
          do_set_permissions db entry id target
            (flags_without perms (entry_get_permissions entry target)))
  unfolding has_permissions
  set-Revokes caller id target perms entry e named allowed other =
      let had = entry_get_permissions entry target in
      let on = permissions_on-some db id target entry e in
      let s = do_set_permissions-Sets db agrees entry id target (flags_without perms had) e named in
      record {
        out = s.out;
        returns = s.returns;
        still_agrees = s.still_agrees;
        shrinks = λ d x.
            without_pair (str_eq id d && str_eq target x) perms had _ _ (s.now_on d x)
              (λ h. same_pair db agrees id target d x h ∙ on);
        takes = λ h.
            s.now_on id target
            ∙ rw (str_eq_refl id, str_eq_refl target) (ap (flags_without perms) (sym on));
        may_grant = λ h.
            ap (λ k. k.can_grant) (permissions_on-some db id caller entry e)
            ∙ can_grant-within (entry_get_permissions entry caller) allowed;
        not_itself = λ h. other;
      }

  revoke_on-Revokes :
      (caller id target : Bytes) (perms : Flags) (entry : Entry V)
      → db_lookup db id ≡ some entry
      → Revokes caller id target perms (revoke_on db caller id target perms entry)
  unfolding revoke_on
  revoke_on-Revokes caller id target perms entry e =
      if_cases (Revokes caller id target perms) (not (is_valid_name target))
        (λ h. refused-Revokes caller id target perms invalid_argument)
        (λ valid.
          if_cases (Revokes caller id target perms)
            (not (has_permissions entry caller grant_flag) || str_eq caller target)
            (λ h. refused-Revokes caller id target perms not_allowed)
            (λ allowed.
              set-Revokes caller id target perms entry e (valid_ne target (ground (arith, valid)))
                (ground (arith, allowed)) (ground (arith, allowed))))

  -- Where the two maps of the database agree, a call of RevokePermissions returns and they agree
  -- again. No application gains a permission on any document. If the call succeeds, the caller may
  -- grant on the document and is not the target, and the target has what it had on the document less
  -- the permissions that were named.
  pub portal_revoke_permissions-Revokes :
      (caller id target : Bytes) (permissions : List Bytes)
      → Revokes caller id target
          (parse_permissions permissions)
          (portal_revoke_permissions db caller id target permissions)
  unfolding portal_revoke_permissions
  portal_revoke_permissions-Revokes caller id target permissions =
      option_cases (Revokes caller id target (parse_permissions permissions)) (db_lookup db id)
        (λ e. refused-Revokes caller id target (parse_permissions permissions) no_document)
        (λ entry e. revoke_on-Revokes caller id target (parse_permissions permissions) entry e)

  -- A call that deletes a document if the caller may, and changes nothing else.
  pub record Deletes (caller id : Bytes) (out : Outcome V) : Type 0 where
    pub still_agrees : Agrees out.db
    pub may_delete : out.reply ≡ granted → (permissions_on db id caller).can_delete ≡ true
    pub gone : out.reply ≡ granted → db_lookup out.db id ≡ none
    pub kept_if_refused :
        (error : PortalError) → out.reply ≡ denied error → db_lookup out.db id ≡ db_lookup db id
    pub others_kept : (d : Bytes) → str_eq id d ≡ false → db_lookup out.db d ≡ db_lookup db d

  refused-Deletes : (caller id : Bytes) (error : PortalError) → Deletes caller id (refuse db error)
  refused-Deletes caller id error = record {
    still_agrees = agrees;
    may_delete = λ h. cc;
    gone = λ h. cc;
    kept_if_refused = λ error' h. refl;
    others_kept = λ d h. refl;
  }

  delete_on-Deletes :
      (caller id : Bytes) (entry : Entry V)
      → db_lookup db id ≡ some entry
      → Deletes caller id (delete_on db caller id entry)
  unfolding delete_on has_permissions
  delete_on-Deletes caller id entry e =
      if_cases (Deletes caller id) (not (has_permissions entry caller delete_flag))
        (λ h. refused-Deletes caller id not_allowed)
        (λ allowed. record {
          still_agrees = set_entry-Agrees db id none agrees tt;
          may_delete = λ h.
              ap (λ k. k.can_delete) (permissions_on-some db id caller entry e)
              ∙ can_delete-within (entry_get_permissions entry caller) (ground (arith, allowed));
          gone = λ h. db_lookup-set_entry db id none id ∙ rw (str_eq_refl id) refl;
          kept_if_refused = λ error h. cc;
          others_kept = λ d h. db_lookup-set_entry db id none d ∙ rw h refl;
        })

  -- Where the two maps of the database agree, they agree after a call of Delete. If the call
  -- succeeds, the caller has the permission to delete on the document, and the document is gone; if
  -- it is refused, the document stays. Every other document stays.
  pub portal_delete-Deletes : (caller id : Bytes) → Deletes caller id (portal_delete db caller id)
  unfolding portal_delete
  portal_delete-Deletes caller id =
      option_cases (Deletes caller id) (db_lookup db id)
        (λ e. refused-Deletes caller id no_document)
        (λ entry e. delete_on-Deletes caller id entry e)
