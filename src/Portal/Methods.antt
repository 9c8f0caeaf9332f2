-- ===== src/Portal/Methods.antt =====
-- The methods of the portal (document-portal/xdp-main.c).
pub mod Setting
pub mod Safety
pub mod Taking
use xdg_app.Db.Entry.{Entry, entry_list_apps}
use xdg_app.Db.Queries.{db_lookup}
use xdg_app.Db.State.{Db}
use xdg_app.Db.Update.{set_entry}
use xdg_app.Portal.Documents.{
  DocumentValues, Effect, Outcome, call_delete, do_set_permissions, granted, invalid_argument,
  invalidate_doc, invalidate_doc_app, no_document, not_allowed, persist_entry, refuse,
}
use xdg_app.Portal.Flags.{
  Flags, entry_get_permissions, flags_or, flags_without, has_permissions, parse_permissions,
}
use xdg_app.Prelude.{
  Bytes, List, Option, [], false, if◌then◌else◌, none, not, some, str_eq, true, ◌++◌, ◌||◌, ◌∷◌,
}
use xdg_app.Utils.{is_valid_name}

-- XDP_PERMISSION_FLAGS_GRANT_PERMISSIONS, and XDP_PERMISSION_FLAGS_DELETE
abbrev pub grant_flag : Flags
grant_flag = record { can_read = false; can_write = false; can_grant = true; can_delete = false }

abbrev pub delete_flag : Flags
delete_flag = record { can_read = false; can_write = false; can_grant = false; can_delete = true }

module _ {V : Type 0} ⦃docs : DocumentValues V⦄ where
  -- What portal_grant_permissions does with the document.
  unfoldable pub grant_on : Db V → Bytes → Bytes → Bytes → Flags → Entry V → Option (Outcome V)
  unfolding do_set_permissions flags_or has_permissions
  grant_on db app_id id target_app_id perms entry =
      if not (is_valid_name target_app_id)
      then some (refuse db invalid_argument)
      else if not (has_permissions entry app_id (flags_or grant_flag perms))
      then some (refuse db not_allowed)
      else do_set_permissions db entry id target_app_id
          (flags_or perms (entry_get_permissions entry target_app_id))

  unfoldable pub portal_grant_permissions :
      Db V → Bytes → Bytes → Bytes → List Bytes → Option (Outcome V)
  unfolding grant_on parse_permissions
  portal_grant_permissions db app_id id target_app_id permissions = elim (db_lookup db id) [
    | none ↦ some (refuse db no_document)
    | some entry ↦ grant_on db app_id id target_app_id (parse_permissions permissions) entry
  ]

  -- What portal_revoke_permissions does with the document.
  unfoldable pub revoke_on : Db V → Bytes → Bytes → Bytes → Flags → Entry V → Option (Outcome V)
  unfolding do_set_permissions flags_without has_permissions
  revoke_on db app_id id target_app_id perms entry =
      if not (is_valid_name target_app_id)
      then some (refuse db invalid_argument)
      else if not (has_permissions entry app_id grant_flag) || str_eq app_id target_app_id
      then some (refuse db not_allowed)
      else do_set_permissions db entry id target_app_id
          (flags_without perms (entry_get_permissions entry target_app_id))

  unfoldable pub portal_revoke_permissions :
      Db V → Bytes → Bytes → Bytes → List Bytes → Option (Outcome V)
  unfolding revoke_on parse_permissions
  portal_revoke_permissions db app_id id target_app_id permissions = elim (db_lookup db id) [
    | none ↦ some (refuse db no_document)
    | some entry ↦ revoke_on db app_id id target_app_id (parse_permissions permissions) entry
  ]

  -- The loop of portal_delete over the applications of the entry.
  unfoldable pub invalidate_apps : Bytes → List Bytes → List (Effect V)
  invalidate_apps id [] = []
  invalidate_apps id (app ∷ old_apps) = invalidate_doc_app id app ∷ invalidate_apps id old_apps

  -- What portal_delete does with the document.
  unfoldable pub delete_on : Db V → Bytes → Bytes → Entry V → Outcome V
  unfolding invalidate_apps persist_entry has_permissions
  delete_on db app_id id entry =
      if not (has_permissions entry app_id delete_flag) then refuse db not_allowed else record {
        db = set_entry db id none;
        effects =
            invalidate_apps id (entry_list_apps entry)
            ++ invalidate_doc id ∷ (if persist_entry entry then call_delete id ∷ [] else []);
        reply = granted;
      }

  unfoldable pub portal_delete : Db V → Bytes → Bytes → Outcome V
  unfolding delete_on
  portal_delete db app_id id = elim (db_lookup db id) [
    | none ↦ refuse db no_document
    | some entry ↦ delete_on db app_id id entry
  ]
