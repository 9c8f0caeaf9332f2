-- ===== src/Portal/Documents.antt =====
-- Documents in the database of the portal (document-portal/xdp-main.c, document-portal/xdp-util.c).
use xdg_app.Db.Entry.{Entry, get_data, set_app_permissions}
use xdg_app.Db.Queries.{db_lookup}
use xdg_app.Db.State.{Db}
use xdg_app.Db.Update.{set_entry}
use xdg_app.Portal.Flags.{Flags, name_from_id, unparse_permissions}
use xdg_app.Prelude.{
  Bool, Bytes, List, Option, [], if◌then◌else◌, none, some, ℕ, ◌%◌, ◌/◌, ◌==◌, ◌∷◌,
}

-- The value of an entry: a path, the device and the inode of its directory, and the flags.
pub record DocumentValues (V : Type 0) : Type 0 where
  pub document : Bytes → ℕ → ℕ → ℕ → V
  pub document_path : V → Bytes
  pub document_device : V → ℕ
  pub document_inode : V → ℕ
  pub document_flags : V → ℕ

-- What a call tells the file system of the portal and the permission store to do.
pub data Effect (V : Type 0) : Type 0 where
  invalidate_doc_app : Bytes → Bytes → Effect V
  invalidate_doc : Bytes → Effect V
  call_set_permission : Bytes → Bytes → List Bytes → Effect V
  call_delete : Bytes → Effect V
  call_set : Bytes → V → Effect V

pub data PortalError : Type 0 where
  no_document invalid_argument not_allowed : PortalError

pub data PortalReply : Type 0 where
  granted : PortalReply
  added_document : Bytes → PortalReply
  denied : PortalError → PortalReply

-- The database after a call, what the call tells others, and its answer.
pub record Outcome (V : Type 0) : Type 0 where
  pub db : Db V
  pub effects : List (Effect V)
  pub reply : PortalReply

module _ {V : Type 0} where
  abbrev pub refuse : Db V → PortalError → Outcome V
  refuse db error = record { db = db; effects = []; reply = denied error }

module _ {V : Type 0} ⦃docs : DocumentValues V⦄ where
  -- xdp_entry_get_path
  unfoldable pub entry_get_path : Entry V → Bytes
  entry_get_path entry = docs.document_path (get_data entry)

  -- xdp_entry_get_device
  unfoldable pub entry_get_device : Entry V → ℕ
  entry_get_device entry = docs.document_device (get_data entry)

  -- xdp_entry_get_inode
  unfoldable pub entry_get_inode : Entry V → ℕ
  entry_get_inode entry = docs.document_inode (get_data entry)

  -- xdp_entry_get_flags
  unfoldable pub entry_get_flags : Entry V → ℕ
  entry_get_flags entry = docs.document_flags (get_data entry)

  -- `(flags & XDP_ENTRY_FLAG_TRANSIENT) == 0`
  unfoldable pub persist_entry : Entry V → Bool
  unfolding entry_get_flags
  persist_entry entry = entry_get_flags entry / 2 % 2 == 0

  -- xdp_lookup_doc
  unfoldable pub lookup_doc : Db V → ℕ → Option (Entry V)
  unfolding name_from_id
  lookup_doc db id = db_lookup db (name_from_id id)

  -- The new entry takes its place, and the store keeps it if it persists.
  unfoldable pub put_permissions : Db V → Bytes → Bytes → List Bytes → Entry V → Outcome V
  unfolding persist_entry
  put_permissions db doc_id app_id perms_s new_entry = record {
    db = set_entry db doc_id (some new_entry);
    effects =
        invalidate_doc_app doc_id app_id
        ∷ (if persist_entry new_entry then call_set_permission doc_id app_id perms_s ∷ [] else []);
    reply = granted;
  }

  -- The body of do_set_permissions on the new entry; `none` is an abort.
  unfoldable pub put_new : Db V → Bytes → Bytes → List Bytes → Option (Entry V) → Option (Outcome V)
  unfolding put_permissions
  put_new db doc_id app_id perms_s none = none
  put_new db doc_id app_id perms_s (some new_entry) =
      some (put_permissions db doc_id app_id perms_s new_entry)

  -- do_set_permissions, with the answer of the methods that end with it
  unfoldable pub do_set_permissions : Db V → Entry V → Bytes → Bytes → Flags → Option (Outcome V)
  unfolding put_new unparse_permissions
  do_set_permissions db entry doc_id app_id perms =
      let perms_s = unparse_permissions perms in
      put_new db doc_id app_id perms_s (set_app_permissions entry app_id (some perms_s))
