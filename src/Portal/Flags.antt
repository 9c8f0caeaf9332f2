-- ===== src/Portal/Flags.antt =====
-- Permissions on documents, and names of documents (document-portal/xdp-util.c).
pub mod Parsing
use xdg_app.Db.Entry.{Entry, entry_list_permissions}
use xdg_app.Db.Queries.{list_ids}
use xdg_app.Db.State.{Db}
use xdg_app.Prelude.{
  Bool, Bytes, List, [], codes, false, if◌then◌else◌, ltb, map, not, str_eq, suc, true, zero, ℕ,
  ◌%◌, ◌&&◌, ◌++◌, ◌+◌, ◌-◌, ◌/◌, ◌^◌, ◌||◌, ◌∷◌,
}

-- XdpPermissionFlags, bit by bit.
pub record Flags : Type 0 where
  pub can_read : Bool
  pub can_write : Bool
  pub can_grant : Bool
  pub can_delete : Bool

unfoldable pub no_flags : Flags
no_flags = record { can_read = false; can_write = false; can_grant = false; can_delete = false }

-- XDP_PERMISSION_FLAGS_ALL
unfoldable pub all_flags : Flags
all_flags = record { can_read = true; can_write = true; can_grant = true; can_delete = true }

-- `a | b`
unfoldable pub flags_or : Flags → Flags → Flags
flags_or a b = record {
  can_read = a.can_read || b.can_read;
  can_write = a.can_write || b.can_write;
  can_grant = a.can_grant || b.can_grant;
  can_delete = a.can_delete || b.can_delete;
}

-- `~a & b`
unfoldable pub flags_without : Flags → Flags → Flags
flags_without a b = record {
  can_read = not a.can_read && b.can_read;
  can_write = not a.can_write && b.can_write;
  can_grant = not a.can_grant && b.can_grant;
  can_delete = not a.can_delete && b.can_delete;
}

abbrev implies : Bool → Bool → Bool
implies a b = not a || b

-- `(b & a) == a`
unfoldable pub flags_within : Flags → Flags → Bool
flags_within a b =
    implies a.can_read b.can_read
    && (implies a.can_write b.can_write
        && (implies a.can_grant b.can_grant && implies a.can_delete b.can_delete))

-- xdg_unparse_permissions
unfoldable pub unparse_permissions : Flags → List Bytes
unparse_permissions permissions =
    (if permissions.can_read then codes "read" ∷ [] else [])
    ++ (if permissions.can_write then codes "write" ∷ [] else [])
    ++ (if permissions.can_grant then codes "grant-permissions" ∷ [] else [])
    ++ (if permissions.can_delete then codes "delete" ∷ [] else [])

-- One round of the loop of xdp_parse_permissions; a permission of another name warns.
unfoldable pub parse_one : Bytes → Flags → Flags
parse_one permission perms =
    if str_eq permission (codes "read")
    then record perms { can_read = true }
    else if str_eq permission (codes "write")
    then record perms { can_write = true }
    else if str_eq permission (codes "grant-permissions")
    then record perms { can_grant = true }
    else if str_eq permission (codes "delete")
    then record perms { can_delete = true }
    else perms

unfoldable pub parse_loop : List Bytes → Flags → Flags
unfolding parse_one
parse_loop [] perms = perms
parse_loop (permission ∷ permissions) perms = parse_loop permissions (parse_one permission perms)

-- xdp_parse_permissions
unfoldable pub parse_permissions : List Bytes → Flags
unfolding parse_loop no_flags
parse_permissions permissions = parse_loop permissions no_flags

-- xdp_entry_get_permissions; no application id is the host.
unfoldable pub entry_get_permissions : {V : Type 0} → Entry V → Bytes → Flags
unfolding all_flags parse_permissions
entry_get_permissions entry app_id =
    if str_eq app_id [] then all_flags else parse_permissions (entry_list_permissions entry app_id)

-- xdp_entry_has_permissions
unfoldable pub has_permissions : {V : Type 0} → Entry V → Bytes → Flags → Bool
unfolding entry_get_permissions flags_within
has_permissions entry app_id perms = flags_within perms (entry_get_permissions entry app_id)

unfoldable pub hex_digit : ℕ → ℕ
hex_digit n = if ltb n 10 then b'0' + n else b'a' + (n - 10)

-- `%x`, with as many digits at most as the first argument says
unfoldable pub print_hex : ℕ → ℕ → Bytes
unfolding hex_digit
print_hex zero n = []
print_hex (suc digits) n =
    let front = print_hex digits (n / 16) in
    if ltb n 16 then hex_digit n ∷ [] else front ++ hex_digit (n % 16) ∷ []

-- xdp_name_from_id: a guint32 has eight digits at most.
unfoldable pub name_from_id : ℕ → Bytes
unfolding print_hex
name_from_id doc_id = print_hex 8 (doc_id % 2 ^ 32)

-- xdp_id_from_name, over g_ascii_strtoull with base 16
unfoldable pub id_from_name : (Bytes → ℕ) → Bytes → ℕ
id_from_name strtoull name = strtoull name % 2 ^ 32

-- xdp_list_docs; the 0 behind the last id marks the end and is left out.
unfoldable pub list_docs : {V : Type 0} → (Bytes → ℕ) → Db V → List ℕ
unfolding id_from_name
list_docs strtoull db = map (id_from_name strtoull) (list_ids db)
