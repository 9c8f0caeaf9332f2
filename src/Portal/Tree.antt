-- ===== src/Portal/Tree.antt =====
-- The file system that shows documents to applications (document-portal/xdp-fuse.c,
-- document-portal/xdp-util.c).
pub mod Lookup
pub mod Listing
use xdg_app.Db.Entry.{Entry}
use xdg_app.Portal.Documents.{DocumentValues, entry_get_device, entry_get_inode, entry_get_path}
use xdg_app.Portal.Flags.{Flags, has_permissions, no_flags}
use xdg_app.Prelude.{
  Bool, Bytes, List, Option, Table, [], bytes_eq, direct_eq, false, if◌then◌else◌, lookup, ltb,
  none, not, replace, some, str_eq, true, ℕ, ◌%◌, ◌&&◌, ◌*◌, ◌+◌, ◌/◌, ◌==◌, ◌^◌, ◌||◌, ◌∷◌,
}

-- The file system below: opening a directory, its inode and device, and the mode of a name in it,
-- without and with following of links; and the two parts of a path.
pub record Outside : Type 0 where
  pub open_dir : Bytes → Option ℕ
  pub fstat_dir : ℕ → Option (ℕ × ℕ)
  pub lstat_at : ℕ → Bytes → Option ℕ
  pub stat_at : ℕ → Bytes → Option ℕ
  pub path_dirname : Bytes → Bytes
  pub path_basename : Bytes → Bytes

-- An XdpTmp.
pub record XdpTmp (V : Type 0) : Type 0 where
  pub parent_inode : ℕ
  pub tmp_id : ℕ
  pub tmp_entry : Entry V
  pub tmp_name : Bytes
  pub backing_basename : Option Bytes

-- The ids of applications, and the temporary files.
pub record FuseState (V : Type 0) : Type 0 where
  pub app_name_to_id : Table Bytes ℕ
  pub app_id_to_name : Table ℕ Bytes
  pub next_app_id : ℕ
  pub tmp_files : List (XdpTmp V)

-- The parts of a struct stat that are not copied from below: whether it is a directory, the bits of
-- the permissions, and the number of links.
pub record FileStat : Type 0 where
  pub is_dir : Bool
  pub mode_bits : ℕ
  pub nlink : ℕ

abbrev pub non_doc_dir : FileStat
non_doc_dir = record { is_dir = true; mode_bits = 5 * 64; nlink = 2 }

abbrev pub doc_dir : FileStat
doc_dir = record { is_dir = true; mode_bits = 7 * 64; nlink = 2 }

-- One octal digit of a mode, `& 06`, and `& ~02`.
unfoldable pub no_exec : ℕ → ℕ
no_exec digit = digit / 2 % 4 * 2

unfoldable pub no_write : ℕ → ℕ
no_write digit = digit / 4 % 2 * 4 + digit % 2

unfoldable pub each_digit : (ℕ → ℕ) → ℕ → ℕ
each_digit change mode = change (mode / 64 % 8) * 64 + change (mode / 8 % 8) * 8 + change (mode % 8)

-- `st_mode & 0666`
unfoldable pub get_user_perms : ℕ → ℕ
unfolding each_digit no_exec
get_user_perms mode = each_digit no_exec mode

-- `& ~(0222)`
unfoldable pub drop_write : ℕ → ℕ
unfolding each_digit no_write
drop_write mode = each_digit no_write mode

-- The constants FUSE_ROOT_ID and BY_APP_INO
abbrev pub root_ino : ℕ
root_ino = 1

abbrev pub by_app_ino : ℕ
by_app_ino = 2

abbrev pub or_zero : Option ℕ → ℕ
or_zero none = 0
or_zero (some id) = id

module _ {V : Type 0} where
  unfoldable pub find_tmp_by_name : List (XdpTmp V) → ℕ → Bytes → Option (XdpTmp V)
  find_tmp_by_name [] parent_inode name = none
  find_tmp_by_name (tmp ∷ l) parent_inode name =
      if tmp.parent_inode == parent_inode && str_eq tmp.tmp_name name
      then some tmp
      else find_tmp_by_name l parent_inode name

  unfoldable pub find_tmp_by_id : List (XdpTmp V) → ℕ → Option (XdpTmp V)
  find_tmp_by_id [] tmp_id = none
  find_tmp_by_id (tmp ∷ l) tmp_id =
      if tmp.tmp_id == tmp_id then some tmp else find_tmp_by_id l tmp_id

  -- A new id; `none` is the failed assertion.
  unfoldable pub new_app_id : FuseState V → Bytes → Option (FuseState V × ℕ)
  new_app_id fs name =
      let id = fs.next_app_id in
      if ltb id 16777215
      then some (
        record fs {
          app_name_to_id = replace name id fs.app_name_to_id;
          app_id_to_name = replace id name fs.app_id_to_name;
          next_app_id = (id + 1) % 2 ^ 32;
        },
        id,
      )
      else none

  unfoldable pub get_app_id_from_name : FuseState V → Bytes → Option (FuseState V × ℕ)
  unfolding new_app_id
  get_app_id_from_name fs name =
      let id = or_zero (lookup name fs.app_name_to_id) in
      if not (id == 0) then some (fs, id) else new_app_id fs name

  unfoldable pub get_app_name_from_id : FuseState V → ℕ → Option Bytes
  get_app_name_from_id fs id = lookup id fs.app_id_to_name

  -- Whether the application of this name, if there is one, has the permissions.
  abbrev pub named_has : Entry V → Flags → Option Bytes → Bool
  named_has entry perms none = false
  named_has entry perms (some app) = has_permissions entry app perms

  -- XDP_PERMISSION_FLAGS_READ, and XDP_PERMISSION_FLAGS_WRITE
  unfoldable pub app_can_see_doc : FuseState V → Entry V → ℕ → Bool
  unfolding get_app_name_from_id no_flags
  app_can_see_doc fs entry app_id =
      app_id == 0
      || named_has entry (record no_flags { can_read = true }) (get_app_name_from_id fs app_id)

  unfoldable pub app_can_write_doc : FuseState V → Entry V → ℕ → Bool
  unfolding get_app_name_from_id no_flags
  app_can_write_doc fs entry app_id =
      app_id == 0
      || named_has entry (record no_flags { can_write = true }) (get_app_name_from_id fs app_id)

module _ {V : Type 0} ⦃docs : DocumentValues V⦄ (outside : Outside) where
  -- xdp_entry_dup_basename
  unfoldable pub entry_dup_basename : Entry V → Bytes
  unfolding entry_get_path
  entry_dup_basename entry = outside.path_basename (entry_get_path entry)

  -- xdp_entry_dup_dirname
  unfoldable pub entry_dup_dirname : Entry V → Bytes
  unfolding entry_get_path
  entry_dup_dirname entry = outside.path_dirname (entry_get_path entry)

  -- xdp_entry_open_dir
  unfoldable pub entry_open_dir : Entry V → Option ℕ
  unfolding entry_dup_dirname entry_get_inode entry_get_device
  entry_open_dir entry = elim (outside.open_dir (entry_dup_dirname entry)) [
    | none ↦ none
    | some fd ↦ elim (outside.fstat_dir fd) [
      | none ↦ none
      | some (st_ino, st_dev) ↦
          if not (st_ino == entry_get_inode entry) || not (st_dev == entry_get_device entry)
          then none
          else some fd
    ]
  ]

  -- xdp_entry_stat with AT_SYMLINK_NOFOLLOW: the mode
  unfoldable pub entry_stat : Entry V → Option ℕ
  unfolding entry_open_dir entry_dup_basename
  entry_stat entry = elim (entry_open_dir entry) [
    | none ↦ none
    | some fd ↦ outside.lstat_at fd (entry_dup_basename entry)
  ]

  unfoldable pub backing_stat : XdpTmp V → Option ℕ
  unfolding entry_open_dir
  backing_stat tmp = elim tmp.backing_basename [
    | none ↦ none
    | some backing ↦ elim (entry_open_dir tmp.tmp_entry) [
      | none ↦ none
      | some dir_fd ↦ outside.stat_at dir_fd backing
    ]
  ]
