-- ===== src/Portal/Tree/Lookup.antt =====
-- What a name in a directory is, and what an inode is (document-portal/xdp-fuse.c).
pub mod Sees
pub mod Files
use xdg_app.Db.Entry.{Entry}
use xdg_app.Db.State.{Db}
use xdg_app.Portal.Documents.{DocumentValues, lookup_doc}
use xdg_app.Portal.Flags.{id_from_name}
use xdg_app.Portal.Fuse.{
  app_dir_class, app_doc_dir_class, app_doc_file_class, get_app_id_from_app_doc_ino, get_class,
  get_class_ino, get_doc_id_from_app_doc_ino, make_app_doc_dir_inode, make_app_doc_file_inode,
  make_inode, name_looks_like_id, std_dirs_class, tmpfile_class,
}
use xdg_app.Portal.Tree.{
  FileStat, FuseState, Outside, app_can_see_doc, app_can_write_doc, backing_stat, by_app_ino,
  doc_dir, drop_write, entry_dup_basename, entry_stat, find_tmp_by_id, find_tmp_by_name,
  get_app_id_from_name, get_app_name_from_id, get_user_perms, non_doc_dir, root_ino,
}
use xdg_app.Prelude.{
  Bool, Bytes, Option, codes, false, if◌then◌else◌, is_some, none, not, some, str_eq, ℕ, ◌%◌, ◌==◌,
  ◌^◌, ◌||◌,
}
use xdg_app.Utils.{is_valid_name}

-- What xdp_lookup returns: an inode with its stat, ENOENT or ENOTDIR.
pub data LookupResult : Type 0 where
  found_ino : ℕ → FileStat → LookupResult
  enoent enotdir : LookupResult

module _ {V : Type 0} ⦃docs : DocumentValues V⦄ (outside : Outside) (db : Db V) where
  -- The cases of xdp_stat, each with the entry that it hands out.
  abbrev pub Statted : Type 0
  Statted = Option (FileStat × Option (Entry V))

  unfoldable pub stat_std_dir : ℕ → Statted
  stat_std_dir class_ino =
      if class_ino == root_ino || class_ino == by_app_ino then some (non_doc_dir, none) else none

  unfoldable pub stat_app_dir : FuseState V → ℕ → Statted
  unfolding get_app_name_from_id
  stat_app_dir fs class_ino =
      if is_some (get_app_name_from_id fs (class_ino % 2 ^ 32))
      then some (non_doc_dir, none)
      else none

  unfoldable pub stat_doc_dir : FuseState V → ℕ → Statted
  unfolding app_can_see_doc lookup_doc
  stat_doc_dir fs class_ino = elim (lookup_doc db (get_doc_id_from_app_doc_ino class_ino)) [
    | none ↦ none
    | some entry ↦
        if not (app_can_see_doc fs entry (get_app_id_from_app_doc_ino class_ino))
        then none
        else some (doc_dir, some entry)
  ]

  -- The bits of a file below, without those to write if the application may not.
  unfoldable pub file_mode : Bool → ℕ → ℕ
  unfolding get_user_perms drop_write
  file_mode can_write mode =
      if not can_write then drop_write (get_user_perms mode) else get_user_perms mode

  unfoldable pub stat_doc_file : FuseState V → ℕ → Statted
  unfolding app_can_write_doc lookup_doc entry_stat file_mode
  stat_doc_file fs class_ino = elim (lookup_doc db (get_doc_id_from_app_doc_ino class_ino)) [
    | none ↦ none
    | some entry ↦ elim (entry_stat outside entry) [
      | none ↦ none
      | some mode ↦ some (
        record {
          is_dir = false;
          mode_bits =
              file_mode (app_can_write_doc fs entry (get_app_id_from_app_doc_ino class_ino)) mode;
          nlink = 2;
        },
        some entry,
      )
    ]
  ]

  unfoldable pub stat_tmp : FuseState V → ℕ → Statted
  unfolding find_tmp_by_id backing_stat get_user_perms
  stat_tmp fs class_ino = elim (find_tmp_by_id fs.tmp_files (class_ino % 2 ^ 32)) [
    | none ↦ none
    | some tmp ↦ elim (backing_stat outside tmp) [
      | none ↦ none
      | some mode ↦
          some (record { is_dir = false; mode_bits = get_user_perms mode; nlink = 2 }, none)
    ]
  ]

  unfoldable pub xdp_stat : FuseState V → ℕ → Statted
  unfolding get_class get_class_ino
  xdp_stat fs ino =
      let class = get_class ino in
      let class_ino = get_class_ino ino in
      if class == std_dirs_class
      then stat_std_dir class_ino
      else if class == app_dir_class
      then stat_app_dir fs class_ino
      else if class == app_doc_dir_class
      then stat_doc_dir fs class_ino
      else if class == app_doc_file_class
      then stat_doc_file fs class_ino
      else if class == tmpfile_class
      then stat_tmp fs class_ino
      else none

  -- `if (xdp_stat (*inode, stbuf, NULL) == 0) return 0`, and ENOENT behind it
  unfoldable pub stat_found : FuseState V → ℕ → LookupResult
  unfolding xdp_stat
  stat_found fs ino = elim (xdp_stat fs ino) [
    | none ↦ enoent
    | some (stbuf, entry) ↦ found_ino ino stbuf
  ]

  -- The cases of xdp_lookup.
  unfoldable pub lookup_in_by_app : FuseState V → Bytes → Option (FuseState V × LookupResult)
  unfolding stat_found get_app_id_from_name
  lookup_in_by_app fs name =
      if is_valid_name name
      then elim (get_app_id_from_name fs name) [
        | none ↦ none
        | some (fs', app_id) ↦ some (fs', stat_found fs' (make_inode app_dir_class app_id))
      ]
      else some (fs, enoent)

  -- A temporary file of the directory.
  unfoldable pub lookup_tmp : FuseState V → ℕ → Bytes → LookupResult
  unfolding stat_found find_tmp_by_name
  lookup_tmp fs parent name = elim (find_tmp_by_name fs.tmp_files parent name) [
    | none ↦ enoent
    | some tmp ↦ stat_found fs (make_inode tmpfile_class tmp.tmp_id)
  ]

  unfoldable pub lookup_in_doc_dir : FuseState V → ℕ → Bytes → LookupResult
  unfolding lookup_tmp lookup_doc entry_dup_basename
  lookup_in_doc_dir fs parent name =
      let app_id = get_app_id_from_app_doc_ino (get_class_ino parent) in
      let doc_id = get_doc_id_from_app_doc_ino (get_class_ino parent) in
      elim (lookup_doc db doc_id) [
        | none ↦ lookup_tmp fs parent name
        | some entry ↦
            if str_eq name (entry_dup_basename outside entry)
            then stat_found fs (make_app_doc_file_inode app_id doc_id)
            else lookup_tmp fs parent name
      ]

  module _ (strtoull : Bytes → ℕ) where
    unfoldable pub lookup_in_root : FuseState V → Bytes → LookupResult
    unfolding stat_found make_app_doc_dir_inode
    lookup_in_root fs name =
        if str_eq name (codes "by-app")
        then stat_found fs (make_inode std_dirs_class by_app_ino)
        else if name_looks_like_id name
        then stat_found fs (make_app_doc_dir_inode 0 (id_from_name strtoull name))
        else enoent

    unfoldable pub lookup_in_app_dir : FuseState V → ℕ → Bytes → LookupResult
    unfolding stat_found make_app_doc_dir_inode
    lookup_in_app_dir fs parent_class_ino name =
        if name_looks_like_id name
        then stat_found fs
            (make_app_doc_dir_inode (parent_class_ino % 2 ^ 32) (id_from_name strtoull name))
        else enoent

    -- `none` is a failed assertion.
    unfoldable pub xdp_lookup : FuseState V → ℕ → Bytes → Option (FuseState V × LookupResult)
    unfolding lookup_in_root lookup_in_by_app lookup_in_app_dir lookup_in_doc_dir
    xdp_lookup fs parent name =
        let parent_class = get_class parent in
        let parent_class_ino = get_class_ino parent in
        if parent_class == std_dirs_class
        then if parent_class_ino == root_ino
          then some (fs, lookup_in_root fs name)
          else if parent_class_ino == by_app_ino
          then lookup_in_by_app fs name
          else some (fs, enoent)
        else if parent_class == app_dir_class
        then some (fs, lookup_in_app_dir fs parent_class_ino name)
        else if parent_class == app_doc_dir_class
        then some (fs, lookup_in_doc_dir fs parent name)
        else if parent_class == tmpfile_class || parent_class == app_doc_file_class
        then some (fs, enotdir)
        else some (fs, enoent)
