-- ===== src/Portal/Tree/Listing.antt =====
-- What is listed in a directory (document-portal/xdp-fuse.c).
pub mod Found
use xdg_app.Db.Entry.{Entry}
use xdg_app.Db.Entry.Search.{keys}
use xdg_app.Db.Queries.{list_apps}
use xdg_app.Db.State.{Db}
use xdg_app.Portal.Documents.{DocumentValues, lookup_doc}
use xdg_app.Portal.Flags.{list_docs, name_from_id}
use xdg_app.Portal.Fuse.{
  app_dir_class, app_doc_dir_class, get_app_id_from_app_doc_ino, get_class, get_class_ino,
  get_doc_id_from_app_doc_ino, make_app_doc_dir_inode, make_app_doc_file_inode, make_inode,
  std_dirs_class, tmpfile_class,
}
use xdg_app.Portal.Tree.{
  FuseState, Outside, XdpTmp, app_can_see_doc, by_app_ino, entry_dup_basename, entry_stat,
  get_app_id_from_name, root_ino,
}
use xdg_app.Portal.Tree.Lookup.{xdp_stat}
use xdg_app.Prelude.{
  Bool, Bytes, List, Option, Table, [], bytes_eq, codes, direct_eq, if◌then◌else◌, is_some, length,
  ltb, none, not, some, true, ℕ, ◌%◌, ◌&&◌, ◌++◌, ◌==◌, ◌^◌, ◌∷◌,
}

-- An entry of a directory; the buffer of them is a list.
pub record DirEntry : Type 0 where
  pub entry_name : Bytes
  pub entry_ino : ℕ

abbrev pub direntry : Bytes → ℕ → DirEntry
direntry name ino = record { entry_name = name; entry_ino = ino }

-- What xdp_fuse_opendir answers: the entries, or ENOENT, ENOTDIR, EIO.
pub data OpenedDir : Type 0 where
  opened_dir : List DirEntry → OpenedDir
  no_dir no_directory io_error : OpenedDir

-- `b.p == NULL`
unfoldable pub reply_open : List DirEntry → OpenedDir
reply_open [] = io_error
reply_open (e ∷ b) = opened_dir (e ∷ b)

-- The applications that have an id; the order is that of the table.
unfoldable pub add_apps : Table Bytes ℕ → List DirEntry
add_apps [] = []
add_apps ((name, id) ∷ l) =
    let rest = add_apps l in
    if ltb 0 (length name) then direntry name (make_inode app_dir_class id) ∷ rest else rest

module _ {V : Type 0} where
  -- The loop of fill_app_name_hash.
  unfoldable pub fill_loop : FuseState V → List Bytes → Option (FuseState V)
  unfolding get_app_id_from_name
  fill_loop fs [] = some fs
  fill_loop fs (key ∷ keys) = elim (get_app_id_from_name fs key) [
    | none ↦ none
    | some (fs', id) ↦ fill_loop fs' keys
  ]

  unfoldable pub fill_app_name_hash : Db V → FuseState V → Option (FuseState V)
  unfolding fill_loop
  fill_app_name_hash db fs = fill_loop fs (list_apps db)

  unfoldable pub dirbuf_add_tmp_files : ℕ → List (XdpTmp V) → List DirEntry
  dirbuf_add_tmp_files dir_inode [] = []
  dirbuf_add_tmp_files dir_inode (tmp ∷ l) =
      let rest = dirbuf_add_tmp_files dir_inode l in
      if tmp.parent_inode == dir_inode
      then direntry tmp.tmp_name (make_inode tmpfile_class tmp.tmp_id) ∷ rest
      else rest

module _ {V : Type 0} ⦃docs : DocumentValues V⦄ (outside : Outside) (db : Db V) where
  -- Whether an application does not see the document of an id.
  unfoldable pub hides : FuseState V → ℕ → ℕ → Bool
  unfolding app_can_see_doc lookup_doc
  hides fs app_id doc = elim (lookup_doc db doc) [
    | none ↦ true
    | some entry ↦ not (app_can_see_doc fs entry app_id)
  ]

  -- The loop of dirbuf_add_docs, up to an id 0.
  unfoldable pub docs_loop : FuseState V → ℕ → List ℕ → List DirEntry
  unfolding hides make_app_doc_dir_inode
  docs_loop fs app_id [] = []
  docs_loop fs app_id (doc ∷ ids) =
      let rest = docs_loop fs app_id ids in
      if doc == 0
      then []
      else if not (app_id == 0) && hides fs app_id doc
      then rest
      else direntry (name_from_id doc) (make_app_doc_dir_inode app_id doc) ∷ rest

  unfoldable pub dirbuf_add_docs : (Bytes → ℕ) → FuseState V → ℕ → List DirEntry
  unfolding docs_loop list_docs
  dirbuf_add_docs strtoull fs app_id = docs_loop fs app_id (list_docs strtoull db)

  unfoldable pub dirbuf_add_doc_file : Entry V → ℕ → ℕ → List DirEntry
  unfolding entry_stat entry_dup_basename
  dirbuf_add_doc_file entry doc_id app_id =
      if is_some (entry_stat outside entry)
      then direntry (entry_dup_basename outside entry) (make_app_doc_file_inode app_id doc_id) ∷ []
      else []

  -- The directory with all applications; `none` is a failed assertion.
  unfoldable pub list_by_app : FuseState V → ℕ → Option (FuseState V × OpenedDir)
  unfolding fill_app_name_hash add_apps
  list_by_app fs ino = elim (fill_app_name_hash db fs) [
    | none ↦ none
    | some fs' ↦ some (
      fs',
      opened_dir
          (direntry (codes ".") ino ∷ direntry (codes "..") root_ino ∷ add_apps fs'.app_name_to_id),
    )
  ]

  -- The directory of a document, with the entry that xdp_stat handed out.
  unfoldable pub list_doc_dir : FuseState V → ℕ → Option (Entry V) → Option OpenedDir
  unfolding dirbuf_add_doc_file dirbuf_add_tmp_files
  list_doc_dir fs ino none = none
  list_doc_dir fs ino (some entry) =
      let app_id = get_app_id_from_app_doc_ino (get_class_ino ino) in
      let doc_id = get_doc_id_from_app_doc_ino (get_class_ino ino) in
      some (
        opened_dir (
          direntry (codes ".") ino
            ∷ direntry (codes "..")
                (if app_id == 0 then root_ino else make_inode app_dir_class app_id)
            ∷ dirbuf_add_doc_file entry doc_id app_id
          ++ dirbuf_add_tmp_files ino fs.tmp_files))

  -- The state stays with what is answered.
  abbrev pub stays : FuseState V → Option OpenedDir → Option (FuseState V × OpenedDir)
  stays fs none = none
  stays fs (some dir) = some (fs, dir)

  module _ (strtoull : Bytes → ℕ) where
    unfoldable pub list_root : FuseState V → OpenedDir
    unfolding dirbuf_add_docs
    list_root fs = opened_dir (
        direntry (codes ".") root_ino
        ∷ direntry (codes "..") root_ino
        ∷ direntry (codes "by-app") (make_inode std_dirs_class by_app_ino)
        ∷ dirbuf_add_docs strtoull fs 0)

    unfoldable pub list_app_dir : FuseState V → ℕ → OpenedDir
    unfolding dirbuf_add_docs
    list_app_dir fs ino = opened_dir (
        direntry (codes ".") ino
        ∷ direntry (codes "..") (make_inode std_dirs_class by_app_ino)
        ∷ dirbuf_add_docs strtoull fs (get_class_ino ino % 2 ^ 32))

    -- The cases of xdp_fuse_opendir behind its tests.
    unfoldable pub list_class :
        FuseState V → ℕ → Option (Entry V) → Option (FuseState V × OpenedDir)
    unfolding list_root list_by_app list_app_dir list_doc_dir reply_open
    list_class fs ino entry =
        let class = get_class ino in
        let class_ino = get_class_ino ino in
        if class == std_dirs_class
        then if class_ino == root_ino
          then some (fs, list_root fs)
          else if class_ino == by_app_ino
          then list_by_app fs ino
          else some (fs, reply_open [])
        else if class == app_dir_class
        then some (fs, list_app_dir fs ino)
        else if class == app_doc_dir_class
        then stays fs (list_doc_dir fs ino entry)
        else some (fs, reply_open [])

    -- `none` is a failed assertion, or a document without its entry.
    unfoldable pub xdp_fuse_opendir : FuseState V → ℕ → Option (FuseState V × OpenedDir)
    unfolding list_class xdp_stat
    xdp_fuse_opendir fs ino = elim (xdp_stat outside db fs ino) [
      | none ↦ some (fs, no_dir)
      | some (stbuf, entry) ↦
          if not stbuf.is_dir then some (fs, no_directory) else list_class fs ino entry
    ]
