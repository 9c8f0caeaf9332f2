-- ===== src/Portal/Tree/Lookup/Files.antt =====
-- What stands in the directory of a document (document-portal/xdp-fuse.c).
use xdg_app.Db.Entry.{Entry}
use xdg_app.Db.State.{Db}
use xdg_app.Portal.Documents.{DocumentValues, lookup_doc}
use xdg_app.Portal.Fuse.{
  app_doc_dir_class, app_doc_file_class, get_app_id_from_app_doc_ino, get_class, get_class_ino,
  get_doc_id_from_app_doc_ino, make_app_doc_file_inode, make_inode, tmpfile_class,
}
use xdg_app.Portal.Fuse.Inodes.{make_app_doc_file_inode_lem}
use xdg_app.Portal.Tree.{
  FileStat, FuseState, Outside, XdpTmp, app_can_write_doc, drop_write, each_digit,
  entry_dup_basename, entry_stat, find_tmp_by_name, get_user_perms, no_write,
}
use xdg_app.Portal.Tree.Lookup.{
  LookupResult, enoent, enotdir, file_mode, found_ino, lookup_in_doc_dir, lookup_tmp, stat_doc_file,
  stat_found, xdp_lookup, xdp_stat,
}
use xdg_app.Prelude.{
  ==_iff, Bool, Bool-cases, Bytes, List, Option, [], arith, false, if_cases, if◌then◌else◌, inl,
  inr, none, not, option_both, option_cases, refl, some, some_injective, str_eq, str_eq_iff, subst,
  sym, true, ℕ, ◌%◌, ◌&&◌, ◌*◌, ◌+◌, ◌/◌, ◌<◌, ◌==◌, ◌^◌, ◌||◌, ◌∙◌, ◌∷◌, ◌≡◌, ◌⊎◌,
}

-- Whether some bit of a mode lets write.
unfoldable pub writable : ℕ → Bool
writable mode = not (mode / 128 % 2 == 0) || not (mode / 16 % 2 == 0) || not (mode / 2 % 2 == 0)

no_write_digit : (d : ℕ) → (no_write d / 2 % 2 ≡ 0) × (no_write d < 8)
unfolding no_write
no_write_digit d = (omega arith, omega arith)

three_digits :
    (a b c : ℕ)
    → a / 2 % 2 ≡ 0
    → b / 2 % 2 ≡ 0
    → c / 2 % 2 ≡ 0
    → b < 8
    → c < 8
    → ((a * 64 + b * 8 + c) / 128 % 2 ≡ 0)
      × ((a * 64 + b * 8 + c) / 16 % 2 ≡ 0)
      × ((a * 64 + b * 8 + c) / 2 % 2 ≡ 0)
three_digits a b c ha hb hc lb lc = (omega arith, omega arith, omega arith)

drop_write-writable : (mode : ℕ) → writable (drop_write mode) ≡ false
unfolding writable drop_write each_digit
drop_write-writable mode =
    let x = no_write_digit (mode / 64 % 8) in
    let y = no_write_digit (mode / 8 % 8) in
    let z = no_write_digit (mode % 8) in
    let (p, q, r) =
      three_digits (no_write (mode / 64 % 8)) (no_write (mode / 8 % 8)) (no_write (mode % 8)) x.0
        y.0 z.0 y.1 z.1 in
    rw (p, q, r) refl

-- A mode that lets write is that of a file that may be written.
mode_writable :
    (may : Bool) (mode : ℕ)
    → writable (if not may then drop_write (get_user_perms mode) else get_user_perms mode) ≡ true
    → may ≡ true
mode_writable true mode h = refl
mode_writable false mode h = ground (arith, h, drop_write-writable (get_user_perms mode))

module _ {V : Type 0} ⦃docs : DocumentValues V⦄ (outside : Outside) (db : Db V) where
  -- The file of the document of the directory, for the application of the directory.
  pub record FoundFile (fs : FuseState V) (app_id doc_id : ℕ) (name : Bytes) (ino : ℕ)
      (st : FileStat) : Type 0 where
    pub file_entry : Entry V
    pub is_file_inode : ino ≡ make_app_doc_file_inode app_id doc_id
    pub file_has_entry : lookup_doc db doc_id ≡ some file_entry
    pub is_basename : name ≡ entry_dup_basename outside file_entry
    pub write_allowed : writable st.mode_bits ≡ true → app_can_write_doc fs file_entry app_id ≡ true

  -- A temporary file is one of a list.
  abbrev pub IsAmong : XdpTmp V → List (XdpTmp V) → Type 0
  IsAmong tmp [] = ⊥
  IsAmong tmp (other ∷ l) = (other ≡ tmp) ⊎ IsAmong tmp l

  -- A temporary file of the file system that stands in the directory.
  pub record FoundTmp (fs : FuseState V) (parent : ℕ) (name : Bytes) (ino : ℕ) : Type 0 where
    pub tmp : XdpTmp V
    pub exists : IsAmong tmp fs.tmp_files
    pub is_tmp_inode : ino ≡ make_inode tmpfile_class tmp.tmp_id
    pub in_directory : tmp.parent_inode ≡ parent
    pub has_name : tmp.tmp_name ≡ name

  abbrev pub FindsFile : FuseState V → ℕ → Bytes → LookupResult → Type 0
  FindsFile fs parent name enoent = Unit
  FindsFile fs parent name enotdir = ⊥
  FindsFile fs parent name (found_ino ino st) =
      FoundFile fs (get_app_id_from_app_doc_ino (get_class_ino parent))
        (get_doc_id_from_app_doc_ino (get_class_ino parent)) name ino st
      ⊎ FoundTmp fs parent name ino

  find_tmp_by_name-found :
      (l : List (XdpTmp V)) (parent : ℕ) (name : Bytes) (found : XdpTmp V)
      → find_tmp_by_name l parent name ≡ some found
      → IsAmong found l × (found.parent_inode ≡ parent) × (found.tmp_name ≡ name)
  unfolding find_tmp_by_name
  find_tmp_by_name-found [] parent name found e = cc
  find_tmp_by_name-found (t ∷ l) parent name found e =
      elim (Bool-cases (t.parent_inode == parent && str_eq t.tmp_name name)) [
        | inl here ↦
            let same : t ≡ found = some_injective (sym (rw here refl) ∙ e) in
            (
              inl same,
              subst (λ k. k.parent_inode ≡ parent) same
                  (ground (arith, here, ==_iff t.parent_inode parent)),
              subst (λ k. k.tmp_name ≡ name) same
                  ((str_eq_iff t.tmp_name name).0 (ground (arith, here))),
            )
        | inr later ↦
            let rest = find_tmp_by_name-found l parent name found (ground (arith, e, later)) in
            (inr rest.0, rest.1, rest.2)
      ]

  -- Whatever the stat says, the inode is that of the temporary file.
  stat_found-FindsTmp :
      (fs : FuseState V) (parent : ℕ) (name : Bytes) (tmp : XdpTmp V)
      (st : Option (FileStat × Option (Entry V)))
      → IsAmong tmp fs.tmp_files × (tmp.parent_inode ≡ parent) × (tmp.tmp_name ≡ name)
      → FindsFile fs parent name (elim st [
        | none ↦ enoent
        | some (stbuf, entry) ↦ found_ino (make_inode tmpfile_class tmp.tmp_id) stbuf
      ])
  stat_found-FindsTmp fs parent name tmp none h = tt
  stat_found-FindsTmp fs parent name tmp (some st) h =
      inr (record {
        tmp = tmp;
        exists = h.0;
        is_tmp_inode = refl;
        in_directory = h.1;
        has_name = h.2;
      })

  lookup_tmp-FindsFile :
      (fs : FuseState V) (parent : ℕ) (name : Bytes)
      → FindsFile fs parent name (lookup_tmp outside db fs parent name)
  unfolding lookup_tmp stat_found
  lookup_tmp-FindsFile fs parent name =
      option_cases (FindsFile fs parent name) (find_tmp_by_name fs.tmp_files parent name) (λ e. tt)
        (λ found e.
          stat_found-FindsTmp fs parent name found _
            (find_tmp_by_name-found fs.tmp_files parent name found e))

  abbrev StatsFile : FuseState V → ℕ → ℕ → Option (FileStat × Option (Entry V)) → Type 0
  StatsFile fs app_id doc_id none = Unit
  StatsFile fs app_id doc_id (some (st, e)) =
      (entry : Entry V) × (lookup_doc db doc_id ≡ some entry)
      × (writable st.mode_bits ≡ true → app_can_write_doc fs entry app_id ≡ true)

  stat_doc_file-StatsFile :
      (fs : FuseState V) (class_ino : ℕ)
      → StatsFile fs
          (get_app_id_from_app_doc_ino class_ino)
          (get_doc_id_from_app_doc_ino class_ino)
          (stat_doc_file outside db fs class_ino)
  unfolding stat_doc_file file_mode
  stat_doc_file-StatsFile fs class_ino =
      let app_id = get_app_id_from_app_doc_ino class_ino in
      let doc_id = get_doc_id_from_app_doc_ino class_ino in
      option_cases (StatsFile fs app_id doc_id) (lookup_doc db doc_id) (λ e. tt)
        (λ entry e.
          option_both (StatsFile fs app_id doc_id) (entry_stat outside entry) tt
            (λ mode. (entry, e, λ h. mode_writable (app_can_write_doc fs entry app_id) mode h)))

  xdp_stat-doc_file :
      (fs : FuseState V) (ino : ℕ)
      → get_class ino ≡ app_doc_file_class
      → xdp_stat outside db fs ino ≡ stat_doc_file outside db fs (get_class_ino ino)
  unfolding xdp_stat
  xdp_stat-doc_file fs ino e = rw e refl

  stat_found-FindsFile :
      (fs : FuseState V) (parent : ℕ) (name : Bytes) (entry : Entry V)
      (st : Option (FileStat × Option (Entry V)))
      → lookup_doc db (get_doc_id_from_app_doc_ino (get_class_ino parent)) ≡ some entry
      → name ≡ entry_dup_basename outside entry
      → StatsFile fs
          (get_app_id_from_app_doc_ino (get_class_ino parent))
          (get_doc_id_from_app_doc_ino (get_class_ino parent))
          st
      → FindsFile fs parent name (elim st [
        | none ↦ enoent
        | some (stbuf, e) ↦
            found_ino
              (make_app_doc_file_inode
                (get_app_id_from_app_doc_ino (get_class_ino parent))
                (get_doc_id_from_app_doc_ino (get_class_ino parent)))
              stbuf
      ])
  stat_found-FindsFile fs parent name entry none e b s = tt
  stat_found-FindsFile fs parent name entry (some (stbuf, out)) e b (entry', e', w) = inl (record {
    file_entry = entry;
    is_file_inode = refl;
    file_has_entry = e;
    is_basename = b;
    write_allowed = λ h.
        subst
          (λ k. app_can_write_doc fs k (get_app_id_from_app_doc_ino (get_class_ino parent)) ≡ true)
          (some_injective (sym e' ∙ e)) (w h);
  })

  parent_ids :
      (parent : ℕ)
      → (get_app_id_from_app_doc_ino (get_class_ino parent) < 2 ^ 24)
        × (get_doc_id_from_app_doc_ino (get_class_ino parent) < 2 ^ 32)
  unfolding get_app_id_from_app_doc_ino get_doc_id_from_app_doc_ino get_class_ino
  parent_ids parent = (omega arith, omega arith)

  file_stat-StatsFile :
      (fs : FuseState V) (app_id doc_id : ℕ)
      → app_id < 2 ^ 24
      → doc_id < 2 ^ 32
      → StatsFile fs app_id doc_id (xdp_stat outside db fs (make_app_doc_file_inode app_id doc_id))
  file_stat-StatsFile fs app_id doc_id h k =
      let ino = make_app_doc_file_inode app_id doc_id in
      let (file_class, dir_class, same_ino, app_back, doc_back) =
        make_app_doc_file_inode_lem app_id doc_id h k in
      subst (StatsFile fs app_id doc_id) (sym (xdp_stat-doc_file fs ino file_class)) (
        subst (λ a. StatsFile fs a doc_id (stat_doc_file outside db fs (get_class_ino ino)))
          app_back
          (subst
            (λ d.
              StatsFile fs (get_app_id_from_app_doc_ino (get_class_ino ino)) d
                (stat_doc_file outside db fs (get_class_ino ino)))
            doc_back (stat_doc_file-StatsFile fs (get_class_ino ino))))

  lookup_in_doc_dir-FindsFile :
      (fs : FuseState V) (parent : ℕ) (name : Bytes)
      → FindsFile fs parent name (lookup_in_doc_dir outside db fs parent name)
  unfolding lookup_in_doc_dir stat_found
  lookup_in_doc_dir-FindsFile fs parent name =
      let app_id = get_app_id_from_app_doc_ino (get_class_ino parent) in
      let doc_id = get_doc_id_from_app_doc_ino (get_class_ino parent) in
      option_cases (FindsFile fs parent name) (lookup_doc db doc_id)
        (λ e. lookup_tmp-FindsFile fs parent name)
        (λ entry e.
          if_cases (FindsFile fs parent name) (str_eq name (entry_dup_basename outside entry))
            (λ same.
              stat_found-FindsFile fs parent name entry
                (xdp_stat outside db fs (make_app_doc_file_inode app_id doc_id)) e
                ((str_eq_iff name (entry_dup_basename outside entry)).0 same)
                (file_stat-StatsFile fs app_id doc_id (parent_ids parent).0 (parent_ids parent).1))
            (λ other. lookup_tmp-FindsFile fs parent name))

  abbrev pub Finds : FuseState V → ℕ → Bytes → Option (FuseState V × LookupResult) → Type 0
  Finds fs parent name none = ⊥
  Finds fs parent name (some (fs', result)) = FindsFile fs parent name result

  doc_dir_lookup :
      (strtoull : Bytes → ℕ) (fs : FuseState V) (parent : ℕ) (name : Bytes)
      → get_class parent ≡ app_doc_dir_class
      → xdp_lookup outside db strtoull fs parent name
        ≡ some (fs, lookup_in_doc_dir outside db fs parent name)
  unfolding xdp_lookup
  doc_dir_lookup strtoull fs parent name e = rw e refl

  -- A lookup in the directory of a document returns, and any inode that it finds is either that of
  -- the document of the directory, for the application of the directory, under the last part of its
  -- path, with no bit that lets write unless the application may write the document, or that of one
  -- of the temporary files of the file system, which is in this directory and has this name.
  pub xdp_lookup-Finds :
      (strtoull : Bytes → ℕ) (fs : FuseState V) (parent : ℕ) (name : Bytes)
      → get_class parent ≡ app_doc_dir_class
      → Finds fs parent name (xdp_lookup outside db strtoull fs parent name)
  xdp_lookup-Finds strtoull fs parent name e =
      subst (Finds fs parent name) (sym (doc_dir_lookup strtoull fs parent name e))
        (lookup_in_doc_dir-FindsFile fs parent name)
