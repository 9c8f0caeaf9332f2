-- ===== src/Portal/Tree/Listing/Found.antt =====
-- The listing for an application, and lookups in it (document-portal/xdp-fuse.c).
use xdg_app.Db.Entry.{Entry}
use xdg_app.Db.State.{Db}
use xdg_app.Portal.Documents.{DocumentValues, lookup_doc}
use xdg_app.Portal.Flags.{id_from_name, list_docs, name_from_id}
use xdg_app.Portal.Fuse.{
  app_dir_class, get_app_id_from_app_doc_ino, get_class, get_class_ino, get_doc_id_from_app_doc_ino,
  make_app_doc_dir_inode, make_inode, std_dirs_class,
}
use xdg_app.Portal.Fuse.Inodes.{make_app_doc_file_inode_lem}
use xdg_app.Portal.Fuse.Names.{ReadsHex, name_from_id-id_from_name}
use xdg_app.Portal.Tree.{
  FileStat, FuseState, Outside, app_can_see_doc, by_app_ino, doc_dir, get_app_name_from_id,
  non_doc_dir,
}
use xdg_app.Portal.Tree.Listing.{
  DirEntry, OpenedDir, dirbuf_add_docs, direntry, docs_loop, hides, io_error, list_app_dir,
  list_class, no_dir, no_directory, opened_dir, xdp_fuse_opendir,
}
use xdg_app.Portal.Tree.Lookup.{
  found_ino, lookup_in_app_dir, stat_app_dir, stat_doc_dir, stat_found, xdp_lookup, xdp_stat,
}
use xdg_app.Portal.Tree.Lookup.Sees.{app_dir_lookup, xdp_stat-doc_dir}
use xdg_app.Prelude.{
  All, Bytes, List, Option, [], ap, arith, codes, false, if_cases, if◌then◌else◌, is_some, map,
  none, not, refl, some, subst, sym, true, ℕ, ◌%◌, ◌&&◌, ◌<◌, ◌==◌, ◌^◌, ◌∙◌, ◌∷◌, ◌≡◌,
}

module _ {V : Type 0} ⦃docs : DocumentValues V⦄ (outside : Outside) (db : Db V)
    (strtoull : Bytes → ℕ) where
  -- A document that is there and may be seen.
  record Shown (fs : FuseState V) (app_id doc_id : ℕ) : Type 0 where
    entry : Entry V
    there : lookup_doc db doc_id ≡ some entry
    may_see : app_can_see_doc fs entry app_id ≡ true

  hides-Shown :
      (fs : FuseState V) (app_id doc_id : ℕ)
      → hides outside db fs app_id doc_id ≡ false
      → Shown fs app_id doc_id
  unfolding hides
  hides-Shown fs app_id doc_id h = go (lookup_doc db doc_id) refl h
    where
      go :
          (found : Option (Entry V))
          → lookup_doc db doc_id ≡ found
          → (elim found [ none ↦ true | some entry ↦ not (app_can_see_doc fs entry app_id) ])
            ≡ false
          → Shown fs app_id doc_id
      go none e h = cc
      go (some entry) e h = record { entry = entry; there = e; may_see = ground (arith, h) }

  stat_doc_dir-Shown :
      (fs : FuseState V) (app_id doc_id class_ino : ℕ) (shown : Shown fs app_id doc_id)
      → get_doc_id_from_app_doc_ino class_ino ≡ doc_id
      → get_app_id_from_app_doc_ino class_ino ≡ app_id
      → stat_doc_dir outside db fs class_ino ≡ some (doc_dir, some shown.entry)
  unfolding stat_doc_dir
  stat_doc_dir-Shown fs app_id doc_id class_ino shown d a =
      ap
        (λ r. elim r [
          | none ↦ none
          | some entry ↦
              if not (app_can_see_doc fs entry (get_app_id_from_app_doc_ino class_ino))
              then none
              else some (doc_dir, some entry)
        ])
        (ap (lookup_doc db) d ∙ shown.there)
      ∙ rw (a, shown.may_see) refl

  -- What stat_found answers for a stat.
  answer_found :
      (fs : FuseState V) (ino : ℕ) (st : FileStat) (entry : Option (Entry V))
      → xdp_stat outside db fs ino ≡ some (st, entry)
      → stat_found outside db fs ino ≡ found_ino ino st
  unfolding stat_found
  answer_found fs ino st entry e = rw (stat_found, e) refl

  stat_found-Shown :
      (fs : FuseState V) (app_id doc_id : ℕ)
      → app_id < 2 ^ 24
      → doc_id < 2 ^ 32
      → Shown fs app_id doc_id
      → stat_found outside db fs (make_app_doc_dir_inode app_id doc_id)
        ≡ found_ino (make_app_doc_dir_inode app_id doc_id) doc_dir
  stat_found-Shown fs app_id doc_id h k shown =
      let ino = make_app_doc_dir_inode app_id doc_id in
      let (file_class, dir_class, same_ino, app_back, doc_back) =
        make_app_doc_file_inode_lem app_id doc_id h k in
      answer_found fs ino doc_dir (some shown.entry) (
        xdp_stat-doc_dir outside db fs ino dir_class
        ∙ stat_doc_dir-Shown fs app_id doc_id (get_class_ino ino) shown
            (ap get_doc_id_from_app_doc_ino (sym same_ino) ∙ doc_back)
            (ap get_app_id_from_app_doc_ino (sym same_ino) ∙ app_back))

  -- An entry that a lookup in the directory finds, as the directory of a document.
  abbrev pub IsFound : FuseState V → ℕ → DirEntry → Type 0
  IsFound fs parent e =
      xdp_lookup outside db strtoull fs parent e.entry_name
      ≡ some (fs, found_ino e.entry_ino doc_dir)

  doc-IsFound :
      (fs : FuseState V) (parent doc_id : ℕ)
      → ReadsHex strtoull
      → get_class parent ≡ app_dir_class
      → get_class_ino parent < 2 ^ 24
      → 0 < doc_id
      → doc_id < 2 ^ 32
      → Shown fs (get_class_ino parent) doc_id
      → IsFound fs parent
          (direntry (name_from_id doc_id) (make_app_doc_dir_inode (get_class_ino parent) doc_id))
  unfolding lookup_in_app_dir
  doc-IsFound fs parent doc_id reads e h pos small shown =
      let app_id = get_class_ino parent in
      let (looks, reads_back) = name_from_id-id_from_name strtoull doc_id reads pos small in
      let same : app_id % 2 ^ 32 ≡ app_id = omega arith in
      let found : lookup_in_app_dir outside db strtoull fs app_id (name_from_id doc_id)
          ≡ found_ino (make_app_doc_dir_inode app_id doc_id) doc_dir =
        rw (looks, reads_back, same, stat_found-Shown fs app_id doc_id h small shown) refl in
      app_dir_lookup outside db strtoull fs parent (name_from_id doc_id) e
      ∙ ap (λ r. some (fs, r)) found

  ids_small : (ids : List Bytes) → All (λ d. d < 2 ^ 32) (map (id_from_name strtoull) ids)
  unfolding id_from_name
  ids_small [] = tt
  ids_small (id ∷ ids) = (omega arith, ids_small ids)

  docs_loop-IsFound :
      (fs : FuseState V) (parent : ℕ) (ids : List ℕ)
      → ReadsHex strtoull
      → get_class parent ≡ app_dir_class
      → 0 < get_class_ino parent
      → get_class_ino parent < 2 ^ 24
      → All (λ d. d < 2 ^ 32) ids
      → All (IsFound fs parent) (docs_loop outside db fs (get_class_ino parent) ids)
  unfolding docs_loop
  docs_loop-IsFound fs parent [] reads e pos h small = tt
  docs_loop-IsFound fs parent (doc ∷ ids) reads e pos h small =
      let app_id = get_class_ino parent in
      let rest = docs_loop-IsFound fs parent ids reads e pos h small.1 in
      if_cases (All (IsFound fs parent)) (doc == 0) (λ zero_doc. tt)
        (λ other.
          if_cases (All (IsFound fs parent)) (not (app_id == 0) && hides outside db fs app_id doc)
            (λ hidden. rest)
            (λ seen. (
              doc-IsFound fs parent doc reads e h (ground (arith, other)) small.0
                  (hides-Shown fs app_id doc (ground (arith, seen, pos))),
              rest,
            )))

  -- The directory of an application, opened: itself, the one above, and documents that are found.
  pub record OpensFound (fs fs' : FuseState V) (parent : ℕ) (entries : List DirEntry) : Type 0 where
    pub shown_docs : List DirEntry
    pub same_state : fs' ≡ fs
    pub is_listing :
        entries
        ≡ direntry (codes ".") parent
          ∷ direntry (codes "..") (make_inode std_dirs_class by_app_ino)
          ∷ shown_docs
    pub all_found : All (IsFound fs parent) shown_docs

  abbrev pub Opens : FuseState V → ℕ → Option (FuseState V × OpenedDir) → Type 0
  Opens fs parent none = ⊥
  Opens fs parent (some (fs', no_dir)) =
      get_app_name_from_id fs (get_class_ino parent % 2 ^ 32) ≡ none
  Opens fs parent (some (fs', no_directory)) = ⊥
  Opens fs parent (some (fs', io_error)) = ⊥
  Opens fs parent (some (fs', opened_dir entries)) = OpensFound fs fs' parent entries

  -- Opening the directory of an application.
  abbrev open_named : FuseState V → ℕ → Option Bytes → Option (FuseState V × OpenedDir)
  open_named fs parent none = some (fs, no_dir)
  open_named fs parent (some name) = some (fs, list_app_dir outside db strtoull fs parent)

  -- What xdp_fuse_opendir makes of a stat, in the directory of an application.
  opendir_stat :
      (fs : FuseState V) (parent : ℕ)
      → get_class parent ≡ app_dir_class
      → (st : Option (FileStat × Option (Entry V))) → xdp_stat outside db fs parent ≡ st
      → xdp_fuse_opendir outside db strtoull fs parent ≡ elim st [
        | none ↦ some (fs, no_dir)
        | some (stbuf, entry) ↦
            if not stbuf.is_dir
            then some (fs, no_directory)
            else some (fs, list_app_dir outside db strtoull fs parent)
      ]
  unfolding xdp_fuse_opendir list_class
  opendir_stat fs parent e none s = rw (xdp_fuse_opendir, s) refl
  opendir_stat fs parent e (some (stbuf, entry)) s = rw (xdp_fuse_opendir, s, e) refl

  stat-app_dir :
      (fs : FuseState V) (parent : ℕ) (name : Option Bytes)
      → get_class parent ≡ app_dir_class
      → get_app_name_from_id fs (get_class_ino parent % 2 ^ 32) ≡ name
      → xdp_stat outside db fs parent ≡ (if is_some name then some (non_doc_dir, none) else none)
  unfolding xdp_stat stat_app_dir
  stat-app_dir fs parent name e named = rw (e, named) refl

  opendir-app_dir :
      (fs : FuseState V) (parent : ℕ) (name : Option Bytes)
      → get_class parent ≡ app_dir_class
      → get_app_name_from_id fs (get_class_ino parent % 2 ^ 32) ≡ name
      → xdp_fuse_opendir outside db strtoull fs parent ≡ open_named fs parent name
  opendir-app_dir fs parent none e named =
      opendir_stat fs parent e none (stat-app_dir fs parent none e named)
  opendir-app_dir fs parent (some name) e named =
      opendir_stat fs parent e (some (non_doc_dir, none))
        (stat-app_dir fs parent (some name) e named)

  list_app_dir-Opens :
      (fs : FuseState V) (parent : ℕ) (name : Option Bytes)
      → ReadsHex strtoull
      → get_class parent ≡ app_dir_class
      → 0 < get_class_ino parent
      → get_class_ino parent < 2 ^ 24
      → get_app_name_from_id fs (get_class_ino parent % 2 ^ 32) ≡ name
      → Opens fs parent (open_named fs parent name)
  unfolding list_app_dir dirbuf_add_docs list_docs
  list_app_dir-Opens fs parent none reads e pos h named = named
  list_app_dir-Opens fs parent (some name) reads e pos h named =
      let same : get_class_ino parent % 2 ^ 32 ≡ get_class_ino parent = omega arith in
      record {
        shown_docs = docs_loop outside db fs (get_class_ino parent) (list_docs strtoull db);
        same_state = refl;
        is_listing = rw same refl;
        all_found = docs_loop-IsFound fs parent (list_docs strtoull db) reads e pos h (ids_small _);
      }

  -- Where g_ascii_strtoull reads hexadecimal digits, opening the directory of an application, whose
  -- id is not 0 and below 2 ^ 24, returns. It fails only if no application has the id. Else it lists
  -- the directory, the one above it, and documents, and a lookup of any of these documents by the
  -- name that is listed finds the inode that is listed, as the directory of a document, and changes
  -- nothing.
  pub xdp_fuse_opendir-Opens :
      (fs : FuseState V) (parent : ℕ)
      → ReadsHex strtoull
      → get_class parent ≡ app_dir_class
      → 0 < get_class_ino parent
      → get_class_ino parent < 2 ^ 24
      → Opens fs parent (xdp_fuse_opendir outside db strtoull fs parent)
  xdp_fuse_opendir-Opens fs parent reads e pos h =
      let name = get_app_name_from_id fs (get_class_ino parent % 2 ^ 32) in
      subst (Opens fs parent) (sym (opendir-app_dir fs parent name e refl))
        (list_app_dir-Opens fs parent name reads e pos h refl)
