-- ===== src/Portal/Tree/Lookup/Sees.antt =====
-- What a lookup in the directory of an application leads to
-- (document-portal/xdp-fuse.c).
use xdg_app.Db.Entry.{Entry}
use xdg_app.Db.State.{Db}
use xdg_app.Portal.Documents.{DocumentValues, lookup_doc}
use xdg_app.Portal.Flags.{id_from_name}
use xdg_app.Portal.Fuse.{
  app_dir_class, app_doc_dir_class, get_app_id_from_app_doc_ino, get_class, get_class_ino,
  get_doc_id_from_app_doc_ino, make_app_doc_dir_inode, name_looks_like_id,
}
use xdg_app.Portal.Fuse.Inodes.{make_app_doc_file_inode_lem}
use xdg_app.Portal.Tree.{FileStat, FuseState, Outside, app_can_see_doc}
use xdg_app.Portal.Tree.Lookup.{
  LookupResult, enoent, enotdir, found_ino, lookup_in_app_dir, stat_doc_dir, stat_found, xdp_lookup,
  xdp_stat,
}
use xdg_app.Prelude.{
  Bytes, Option, ap, arith, if_both, if_cases, none, not, option_cases, refl, some, subst, sym,
  true, ℕ, ◌%◌, ◌<◌, ◌^◌, ◌∙◌, ◌≡◌,
}

module _ {V : Type 0} ⦃docs : DocumentValues V⦄ (outside : Outside) (db : Db V) where
  -- The document that an inode is of, which is there and may be seen.
  pub record SeenDir (fs : FuseState V) (app_id ino : ℕ) : Type 0 where
    pub doc_id : ℕ
    pub seen_entry : Entry V
    pub is_dir_inode : ino ≡ make_app_doc_dir_inode app_id doc_id
    pub has_entry : lookup_doc db doc_id ≡ some seen_entry
    pub may_see : app_can_see_doc fs seen_entry app_id ≡ true

  abbrev SeesDir : FuseState V → ℕ → LookupResult → Type 0
  SeesDir fs app_id enoent = Unit
  SeesDir fs app_id enotdir = ⊥
  SeesDir fs app_id (found_ino ino st) = SeenDir fs app_id ino

  abbrev Visible : FuseState V → ℕ → ℕ → Type 0
  Visible fs app_id doc_id =
      (entry : Entry V) × (lookup_doc db doc_id ≡ some entry)
      × (app_can_see_doc fs entry app_id ≡ true)

  -- A stat is there only of what may be seen.
  abbrev StatsDir : FuseState V → ℕ → ℕ → Option (FileStat × Option (Entry V)) → Type 0
  StatsDir fs app_id doc_id none = Unit
  StatsDir fs app_id doc_id (some st) = Visible fs app_id doc_id

  stat_doc_dir-StatsDir :
      (fs : FuseState V) (class_ino : ℕ)
      → StatsDir fs
          (get_app_id_from_app_doc_ino class_ino)
          (get_doc_id_from_app_doc_ino class_ino)
          (stat_doc_dir outside db fs class_ino)
  unfolding stat_doc_dir
  stat_doc_dir-StatsDir fs class_ino =
      let app_id = get_app_id_from_app_doc_ino class_ino in
      let doc_id = get_doc_id_from_app_doc_ino class_ino in
      option_cases (StatsDir fs app_id doc_id) (lookup_doc db doc_id) (λ e. tt)
        (λ entry e.
          if_cases (StatsDir fs app_id doc_id) (not (app_can_see_doc fs entry app_id)) (λ h. tt)
            (λ seen. (entry, e, ground (arith, seen))))

  pub xdp_stat-doc_dir :
      (fs : FuseState V) (ino : ℕ)
      → get_class ino ≡ app_doc_dir_class
      → xdp_stat outside db fs ino ≡ stat_doc_dir outside db fs (get_class_ino ino)
  unfolding xdp_stat
  xdp_stat-doc_dir fs ino e = rw e refl

  stat_found-SeesDir :
      (fs : FuseState V) (app_id doc_id : ℕ) (st : Option (FileStat × Option (Entry V)))
      → StatsDir fs app_id doc_id st
      → SeesDir fs app_id (elim st [
        | none ↦ enoent
        | some (stbuf, entry) ↦ found_ino (make_app_doc_dir_inode app_id doc_id) stbuf
      ])
  stat_found-SeesDir fs app_id doc_id none s = tt
  stat_found-SeesDir fs app_id doc_id (some st) (entry, e, seen) = record {
    doc_id = doc_id;
    seen_entry = entry;
    is_dir_inode = refl;
    has_entry = e;
    may_see = seen;
  }

  dir_found-SeesDir :
      (fs : FuseState V) (app_id doc_id : ℕ)
      → app_id < 2 ^ 24
      → doc_id < 2 ^ 32
      → SeesDir fs app_id (stat_found outside db fs (make_app_doc_dir_inode app_id doc_id))
  unfolding stat_found
  dir_found-SeesDir fs app_id doc_id h k =
      let ino = make_app_doc_dir_inode app_id doc_id in
      let (file_class, dir_class, same_ino, app_back, doc_back) =
        make_app_doc_file_inode_lem app_id doc_id h k in
      stat_found-SeesDir fs app_id doc_id (xdp_stat outside db fs ino) (
        subst (StatsDir fs app_id doc_id) (sym (xdp_stat-doc_dir fs ino dir_class)) (
          subst (λ a. StatsDir fs a doc_id (stat_doc_dir outside db fs (get_class_ino ino)))
            (ap get_app_id_from_app_doc_ino (sym same_ino) ∙ app_back)
            (subst
              (λ d.
                StatsDir fs (get_app_id_from_app_doc_ino (get_class_ino ino)) d
                  (stat_doc_dir outside db fs (get_class_ino ino)))
              (ap get_doc_id_from_app_doc_ino (sym same_ino) ∙ doc_back)
              (stat_doc_dir-StatsDir fs (get_class_ino ino)))))

  -- What a lookup in the directory of an application leads to.
  abbrev pub Sees : FuseState V → ℕ → Option (FuseState V × LookupResult) → Type 0
  Sees fs app_id none = ⊥
  Sees fs app_id (some (fs', result)) = SeesDir fs app_id result

  lookup_in_app_dir-SeesDir :
      (strtoull : Bytes → ℕ) (fs : FuseState V) (app_id : ℕ) (name : Bytes)
      → app_id < 2 ^ 24
      → SeesDir fs app_id (lookup_in_app_dir outside db strtoull fs app_id name)
  unfolding lookup_in_app_dir id_from_name
  lookup_in_app_dir-SeesDir strtoull fs app_id name h =
      if_both (SeesDir fs app_id) (name_looks_like_id name)
        (subst
          (λ a.
            SeesDir fs app_id
              (stat_found outside db fs (make_app_doc_dir_inode a (strtoull name % 2 ^ 32))))
          (omega arith) (dir_found-SeesDir fs app_id (strtoull name % 2 ^ 32) h (omega arith)))
        tt

  pub app_dir_lookup :
      (strtoull : Bytes → ℕ) (fs : FuseState V) (parent : ℕ) (name : Bytes)
      → get_class parent ≡ app_dir_class
      → xdp_lookup outside db strtoull fs parent name
        ≡ some (fs, lookup_in_app_dir outside db strtoull fs (get_class_ino parent) name)
  unfolding xdp_lookup
  app_dir_lookup strtoull fs parent name e = rw e refl

  -- A lookup in the directory of an application returns, and any inode that it finds is that of the
  -- directory of a document, for this application, that is in the database and that the application
  -- may read.
  pub xdp_lookup-Sees :
      (strtoull : Bytes → ℕ) (fs : FuseState V) (parent : ℕ) (name : Bytes)
      → get_class parent ≡ app_dir_class
      → get_class_ino parent < 2 ^ 24
      → Sees fs (get_class_ino parent) (xdp_lookup outside db strtoull fs parent name)
  unfolding xdp_lookup
  xdp_lookup-Sees strtoull fs parent name e h =
      subst (λ k. Sees fs (get_class_ino parent) k) (sym (app_dir_lookup strtoull fs parent name e))
        (lookup_in_app_dir-SeesDir strtoull fs (get_class_ino parent) name h)
