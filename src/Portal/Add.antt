-- ===== src/Portal/Add.antt =====
-- Adding a document (document-portal/xdp-main.c).
pub mod Fresh
pub mod Returns
use xdg_app.Db.Entry.{Entry, Variants, entry_new}
use xdg_app.Db.Queries.{db_lookup, list_ids_by_value}
use xdg_app.Db.State.{Db}
use xdg_app.Db.Update.{set_entry}
use xdg_app.Portal.Documents.{
  DocumentValues, Effect, Outcome, added_document, call_set, do_set_permissions, invalid_argument,
  invalidate_doc, refuse,
}
use xdg_app.Portal.Flags.{Flags, name_from_id}
use xdg_app.Portal.Fuse.{lookup_id_for_inode}
use xdg_app.Prelude.{
  Bool, Bytes, List, Option, [], get_elem?, if◌then◌else◌, is_some, none, not, some, str_eq, true,
  ℕ, ◌++◌, ◌+◌, ◌==◌, ◌||◌, ◌∷◌,
}

-- What fstat tells, and the file status flags of fcntl.
pub record Stat : Type 0 where
  pub device : ℕ
  pub inode : ℕ
  pub is_regular : Bool

pub record FdFlags : Type 0 where
  pub path_flag : Bool
  pub nofollow_flag : Bool

-- What adding asks of the kernel and of GLib: the descriptor that came with the message under an
-- index, its flags, its stat and the path of it below /proc/self/fd, the stat of a directory, the
-- stat of a name in a directory, the two parts of a path, and the device of the portal itself.
pub record Kernel : Type 0 where
  pub get_flags : ℕ → Option FdFlags
  pub fstat : ℕ → Option Stat
  pub readlink : ℕ → Option Bytes
  pub stat_dir : Bytes → Option Stat
  pub stat_in_dir : Bytes → Bytes → Option Stat
  pub get_dirname : Bytes → Bytes
  pub get_basename : Bytes → Bytes
  pub fuse_dev : ℕ

-- An index of the message, which is a signed number.
pub data Handle : Type 0 where
  index : ℕ → Handle
  negative : ℕ → Handle

-- `none` is a read in front of the array of descriptors; a missing descriptor is -1.
unfoldable pub get_fd : Option (List ℕ) → Handle → Option (Option ℕ)
get_fd none fd_id = some none
get_fd (some fds) (index i) = some (get_elem? fds i)
get_fd (some fds) (negative i) = none

-- O_NOFOLLOW and O_PATH
abbrev nofollow_bit : ℕ
nofollow_bit = 131072

abbrev path_bit : ℕ
path_bit = 2097152

-- `(fd_flags & O_NOFOLLOW) == O_PATH`
unfoldable pub refuses_nofollow : FdFlags → Bool
refuses_nofollow flags = (if flags.nofollow_flag then nofollow_bit else 0) == path_bit

-- The tests on the descriptor, up to readlink: its stat and its path.
unfoldable pub check_fd : Kernel → ℕ → Option (Stat × Bytes)
unfolding refuses_nofollow
check_fd kernel fd = elim (kernel.get_flags fd) [
  | none ↦ none
  | some flags ↦
      if not flags.path_flag || refuses_nofollow flags then none else elim (kernel.fstat fd) [
        | none ↦ none
        | some st_buf ↦
            if not st_buf.is_regular
            then none
            else elim (kernel.readlink fd) [ none ↦ none | some path ↦ some (st_buf, path) ]
      ]
]

-- The tests in the parent directory: its stat.
unfoldable pub check_parent : Kernel → Stat → Bytes → Option Stat
check_parent kernel st_buf path =
    let dirname = kernel.get_dirname path in
    elim (kernel.stat_dir dirname) [
      | none ↦ none
      | some real_parent ↦ elim (kernel.stat_in_dir dirname (kernel.get_basename path)) [
        | none ↦ none
        | some real ↦
            if not (st_buf.device == real.device) || not (st_buf.inode == real.inode)
            then none
            else some real_parent
      ]
    ]

-- The loop of do_create_doc over random numbers; `none` where they run out.
unfoldable pub fresh_id : {V : Type 0} → Db V → List ℕ → Option Bytes
fresh_id db [] = none
fresh_id db (random ∷ randoms) =
    let rest = fresh_id db randoms in
    let id = name_from_id random in if is_some (db_lookup db id) then rest else some id

-- The id of the document, the database and what others are told.
pub record Created (V : Type 0) : Type 0 where
  pub created_id : Bytes
  pub created_db : Db V
  pub created_effects : List (Effect V)

-- XDP_ENTRY_FLAG_UNIQUE and XDP_ENTRY_FLAG_TRANSIENT
unfoldable pub new_flags : Bool → Bool → ℕ
new_flags reuse_existing persistent =
    (if not reuse_existing then 1 else 0) + (if not persistent then 2 else 0)

-- The permissions of the application that adds a document.
unfoldable pub adder_flags : Bool → Flags
adder_flags reuse_existing = record {
  can_read = true;
  can_write = true;
  can_grant = true;
  can_delete = not reuse_existing;
}

module _ {V : Type 0} ⦃docs : DocumentValues V⦄ ⦃g : Variants V⦄ where
  unfoldable pub create_with : Db V → V → Bool → Option Bytes → Option (Created V)
  create_with db value persistent none = none
  create_with db value persistent (some id) = some (record {
    created_id = id;
    created_db = set_entry db id (some (entry_new (some value)));
    created_effects = invalidate_doc id ∷ (if persistent then call_set id value ∷ [] else []);
  })

  -- An entry with the same value, if there is one.
  unfoldable pub reused : Db V → V → Bool → List Bytes
  reused db value reuse_existing = if reuse_existing then list_ids_by_value db value else []

  unfoldable pub create_or_reuse : Db V → V → Bool → List ℕ → List Bytes → Option (Created V)
  unfolding create_with fresh_id
  create_or_reuse db value persistent randoms (id ∷ ids) =
      some (record { created_id = id; created_db = db; created_effects = [] })
  create_or_reuse db value persistent randoms [] =
      create_with db value persistent (fresh_id db randoms)

  unfoldable pub do_create_doc : Db V → Stat → Bytes → Bool → Bool → List ℕ → Option (Created V)
  unfolding create_or_reuse reused new_flags
  do_create_doc db parent path reuse_existing persistent randoms =
      let value =
        docs.document path parent.device parent.inode (new_flags reuse_existing persistent) in
      create_or_reuse db value persistent randoms (reused db value reuse_existing)

  -- The answer of the method, with what creating the document told others.
  unfoldable pub add_answer : Bytes → List (Effect V) → Outcome V → Outcome V
  add_answer id before out = record out {
    effects = before ++ out.effects;
    reply = added_document id;
  }

  unfoldable pub set_adder :
      Db V → Bytes → Bytes → Bool → List (Effect V) → Option (Entry V) → Option (Outcome V)
  unfolding add_answer adder_flags do_set_permissions
  set_adder db id app_id reuse_existing before none = none
  set_adder db id app_id reuse_existing before (some entry) =
      elim (do_set_permissions db entry id app_id (adder_flags reuse_existing)) [
        | none ↦ none
        | some out ↦ some (add_answer id before out)
      ]

  -- A file that is not on the file system of the portal; the host gets no permissions.
  unfoldable pub add_created : Bytes → Bool → Option (Created V) → Option (Outcome V)
  unfolding set_adder
  add_created app_id reuse_existing none = none
  add_created app_id reuse_existing (some c) =
      if str_eq app_id []
      then some (record {
        db = c.created_db;
        effects = c.created_effects;
        reply = added_document c.created_id;
      })
      else set_adder c.created_db c.created_id app_id reuse_existing c.created_effects
          (db_lookup c.created_db c.created_id)

  -- A file of the portal itself is added as the document that it is.
  unfoldable pub add_on_fuse : Db V → Stat → Bool → Outcome V
  unfolding lookup_id_for_inode
  add_on_fuse db st_buf reuse_existing =
      let old_id = lookup_id_for_inode st_buf.inode in
      let id = name_from_id old_id in
      if old_id == 0
      then refuse db invalid_argument
      else if not (is_some (db_lookup db id)) || not reuse_existing
      then refuse db invalid_argument
      else record { db = db; effects = []; reply = added_document id }

  -- portal_add behind the tests
  unfoldable pub add_checked :
      Kernel → Db V → Bytes → Bool → Bool → List ℕ → Stat → Bytes → Stat → Option (Outcome V)
  unfolding add_on_fuse add_created do_create_doc
  add_checked kernel db app_id reuse_existing persistent randoms st_buf path parent =
      if st_buf.device == kernel.fuse_dev
      then some (add_on_fuse db st_buf reuse_existing)
      else add_created app_id reuse_existing
          (do_create_doc db parent path reuse_existing persistent randoms)

  unfoldable pub add_fd : Kernel → Db V → Bytes → Bool → Bool → List ℕ → ℕ → Option (Outcome V)
  unfolding check_fd check_parent add_checked
  add_fd kernel db app_id reuse_existing persistent randoms fd = elim (check_fd kernel fd) [
    | none ↦ some (refuse db invalid_argument)
    | some (st_buf, path) ↦ elim (check_parent kernel st_buf path) [
      | none ↦ some (refuse db invalid_argument)
      | some parent ↦
          add_checked kernel db app_id reuse_existing persistent randoms st_buf path parent
    ]
  ]

  -- `none` is an abort, a read out of bounds, or that the random numbers ran out.
  unfoldable pub portal_add :
      Kernel → Db V → Bytes → Option (List ℕ) → Handle → Bool → Bool → List ℕ → Option (Outcome V)
  unfolding get_fd add_fd
  portal_add kernel db app_id fds fd_id reuse_existing persistent randoms =
      elim (get_fd fds fd_id) [
        | none ↦ none
        | some none ↦ some (refuse db invalid_argument)
        | some (some fd) ↦ add_fd kernel db app_id reuse_existing persistent randoms fd
      ]
