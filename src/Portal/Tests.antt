-- ===== src/Portal/Tests.antt =====
-- The portal at work.
use xdg_app.Db.Entry.{Variants}
use xdg_app.Db.Index.Agrees.{Agrees, db_lookup-set_entry, set_entry-Agrees}
use xdg_app.Db.Queries.{db_lookup}
use xdg_app.Db.State.{Db, db_init, init_from, initable_init, load_file}
use xdg_app.Db.Tests.{app_name, id_x, numbers, read_name, test_entry}
use xdg_app.Db.Tests.Examples.{one, one-Consistent, start, test_entry-IsSorted}
use xdg_app.Db.Update.{set_entry}
use xdg_app.Portal.Add.{Kernel, index, portal_add}
use xdg_app.Portal.Add.Fresh.{Adds, portal_add-Adds}
use xdg_app.Portal.Add.Returns.{Returns, portal_add-Returns}
use xdg_app.Portal.Documents.{DocumentValues}
use xdg_app.Portal.Flags.{
  Flags, hex_digit, id_from_name, name_from_id, parse_permissions, print_hex, unparse_permissions,
}
use xdg_app.Portal.Flags.Parsing.{parse_permissions-unparse_permissions}
use xdg_app.Portal.Fuse.{
  app_dir_class, app_doc_dir_class, app_doc_file_class, get_app_id_from_app_doc_ino, get_class,
  get_class_ino, get_doc_id_from_app_doc_ino, make_app_doc_dir_inode, make_app_doc_file_inode,
  make_inode, name_looks_like_id,
}
use xdg_app.Portal.Fuse.Inodes.{make_app_doc_file_inode_lem}
use xdg_app.Portal.Fuse.Names.{hex_value, name_from_id-id_from_name}
use xdg_app.Portal.Methods.{portal_delete, portal_grant_permissions, portal_revoke_permissions}
use xdg_app.Portal.Methods.Safety.{Grants, portal_grant_permissions-Grants}
use xdg_app.Portal.Methods.Taking.{
  Deletes, Revokes, portal_delete-Deletes, portal_revoke_permissions-Revokes,
}
use xdg_app.Portal.Tree.{FuseState, Outside}
use xdg_app.Portal.Tree.Listing.{xdp_fuse_opendir}
use xdg_app.Portal.Tree.Listing.Found.{Opens, xdp_fuse_opendir-Opens}
use xdg_app.Portal.Tree.Lookup.{xdp_lookup}
use xdg_app.Portal.Tree.Lookup.Files.{Finds, xdp_lookup-Finds}
use xdg_app.Portal.Tree.Lookup.Sees.{Sees, xdp_lookup-Sees}
use xdg_app.Prelude.{
  Bytes, [], ap, arith, bytes_eq, direct_eq, false, lookup, none, refl, some, str_eq, true, ℕ, ◌∙◌,
  ◌∷◌, ◌≡◌,
}

-- The value of a document is the number of its flags.
instance abbrev values : Variants ℕ
values = numbers

instance abbrev document_values : DocumentValues ℕ
document_values = record {
  document = λ path device inode flags. flags;
  document_path = λ value. 47 ∷ id_x;
  document_device = λ value. 5;
  document_inode = λ value. 6;
  document_flags = λ value. value;
}

-- The document 1, with another entry beside it.
abbrev first_id : Bytes
first_id = 49 ∷ []

abbrev test_db : Db ℕ
test_db = set_entry one first_id (some test_entry)

test_db-Agrees : Agrees test_db
test_db-Agrees =
    set_entry-Agrees one first_id (some test_entry) one-Consistent.agrees test_entry-IsSorted

-- `a.b.c`
abbrev target_name : Bytes
target_name = 97 ∷ 46 ∷ 98 ∷ 46 ∷ 99 ∷ []

portal_grant_permissions-Grants_example :
    Grants test_db test_db-Agrees [] first_id target_name
      (parse_permissions (read_name ∷ []))
      (portal_grant_permissions test_db [] first_id target_name (read_name ∷ []))
portal_grant_permissions-Grants_example =
    portal_grant_permissions-Grants test_db test_db-Agrees [] first_id target_name (read_name ∷ [])

portal_revoke_permissions-Revokes_example :
    Revokes test_db test_db-Agrees [] first_id target_name
      (parse_permissions (read_name ∷ []))
      (portal_revoke_permissions test_db [] first_id target_name (read_name ∷ []))
portal_revoke_permissions-Revokes_example =
    portal_revoke_permissions-Revokes test_db test_db-Agrees [] first_id target_name
      (read_name ∷ [])

portal_delete-Deletes_example :
    Deletes test_db test_db-Agrees app_name first_id (portal_delete test_db app_name first_id)
portal_delete-Deletes_example = portal_delete-Deletes test_db test_db-Agrees app_name first_id

-- One regular file, under the descriptor 7.
abbrev test_kernel : Kernel
test_kernel = record {
  get_flags = λ fd. some (record { path_flag = true; nofollow_flag = false });
  fstat = λ fd. some (record { device = 5; inode = 8; is_regular = true });
  readlink = λ fd. some (47 ∷ id_x);
  stat_dir = λ dir. some (record { device = 5; inode = 6; is_regular = false });
  stat_in_dir = λ dir name. some (record { device = 5; inode = 8; is_regular = true });
  get_dirname = λ path. 47 ∷ [];
  get_basename = λ path. id_x;
  fuse_dev = 3;
}

portal_add-Adds_example :
    Adds test_db test_db-Agrees app_name false
      (portal_add test_kernel test_db app_name (some (7 ∷ [])) (index 0) false true (1 ∷ 2 ∷ []))
portal_add-Adds_example =
    portal_add-Adds test_db test_db-Agrees test_kernel app_name (some (7 ∷ [])) (index 0) false true
      (1 ∷ 2 ∷ [])

second_name : name_from_id 2 ≡ 50 ∷ []
unfolding name_from_id print_hex hex_digit
second_name = refl

start-empty : db_lookup start (50 ∷ []) ≡ none
unfolding db_lookup db_init initable_init load_file init_from lookup
start-empty = refl

-- The database has no document 2.
second_free : db_lookup test_db (name_from_id 2) ≡ none
unfolding str_eq
second_free =
    ap (db_lookup test_db) second_name
    ∙ db_lookup-set_entry one first_id (some test_entry) (50 ∷ [])
    ∙ db_lookup-set_entry start id_x (some test_entry) (50 ∷ [])
    ∙ start-empty

portal_add-Returns_example :
    Returns test_db test_db-Agrees
      (portal_add test_kernel test_db app_name (some (7 ∷ [])) (index 0) false true (1 ∷ 2 ∷ []))
portal_add-Returns_example =
    portal_add-Returns test_db test_db-Agrees test_kernel app_name (some (7 ∷ [])) 0 false true
      (1 ∷ 2 ∷ []) 1 2 refl second_free

abbrev some_flags : Flags
some_flags = record { can_read = true; can_write = false; can_grant = true; can_delete = false }

parse_permissions-unparse_permissions_example :
    parse_permissions (unparse_permissions some_flags) ≡ some_flags
parse_permissions-unparse_permissions_example = parse_permissions-unparse_permissions some_flags

name_from_id-id_from_name_example :
    (name_looks_like_id (name_from_id 48879) ≡ true)
    × (id_from_name (hex_value 0) (name_from_id 48879) ≡ 48879)
name_from_id-id_from_name_example =
    name_from_id-id_from_name (hex_value 0) 48879 (λ name all short. refl) (omega arith)
      (omega arith)

make_app_doc_file_inode_lem_example :
    (get_class (make_app_doc_file_inode 3 48879) ≡ app_doc_file_class)
    × (get_class (make_app_doc_dir_inode 3 48879) ≡ app_doc_dir_class)
    × (get_class_ino (make_app_doc_file_inode 3 48879)
        ≡ get_class_ino (make_app_doc_dir_inode 3 48879))
    × (get_app_id_from_app_doc_ino (get_class_ino (make_app_doc_file_inode 3 48879)) ≡ 3)
    × (get_doc_id_from_app_doc_ino (get_class_ino (make_app_doc_file_inode 3 48879)) ≡ 48879)
make_app_doc_file_inode_lem_example =
    make_app_doc_file_inode_lem 3 48879 (omega arith) (omega arith)

abbrev test_outside : Outside
test_outside = record {
  open_dir = λ path. some 7;
  fstat_dir = λ fd. some (6, 5);
  lstat_at = λ fd name. some 420;
  stat_at = λ fd name. some 420;
  path_dirname = λ path. 47 ∷ [];
  path_basename = λ path. id_x;
}

-- The application 1 is `app`.
abbrev test_fs : FuseState ℕ
test_fs = record {
  app_name_to_id = (app_name, 1) ∷ [];
  app_id_to_name = (1, app_name) ∷ [];
  next_app_id = 2;
  tmp_files = [];
}

abbrev app_dir : ℕ
app_dir = make_inode app_dir_class 1

app_dir-class : get_class app_dir ≡ app_dir_class
unfolding get_class make_inode
app_dir-class = refl

app_dir-ino : get_class_ino app_dir ≡ 1
unfolding get_class_ino make_inode
app_dir-ino = refl

xdp_lookup-Sees_example :
    Sees test_outside test_db test_fs
      (get_class_ino app_dir)
      (xdp_lookup test_outside test_db (hex_value 0) test_fs app_dir first_id)
xdp_lookup-Sees_example =
    xdp_lookup-Sees test_outside test_db (hex_value 0) test_fs app_dir first_id app_dir-class
      (omega (arith, app_dir-ino))

abbrev doc_dir_ino : ℕ
doc_dir_ino = make_app_doc_dir_inode 1 1

doc_dir_ino-class : get_class doc_dir_ino ≡ app_doc_dir_class
unfolding get_class make_app_doc_dir_inode make_inode
doc_dir_ino-class = refl

xdp_lookup-Finds_example :
    Finds test_outside test_db test_fs doc_dir_ino id_x
      (xdp_lookup test_outside test_db (hex_value 0) test_fs doc_dir_ino id_x)
xdp_lookup-Finds_example =
    xdp_lookup-Finds test_outside test_db (hex_value 0) test_fs doc_dir_ino id_x doc_dir_ino-class

xdp_fuse_opendir-Opens_example :
    Opens test_outside test_db
      (hex_value 0)
      test_fs
      app_dir
      (xdp_fuse_opendir test_outside test_db (hex_value 0) test_fs app_dir)
xdp_fuse_opendir-Opens_example =
    xdp_fuse_opendir-Opens test_outside test_db (hex_value 0) test_fs app_dir
      (λ name all short. refl) app_dir-class (omega (arith, app_dir-ino))
      (omega (arith, app_dir-ino))
