-- ===== src/Portal/Fuse/Inodes.antt =====
-- Inodes, and the ids in them (document-portal/xdp-fuse.c).
use xdg_app.Portal.Fuse.{
  app_doc_dir_class, app_doc_file_class, get_app_id_from_app_doc_ino, get_class, get_class_ino,
  get_doc_id_from_app_doc_ino, make_app_doc_dir_inode, make_app_doc_file_inode, make_inode,
}
use xdg_app.Prelude.{arith, ℕ, ◌<◌, ◌^◌, ◌≡◌}

-- The inode of a document, and that of its directory, for an application id below 2 ^ 24 and a
-- document id of 32 bits have their classes and are the same but for these, and that of the document
-- gives back both ids.
pub make_app_doc_file_inode_lem :
    (app_id doc_id : ℕ)
    → app_id < 2 ^ 24
    → doc_id < 2 ^ 32
    → (get_class (make_app_doc_file_inode app_id doc_id) ≡ app_doc_file_class)
      × (get_class (make_app_doc_dir_inode app_id doc_id) ≡ app_doc_dir_class)
      × (get_class_ino (make_app_doc_file_inode app_id doc_id)
          ≡ get_class_ino (make_app_doc_dir_inode app_id doc_id))
      × (get_app_id_from_app_doc_ino (get_class_ino (make_app_doc_file_inode app_id doc_id))
          ≡ app_id)
      × (get_doc_id_from_app_doc_ino (get_class_ino (make_app_doc_file_inode app_id doc_id))
          ≡ doc_id)
unfolding get_class make_app_doc_file_inode make_app_doc_dir_inode get_class_ino
    get_app_id_from_app_doc_ino get_doc_id_from_app_doc_ino make_inode
make_app_doc_file_inode_lem app_id doc_id h k =
    (omega arith, omega arith, omega arith, omega arith, omega arith)
