-- ===== src/Portal/Fuse.antt =====
-- Inodes and names of the file system of the portal (document-portal/xdp-fuse.c).
pub mod Inodes
pub mod Names
use xdg_app.Prelude.{
  Bool, Bytes, [], false, if◌then◌else◌, leb, not, suc, true, zero, ℕ, ◌%◌, ◌&&◌, ◌*◌, ◌+◌, ◌/◌,
  ◌==◌, ◌^◌, ◌||◌, ◌∷◌,
}

-- XdpInodeClass
abbrev pub std_dirs_class : ℕ
std_dirs_class = 0

abbrev pub tmpfile_class : ℕ
tmpfile_class = 1

abbrev pub app_dir_class : ℕ
app_dir_class = 2

abbrev pub app_doc_dir_class : ℕ
app_doc_dir_class = 3

abbrev pub app_doc_file_class : ℕ
app_doc_file_class = 4

unfoldable pub get_class : ℕ → ℕ
get_class inode = inode / 2 ^ 56 % 2 ^ 8

unfoldable pub get_class_ino : ℕ → ℕ
get_class_ino inode = inode % 2 ^ 56

unfoldable pub get_app_id_from_app_doc_ino : ℕ → ℕ
get_app_id_from_app_doc_ino inode = inode / 2 ^ 32 % 2 ^ 32

unfoldable pub get_doc_id_from_app_doc_ino : ℕ → ℕ
get_doc_id_from_app_doc_ino inode = inode % 2 ^ 32

-- The two parts have no bit in common, so `|` adds them.
unfoldable pub make_inode : ℕ → ℕ → ℕ
make_inode class inode = class * 2 ^ 56 % 2 ^ 64 + inode % 2 ^ 56

unfoldable pub make_app_doc_dir_inode : ℕ → ℕ → ℕ
unfolding make_inode
make_app_doc_dir_inode app_id doc_id =
    make_inode app_doc_dir_class (app_id * 2 ^ 32 % 2 ^ 64 + doc_id)

unfoldable pub make_app_doc_file_inode : ℕ → ℕ → ℕ
unfolding make_inode
make_app_doc_file_inode app_id doc_id =
    make_inode app_doc_file_class (app_id * 2 ^ 32 % 2 ^ 64 + doc_id)

-- xdp_fuse_lookup_id_for_inode; 0 is no document.
unfoldable pub lookup_id_for_inode : ℕ → ℕ
unfolding get_class get_class_ino get_doc_id_from_app_doc_ino
lookup_id_for_inode inode =
    if not (get_class inode == app_doc_file_class)
    then 0
    else get_doc_id_from_app_doc_ino (get_class_ino inode)

-- `g_ascii_isdigit (c) || (c >= 'a' && c <= 'f')`
unfoldable pub is_lower_hex : ℕ → Bool
is_lower_hex c = (leb b'0' c && leb c b'9') || (leb b'a' c && leb c b'f')

-- The loop of name_looks_like_id and the test behind it; the first argument is `8 - i`.
unfoldable pub id_loop : ℕ → Bytes → Bool
unfolding is_lower_hex
id_loop left [] = true
id_loop zero (c ∷ name) = false
id_loop (suc left) (c ∷ name) =
    let rest = id_loop left name in if not (is_lower_hex c) then false else rest

unfoldable pub starts_with_zero : Bytes → Bool
starts_with_zero [] = false
starts_with_zero (c ∷ name) = c == b'0'

unfoldable pub name_looks_like_id : Bytes → Bool
unfolding id_loop starts_with_zero
name_looks_like_id name = if starts_with_zero name then false else id_loop 8 name
