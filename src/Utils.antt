-- ===== src/Utils.antt =====
-- Names and branches, of lib/xdg-app-utils.c.
pub mod Elements
pub mod Refs
mod Tests
use xdg_app.Prelude.{
  Bool, Bytes, [], false, if◌then◌else◌, leb, length, suc, ℕ, ◌&&◌, ◌==◌, ◌||◌, ◌∷◌,
}

abbrev pub is_letter : ℕ → Bool
is_letter c = (leb b'A' c && leb c b'Z') || (leb b'a' c && leb c b'z')

abbrev pub is_digit : ℕ → Bool
is_digit c = leb b'0' c && leb c b'9'

unfoldable pub is_valid_initial_name_character : ℕ → Bool
is_valid_initial_name_character c = is_letter c || c == b'_'

unfoldable pub is_valid_name_character : ℕ → Bool
unfolding is_valid_initial_name_character
is_valid_name_character c = is_valid_initial_name_character c || is_digit c

-- The loop over the characters behind the first, and the test of `dot_count` behind it.
unfoldable pub name_loop : ℕ → Bytes → Bool
unfolding is_valid_initial_name_character is_valid_name_character
name_loop dot_count [] = leb 2 dot_count
name_loop dot_count (c ∷ []) =
    if c == b'.' then false else is_valid_name_character c && leb 2 dot_count
name_loop dot_count (c ∷ d ∷ s) =
    let behind_dot = name_loop (suc dot_count) s in
    let behind = name_loop dot_count (d ∷ s) in
    if c == b'.'
    then is_valid_initial_name_character d && behind_dot
    else is_valid_name_character c && behind

-- xdg_app_is_valid_name
unfoldable pub is_valid_name : Bytes → Bool
unfolding name_loop
is_valid_name [] = false
is_valid_name (c ∷ s) =
    leb (length (c ∷ s)) 255 && (is_valid_initial_name_character c && name_loop 0 s)
