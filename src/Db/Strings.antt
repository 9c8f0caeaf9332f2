-- ===== src/Db/Strings.antt =====
-- Strings in order, and arrays of strings (lib/xdg-app-db.c).
pub mod Order
pub mod Arrays
use mathlib.Core.Option
use xdg_app.Prelude.{
  Bool, Bytes, List, Option, [], false, if◌then◌else◌, is_some, ltb, none, some, str_eq, suc, true,
  zero, ℕ, ◌&&◌, ◌++◌, ◌==◌, ◌||◌, ◌∷◌,
}

-- `array->len == 0`
abbrev pub len_is_zero : List Bytes → Bool
len_is_zero [] = true
len_is_zero (x ∷ array) = false

-- `strcmp (s, t) < 0`, on bytes without sign
unfoldable pub less : Bytes → Bytes → Bool
less s [] = false
less [] (b ∷ t) = true
less (a ∷ s) (b ∷ t) = ltb a b || (a == b && less s t)

unfoldable pub insert_sorted : Bytes → List Bytes → List Bytes
insert_sorted x [] = x ∷ []
insert_sorted x (y ∷ ys) =
    let rest = insert_sorted x ys in if less y x then y ∷ rest else x ∷ y ∷ ys

-- What qsort makes of strings is fixed by their order, since equal strings are the same.
unfoldable pub sort_strv : List Bytes → List Bytes
sort_strv [] = []
sort_strv (x ∷ xs) = insert_sorted x (sort_strv xs)

unfoldable pub str_ptr_array_find : List Bytes → Bytes → Option ℕ
str_ptr_array_find [] str = none
str_ptr_array_find (x ∷ array) str =
    if str_eq x str then some 0 else Option.map suc (str_ptr_array_find array str)

unfoldable pub str_ptr_array_contains : List Bytes → Bytes → Bool
str_ptr_array_contains array str = is_some (str_ptr_array_find array str)

-- The last element, put in front of the others.
unfoldable pub behind_first : Bytes → List Bytes → List Bytes
behind_first x [] = x ∷ []
behind_first x (l ∷ ys) = l ∷ x ∷ ys

unfoldable pub last_first : List Bytes → List Bytes
last_first [] = []
last_first (x ∷ xs) = behind_first x (last_first xs)

-- g_ptr_array_remove_index_fast: the last element takes the place of the one removed.
unfoldable pub remove_index_fast : List Bytes → ℕ → List Bytes
remove_index_fast [] i = []
remove_index_fast (x ∷ xs) zero = last_first xs
remove_index_fast (x ∷ xs) (suc i) = x ∷ remove_index_fast xs i

-- The search and the removal of what it finds, as add_app_id and remove_app_id write it.
unfoldable pub remove_string : Bytes → List Bytes → List Bytes
remove_string str array = elim (str_ptr_array_find array str) [
  | none ↦ array
  | some i ↦ remove_index_fast array i
]

-- The test and the addition behind it.
unfoldable pub add_string : Bytes → List Bytes → List Bytes
add_string str array = if str_ptr_array_contains array str then array else array ++ str ∷ []
