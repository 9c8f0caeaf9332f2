-- ===== src/Utils/Refs.antt =====
-- Branches and refs (lib/xdg-app-utils.c).
pub mod RoundTrip
use xdg_app.Prelude.{
  Bool, Bytes, List, Option, [], codes, false, if◌then◌else◌, length, none, not, some, str_eq, true,
  ℕ, ◌&&◌, ◌==◌, ◌||◌, ◌∷◌,
}
use xdg_app.Utils.{is_digit, is_letter, is_valid_name, is_valid_name_character}

-- Of GLib: g_strsplit at '/' without a limit, and g_build_filename; and the architecture of uname.
pub record RefCodec : Type 0 where
  pub strsplit : Bytes → List Bytes
  pub build_filename : List Bytes → Bytes
  pub get_arch : Bytes

unfoldable pub is_valid_initial_branch_character : ℕ → Bool
is_valid_initial_branch_character c = is_digit c || (is_letter c || (c == b'_' || c == b'-'))

unfoldable pub is_valid_branch_character : ℕ → Bool
unfolding is_valid_initial_branch_character
is_valid_branch_character c = is_valid_initial_branch_character c || c == b'.'

-- The loop over the characters behind the first.
unfoldable pub branch_loop : Bytes → Bool
unfolding is_valid_branch_character
branch_loop [] = true
branch_loop (c ∷ s) =
    let rest = branch_loop s in if not (is_valid_branch_character c) then false else rest

-- xdg_app_is_valid_branch
unfoldable pub is_valid_branch : Bytes → Bool
unfolding branch_loop
is_valid_branch [] = false
is_valid_branch (c ∷ s) = if not (is_valid_initial_branch_character c) then false else branch_loop s

-- What stands behind a prefix, if it is one.
unfoldable pub behind_prefix : Bytes → Bytes → Option Bytes
behind_prefix [] string = some string
behind_prefix (c ∷ name) [] = none
behind_prefix (c ∷ name) (d ∷ string) =
    let rest = behind_prefix name string in if c == d then rest else none

-- What may stand behind the prefix of a name.
unfoldable pub ends_name : Bytes → Bool
unfolding is_valid_name_character
ends_name [] = true
ends_name (c ∷ rest) = c == b'.' || not (is_valid_name_character c)

-- xdg_app_has_name_prefix
unfoldable pub has_name_prefix : Bytes → Bytes → Bool
unfolding behind_prefix ends_name
has_name_prefix string name = elim (behind_prefix name string) [
  | none ↦ false
  | some rest ↦ ends_name rest
]

pub data RefError : Type 0 where
  wrong_number no_kind invalid_name invalid_arch invalid_branch : RefError

-- What xdg_app_decompose_ref returns.
pub data Decomposed : Type 0 where
  ref_parts : List Bytes → Decomposed
  ref_error : RefError → Decomposed

-- The tests on the four components.
unfoldable pub check_parts : Bytes → Bytes → Bytes → Bytes → Decomposed
unfolding is_valid_name is_valid_branch
check_parts kind name arch branch =
    if not (str_eq kind (codes "app")) && not (str_eq kind (codes "runtime"))
    then ref_error no_kind
    else if not (is_valid_name name)
    then ref_error invalid_name
    else if length arch == 0
    then ref_error invalid_arch
    else if not (is_valid_branch branch)
    then ref_error invalid_branch
    else ref_parts (kind ∷ name ∷ arch ∷ branch ∷ [])

unfoldable pub decompose_parts : List Bytes → Decomposed
unfolding check_parts
decompose_parts [] = ref_error wrong_number
decompose_parts (kind ∷ []) = ref_error wrong_number
decompose_parts (kind ∷ name ∷ []) = ref_error wrong_number
decompose_parts (kind ∷ name ∷ arch ∷ []) = ref_error wrong_number
decompose_parts (kind ∷ name ∷ arch ∷ branch ∷ []) = check_parts kind name arch branch
decompose_parts (kind ∷ name ∷ arch ∷ branch ∷ more ∷ parts) = ref_error wrong_number

module _ (codec : RefCodec) where
  -- xdg_app_decompose_ref
  unfoldable pub decompose_ref : Bytes → Decomposed
  unfolding decompose_parts
  decompose_ref full_ref = decompose_parts (codec.strsplit full_ref)

  -- `if (arch == NULL) arch = xdg_app_get_arch ()`
  abbrev pub arch_or : Option Bytes → Bytes
  arch_or none = codec.get_arch
  arch_or (some arch) = arch

  -- xdg_app_build_untyped_ref
  unfoldable pub build_untyped_ref : Bytes → Bytes → Option Bytes → Bytes
  build_untyped_ref runtime branch arch =
      codec.build_filename (runtime ∷ arch_or arch ∷ branch ∷ [])

  -- xdg_app_build_runtime_ref
  unfoldable pub build_runtime_ref : Bytes → Bytes → Option Bytes → Bytes
  build_runtime_ref runtime branch arch =
      codec.build_filename (codes "runtime" ∷ runtime ∷ arch_or arch ∷ branch ∷ [])

  -- xdg_app_build_app_ref
  unfoldable pub build_app_ref : Bytes → Bytes → Option Bytes → Bytes
  build_app_ref app branch arch =
      codec.build_filename (codes "app" ∷ app ∷ arch_or arch ∷ branch ∷ [])
