-- ===== src/Utils/Refs/RoundTrip.antt =====
-- Building refs and taking them apart (lib/xdg-app-utils.c).
use xdg_app.Prelude.{
  All, Bool-cases, Bytes, List, Option, [], ap, arith, codes, false, inl, inr, length, refl, str_eq,
  suc, true, ℕ, ◌++◌, ◌<◌, ◌==◌, ◌||◌, ◌∙◌, ◌∷◌, ◌≡◌,
}
use xdg_app.Utils.{
  is_valid_initial_name_character, is_valid_name, is_valid_name_character, name_loop,
}
use xdg_app.Utils.Refs.{
  RefCodec, arch_or, branch_loop, build_app_ref, build_runtime_ref, check_parts, decompose_parts,
  decompose_ref, is_valid_branch, is_valid_branch_character, is_valid_initial_branch_character,
  ref_parts,
}

abbrev pub NoSlash : ℕ → Type 0
NoSlash c = (c == b'/') ≡ false

-- A part of a path.
abbrev pub IsPart : Bytes → Type 0
IsPart p = (0 < length p) × All NoSlash p

-- Parts, with a slash between any two.
abbrev pub joined : List Bytes → Bytes
joined [] = []
joined (p ∷ []) = p
joined (p ∷ q ∷ parts) = p ++ b'/' ∷ joined (q ∷ parts)

-- GLib puts parts together, and splits them again.
pub record JoinsAndSplits (codec : RefCodec) : Type 0 where
  pub joins : (parts : List Bytes) → All IsPart parts → codec.build_filename parts ≡ joined parts
  pub splits :
      (p : Bytes) (parts : List Bytes)
      → All IsPart (p ∷ parts)
      → codec.strsplit (joined (p ∷ parts)) ≡ p ∷ parts

name_loop-NoSlash : (n : ℕ) (s : Bytes) → name_loop n s ≡ true → All NoSlash s
unfolding name_loop is_valid_initial_name_character is_valid_name_character
name_loop-NoSlash n [] h = tt
name_loop-NoSlash n (c ∷ []) h = (ground (arith, h), tt)
name_loop-NoSlash n (c ∷ d ∷ s) h = elim (Bool-cases (c == b'.')) [
  | inl dot ↦ (
    ground (arith, h, dot),
    (ground (arith, h, dot), name_loop-NoSlash (suc n) s (ground (arith, h, dot))),
  )
  | inr other ↦ (ground (arith, h, other), name_loop-NoSlash n (d ∷ s) (ground (arith, h, other)))
]

valid_name-IsPart : (s : Bytes) → is_valid_name s ≡ true → IsPart s
unfolding is_valid_name is_valid_initial_name_character
valid_name-IsPart [] h = cc
valid_name-IsPart (c ∷ s) h =
    (omega arith, (ground (arith, h), name_loop-NoSlash 0 s (ground (arith, h))))

branch_loop-NoSlash : (s : Bytes) → branch_loop s ≡ true → All NoSlash s
unfolding branch_loop is_valid_branch_character is_valid_initial_branch_character
branch_loop-NoSlash [] h = tt
branch_loop-NoSlash (c ∷ s) h = (ground (arith, h), branch_loop-NoSlash s (ground (arith, h)))

valid_branch-IsPart : (s : Bytes) → is_valid_branch s ≡ true → IsPart s
unfolding is_valid_branch is_valid_initial_branch_character
valid_branch-IsPart [] h = cc
valid_branch-IsPart (c ∷ s) h =
    (omega arith, (ground (arith, h), branch_loop-NoSlash s (ground (arith, h))))

check_parts-valid :
    (kind name arch branch : Bytes)
    → (str_eq kind (codes "app") || str_eq kind (codes "runtime")) ≡ true
    → is_valid_name name ≡ true
    → 0 < length arch
    → is_valid_branch branch ≡ true
    → check_parts kind name arch branch ≡ ref_parts (kind ∷ name ∷ arch ∷ branch ∷ [])
unfolding check_parts
check_parts-valid kind name arch branch k n a b = ground (arith, k, n, a, b)

module _ (codec : RefCodec) (glib : JoinsAndSplits codec) where
  decompose_ref-joined :
      (kind name arch branch : Bytes)
      → (str_eq kind (codes "app") || str_eq kind (codes "runtime")) ≡ true
      → IsPart kind
      → is_valid_name name ≡ true
      → IsPart arch
      → is_valid_branch branch ≡ true
      → decompose_ref codec (codec.build_filename (kind ∷ name ∷ arch ∷ branch ∷ []))
        ≡ ref_parts (kind ∷ name ∷ arch ∷ branch ∷ [])
  unfolding decompose_ref decompose_parts
  decompose_ref-joined kind name arch branch k part n a b =
      let all : All IsPart (kind ∷ name ∷ arch ∷ branch ∷ []) =
        (part, (valid_name-IsPart name n, (a, (valid_branch-IsPart branch b, tt)))) in
      ap decompose_parts (
        ap codec.strsplit (glib.joins (kind ∷ name ∷ arch ∷ branch ∷ []) all)
        ∙ glib.splits kind (name ∷ arch ∷ branch ∷ []) all)
      ∙ check_parts-valid kind name arch branch k n a.0 b

  -- Where GLib joins parts of a path with slashes, and splits them again, the ref that is built of a
  -- valid name, a valid branch and an architecture, given or that of the system, that is not empty
  -- and has no slash, is taken apart into its kind, its name, the architecture and the branch, both
  -- for an application and for a runtime.
  pub decompose_ref-build_app_ref :
      (name branch : Bytes) (arch : Option Bytes)
      → is_valid_name name ≡ true
      → is_valid_branch branch ≡ true
      → IsPart (arch_or codec arch)
      → (decompose_ref codec (build_app_ref codec name branch arch)
          ≡ ref_parts (codes "app" ∷ name ∷ arch_or codec arch ∷ branch ∷ []))
        × (decompose_ref codec (build_runtime_ref codec name branch arch)
            ≡ ref_parts (codes "runtime" ∷ name ∷ arch_or codec arch ∷ branch ∷ []))
  unfolding build_app_ref build_runtime_ref codes str_eq
  decompose_ref-build_app_ref name branch arch n b a = (
    decompose_ref-joined (codes "app") name (arch_or codec arch) branch refl
        (omega arith, (refl, (refl, (refl, tt)))) n a b,
    decompose_ref-joined (codes "runtime") name (arch_or codec arch) branch refl
        (omega arith, (refl, (refl, (refl, (refl, (refl, (refl, (refl, tt)))))))) n a b,
  )
