-- ===== src/Utils/Tests.antt =====
-- Names at work.
use xdg_app.Prelude.{
  All, Bytes, List, [], ap, arith, codes, if◌then◌else◌, none, refl, true, ℕ, ◌++◌, ◌==◌, ◌↔◌, ◌∙◌,
  ◌∷◌, ◌≡◌,
}
use xdg_app.Utils.{
  is_valid_initial_name_character, is_valid_name, is_valid_name_character, name_loop,
}
use xdg_app.Utils.Elements.{IsName, is_valid_name_iff}
use xdg_app.Utils.Refs.{
  RefCodec, branch_loop, build_app_ref, build_runtime_ref, decompose_ref, is_valid_branch,
  is_valid_branch_character, is_valid_initial_branch_character, ref_parts,
}
use xdg_app.Utils.Refs.RoundTrip.{
  IsPart, JoinsAndSplits, NoSlash, decompose_ref-build_app_ref, joined,
}

-- `a.b.c`
abbrev test_name : Bytes
test_name = 97 ∷ 46 ∷ 98 ∷ 46 ∷ 99 ∷ []

is_valid_name_iff_example : (is_valid_name test_name ≡ true) ↔ IsName test_name
is_valid_name_iff_example = is_valid_name_iff test_name

-- Splitting at slashes.
abbrev onto : ℕ → List Bytes → List Bytes
onto c [] = (c ∷ []) ∷ []
onto c (p ∷ parts) = (c ∷ p) ∷ parts

abbrev split_slashes : Bytes → List Bytes
split_slashes [] = [] ∷ []
split_slashes (c ∷ s) = let rest = split_slashes s in if c == b'/' then [] ∷ rest else onto c rest

split_slashes-part : (p : Bytes) → All NoSlash p → split_slashes p ≡ p ∷ []
split_slashes-part [] all = refl
split_slashes-part (c ∷ p) all = rw (all.0, split_slashes-part p all.1) refl

split_slashes-front :
    (p s : Bytes) → All NoSlash p → split_slashes (p ++ b'/' ∷ s) ≡ p ∷ split_slashes s
split_slashes-front [] s all = refl
split_slashes-front (c ∷ p) s all = rw (all.0, split_slashes-front p s all.1) refl

split_slashes-joined :
    (p : Bytes) (parts : List Bytes)
    → All IsPart (p ∷ parts)
    → split_slashes (joined (p ∷ parts)) ≡ p ∷ parts
split_slashes-joined p [] all = split_slashes-part p all.0.1
split_slashes-joined p (q ∷ parts) all =
    split_slashes-front p (joined (q ∷ parts)) all.0.1
    ∙ ap (λ k. p ∷ k) (split_slashes-joined q parts all.1)

abbrev test_codec : RefCodec
test_codec = record { strsplit = split_slashes; build_filename = joined; get_arch = 120 ∷ [] }

test_codec-JoinsAndSplits : JoinsAndSplits test_codec
test_codec-JoinsAndSplits = record { joins = λ parts all. refl; splits = split_slashes-joined }

-- `1.0`
abbrev test_branch : Bytes
test_branch = 49 ∷ 46 ∷ 48 ∷ []

decompose_ref-build_app_ref_example :
    (decompose_ref test_codec (build_app_ref test_codec test_name test_branch none)
      ≡ ref_parts (codes "app" ∷ test_name ∷ (120 ∷ []) ∷ test_branch ∷ []))
    × (decompose_ref test_codec (build_runtime_ref test_codec test_name test_branch none)
        ≡ ref_parts (codes "runtime" ∷ test_name ∷ (120 ∷ []) ∷ test_branch ∷ []))
unfolding is_valid_name name_loop is_valid_name_character is_valid_initial_name_character
    is_valid_branch branch_loop is_valid_branch_character is_valid_initial_branch_character
decompose_ref-build_app_ref_example =
    decompose_ref-build_app_ref test_codec test_codec-JoinsAndSplits test_name test_branch none refl
      refl (omega arith, (refl, tt))
