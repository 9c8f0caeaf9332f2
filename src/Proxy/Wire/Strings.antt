-- ===== src/Proxy/Wire/Strings.antt =====
-- get_string of dbus-proxy/xdg-app-proxy.c against the encoding of strings in a D-Bus message.
use xdg_app.Prelude.{
  All, Bool, Bool-cases, Bytes, [], ap, append_assoc, arith, drop-length, false, get_elem?,
  get_elem?-append_right, if◌then◌else◌, inl, inr, length, length-append, ltb, refl, some, suc,
  true, zero, ℕ, ◌%◌, ◌++◌, ◌+◌, ◌<◌, ◌∙◌, ◌∷◌, ◌≡◌, ◌≢◌, ◌≤◌,
}
use xdg_app.Proxy.Wire.{
  align_by_4, byte_of, c_string, get_string, guard, invalid, ok, read_uint32, string_at, u32, ◌>>=◌,
}
use xdg_app.Proxy.Wire.Words.{read_uint32-some, word-bytes}

-- A D-Bus string holds no zero byte.
abbrev pub NoNul : Bytes → Type 0
NoNul s = All (λ c. c ≢ 0) s

-- The word before a string, and the string with its zero.
pub encode_word : Bool → ℕ → Bytes
encode_word true n = byte_of n 3 ∷ byte_of n 2 ∷ byte_of n 1 ∷ byte_of n 0 ∷ []
encode_word false n = byte_of n 0 ∷ byte_of n 1 ∷ byte_of n 2 ∷ byte_of n 3 ∷ []

pub encode_string : Bool → Bytes → Bytes
encode_string big_endian s = encode_word big_endian (length s) ++ (s ++ 0 ∷ [])

c_string-NoNul : (s rest : Bytes) → NoNul s → c_string (s ++ 0 ∷ rest) ≡ s
unfolding c_string
c_string-NoNul [] rest h = refl
c_string-NoNul (c ∷ s) rest h = ground (arith, c_string-NoNul s rest h.1)

-- Inside the string there is no zero.
NoNul-get_elem? :
    (s rest : Bytes) (i : ℕ)
    → NoNul s
    → i < length s
    → (c : ℕ) × (get_elem? (s ++ rest) i ≡ some c) × (c ≢ 0)
NoNul-get_elem? [] rest i h l = absurd (omega arith)
NoNul-get_elem? (x ∷ s) rest zero h l = (x, refl, h.0)
NoNul-get_elem? (x ∷ s) rest (suc i) h l = NoNul-get_elem? s rest i h.1 (omega arith)

zero_behind : (s rest : Bytes) → get_elem? (s ++ 0 ∷ rest) (length s) ≡ some 0
zero_behind [] rest = refl
zero_behind (c ∷ s) rest = zero_behind s rest

-- The string that stands behind `before`.
module _ (before s rest : Bytes) (end_offset : ℕ) (small : end_offset ≤ 134217728) where
  string_at_whole :
      NoNul s
      → length before + length s + 1 ≤ end_offset
      → string_at (before ++ (s ++ 0 ∷ rest)) (length before) (length s) end_offset
        ≡ ok (s, length before + length s + 1)
  unfolding string_at
  string_at_whole h fits = ground (
    arith,
    zero_behind s rest,
    get_elem?-append_right before (s ++ 0 ∷ rest) (length s),
    drop-length before (s ++ 0 ∷ rest),
    c_string-NoNul s rest h,
  )

  string_at_cut :
      (len : ℕ)
      → NoNul s
      → len < length s
      → len < 256
      → length before ≤ end_offset
      → string_at (before ++ (s ++ 0 ∷ rest)) (length before) len end_offset ≡ invalid
  unfolding string_at
  string_at_cut len h short byte fits =
      let (c, e, nonzero) = NoNul-get_elem? s (0 ∷ rest) len h short in
      ground (arith, e, nonzero, get_elem?-append_right before (s ++ 0 ∷ rest) len)

four_behind :
    (before rest : Bytes) (i : ℕ)
    → get_elem? (before ++ rest) (length before + i) ≡ get_elem? rest i
four_behind before rest i = get_elem?-append_right before rest i

first_behind : (before rest : Bytes) → get_elem? (before ++ rest) (length before) ≡ get_elem? rest 0
first_behind [] rest = refl
first_behind (c ∷ before) rest = first_behind before rest

-- The parts of get_string, with the parts shut.
get_string_lem :
    (big_endian : Bool) (bytes : Bytes) (offset end_offset : ℕ)
    → get_string big_endian bytes offset end_offset ≡ (
        guard (ltb (u32 (align_by_4 offset + 4)) end_offset) >>= λ _.
        read_uint32 big_endian bytes (align_by_4 offset) >>= λ w.
        string_at bytes (u32 (align_by_4 offset + 4)) (w % 256) end_offset)
unfolding get_string
get_string_lem big_endian bytes offset end_offset = refl

word_behind :
    (big_endian : Bool) (before rest : Bytes) (n : ℕ)
    → n < 4294967296
    → read_uint32 big_endian (before ++ (encode_word big_endian n ++ rest)) (length before) ≡ ok n
unfolding encode_word
word_behind true before rest n h =
    read_uint32-some true _ (length before) _ _ _ _ (first_behind before _) (four_behind before _ 1)
      (four_behind before _ 2) (four_behind before _ 3)
    ∙ ap ok (word-bytes true n h)
word_behind false before rest n h =
    read_uint32-some false _ (length before) _ _ _ _ (first_behind before _)
      (four_behind before _ 1) (four_behind before _ 2) (four_behind before _ 3)
    ∙ ap ok (word-bytes false n h)

length-encode_word : (big_endian : Bool) (n : ℕ) → length (encode_word big_endian n) ≡ 4
unfolding encode_word
length-encode_word true n = refl
length-encode_word false n = refl

align_by_4_self : (n : ℕ) → n % 4 ≡ 0 → n ≤ 134217728 → align_by_4 n ≡ n
unfolding align_by_4
align_by_4_self n h small = omega arith

module _ (big_endian : Bool) (before s rest : Bytes) (end_offset : ℕ) where
  -- The bytes, bracketed for the length word and for the string.
  regroup_word :
      before ++ (encode_string big_endian s ++ rest)
      ≡ before ++ (encode_word big_endian (length s) ++ (s ++ 0 ∷ rest))
  unfolding encode_string
  regroup_word = simp append_assoc

  regroup_string :
      before ++ (encode_string big_endian s ++ rest)
      ≡ (before ++ encode_word big_endian (length s)) ++ (s ++ 0 ∷ rest)
  unfolding encode_string
  regroup_string = simp append_assoc

  length_before : length (before ++ encode_word big_endian (length s)) ≡ length before + 4
  length_before =
      length-append before _ ∙ ap (λ (n : ℕ). length before + n) (length-encode_word big_endian _)

  string_read :
      NoNul s
      → length before + 4 + length s + 1 ≤ end_offset
      → end_offset ≤ 134217728
      → string_at
          (before ++ (encode_string big_endian s ++ rest))
          (length before + 4)
          (length s % 256)
          end_offset
        ≡ (if ltb (length s) 256 then ok (s, length before + 4 + length s + 1) else invalid)
  string_read h fits small =
      rw (regroup_string, ← length_before)
        (elim (Bool-cases (ltb (length s) 256)) [
          | inl short ↦ ground (
            arith,
            length_before,
            string_at_whole (before ++ encode_word big_endian (length s)) s rest end_offset small h,
          )
          | inr long ↦ ground (
            arith,
            length_before,
            string_at_cut (before ++ encode_word big_endian (length s)) s rest end_offset small
                (length s % 256) h,
          )
        ])

  word_read :
      NoNul s
      → length before + 4 + length s + 1 ≤ end_offset
      → end_offset ≤ 134217728
      → read_uint32 big_endian (before ++ (encode_string big_endian s ++ rest)) (length before)
        ≡ ok (length s)
  word_read h fits small =
      rw regroup_word (word_behind big_endian before (s ++ 0 ∷ rest) (length s) (omega arith))

  -- A string without zeros at an aligned offset, all of it before the end of the header fields,
  -- which is at most 128 MiB: one of less
  -- than 256 bytes is read back, with the offset behind its zero; a longer one is refused, since
  -- its length word is cut to the low byte.
  pub get_string-encode_string :
      NoNul s
      → length before % 4 ≡ 0
      → length before + 4 + length s + 1 ≤ end_offset
      → end_offset ≤ 134217728
      → get_string big_endian
          (before ++ (encode_string big_endian s ++ rest))
          (length before)
          end_offset
        ≡ (if ltb (length s) 256 then ok (s, length before + 4 + length s + 1) else invalid)
  get_string-encode_string h aligned fits small =
      rw (get_string_lem, align_by_4_self (length before) aligned (omega arith))
        (ground (arith, word_read h fits small, string_read h fits small))
