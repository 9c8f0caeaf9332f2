-- ===== src/Proxy/Wire/Words.antt =====
-- read_uint32, write_uint32 and the alignments of dbus-proxy/xdg-app-proxy.c.
use xdg_app.Prelude.{
  Bool, Bytes, [], ap, arith, false, get_elem?, if◌then◌else◌, length, length-set, refl, set, some,
  suc, true, zero, ℕ, ◌%◌, ◌+◌, ◌<◌, ◌==◌, ◌∙◌, ◌∷◌, ◌≡◌, ◌≤◌, ◌⊎◌,
}
use xdg_app.Proxy.Wire.{
  align_by_4, align_by_8, byte_of, ok, read_byte, read_uint32, word, write_uint32,
}

pub word-bytes :
    (big_endian : Bool) (val : ℕ)
    → val < 4294967296
    → (if big_endian
        then word big_endian (byte_of val 3) (byte_of val 2) (byte_of val 1) (byte_of val 0)
        else word big_endian (byte_of val 0) (byte_of val 1) (byte_of val 2) (byte_of val 3))
      ≡ val
unfolding word
word-bytes true val h = omega arith
word-bytes false val h = omega arith

-- A store, read back anywhere.
get_elem?-set :
    (bytes : Bytes) (i j v : ℕ)
    → i < length bytes
    → get_elem? (set bytes i v) j ≡ (if i == j then some v else get_elem? bytes j)
get_elem?-set [] i j v h = absurd (omega arith)
get_elem?-set (x ∷ bytes) zero zero v h = refl
get_elem?-set (x ∷ bytes) zero (suc j) v h = ground arith
get_elem?-set (x ∷ bytes) (suc i) zero v h = ground arith
get_elem?-set (x ∷ bytes) (suc i) (suc j) v h = ground (arith, get_elem?-set bytes i j v)

-- Four stores in a row, read back anywhere.
set_four :
    (bytes : Bytes) (i a b c d j : ℕ)
    → i + 3 < length bytes
    → get_elem? (set (set (set (set bytes i a) (i + 1) b) (i + 2) c) (i + 3) d) j ≡ (
        if i == j
        then some a
        else if i + 1 == j
        then some b
        else if i + 2 == j
        then some c
        else if i + 3 == j
        then some d
        else get_elem? bytes j)
set_four bytes i a b c d j h =
    let s1 = set bytes i a in
    let s2 = set s1 (i + 1) b in
    let s3 = set s2 (i + 2) c in
    ground (
      arith,
      get_elem?-set bytes i j a,
      get_elem?-set s1 (i + 1) j b,
      get_elem?-set s2 (i + 2) j c,
      get_elem?-set s3 (i + 3) j d,
      length-set bytes i a,
      length-set s1 (i + 1) b,
      length-set s2 (i + 2) c,
    )

length-write_uint32 :
    (big_endian : Bool) (bytes : Bytes) (i val : ℕ)
    → length (write_uint32 big_endian bytes i val) ≡ length bytes
unfolding write_uint32
length-write_uint32 true bytes i val = simp length-set
length-write_uint32 false bytes i val = simp length-set

-- What `write_uint32` leaves behind, at each of the four bytes and elsewhere.
get_elem?-write_uint32_ne :
    (big_endian : Bool) (bytes : Bytes) (i val j : ℕ)
    → i + 3 < length bytes
    → (j < i) ⊎ (i + 3 < j)
    → get_elem? (write_uint32 big_endian bytes i val) j ≡ get_elem? bytes j
unfolding write_uint32
get_elem?-write_uint32_ne true bytes i val j h far =
    rw (set_four bytes i _ _ _ _ j h) (ground arith)
get_elem?-write_uint32_ne false bytes i val j h far =
    rw (set_four bytes i _ _ _ _ j h) (ground arith)

read_byte-some :
    (bytes : Bytes) (i : ℕ) {c : ℕ} → get_elem? bytes i ≡ some c → read_byte bytes i ≡ ok c
unfolding read_byte
read_byte-some bytes i e = rw (e, read_byte)

-- The word of four bytes that are there.
pub read_uint32-some :
    (big_endian : Bool) (bytes : Bytes) (i a b c d : ℕ)
    → get_elem? bytes i ≡ some a
    → get_elem? bytes (i + 1) ≡ some b
    → get_elem? bytes (i + 2) ≡ some c
    → get_elem? bytes (i + 3) ≡ some d
    → read_uint32 big_endian bytes i ≡ ok (word big_endian a b c d)
unfolding read_uint32
read_uint32-some big_endian bytes i a b c d ha hb hc hd = ground (
  arith,
  read_byte-some bytes i ha,
  read_byte-some bytes (i + 1) hb,
  read_byte-some bytes (i + 2) hc,
  read_byte-some bytes (i + 3) hd,
)

read_set_four :
    (big_endian : Bool) (bytes : Bytes) (i a b c d : ℕ)
    → i + 3 < length bytes
    → read_uint32 big_endian (set (set (set (set bytes i a) (i + 1) b) (i + 2) c) (i + 3) d) i
      ≡ ok (word big_endian a b c d)
read_set_four big_endian bytes i a b c d h =
    read_uint32-some big_endian _ i a b c d (rw (set_four bytes i a b c d i h) (ground arith))
      (rw (set_four bytes i a b c d (i + 1) h) (ground arith))
      (rw (set_four bytes i a b c d (i + 2) h) (ground arith))
      (rw (set_four bytes i a b c d (i + 3) h) (ground arith))

read_written :
    (big_endian : Bool) (bytes : Bytes) (i val : ℕ)
    → i + 3 < length bytes
    → val < 4294967296
    → read_uint32 big_endian (write_uint32 big_endian bytes i val) i ≡ ok val
unfolding write_uint32
read_written true bytes i val h v =
    read_set_four true bytes i _ _ _ _ h ∙ ap ok (word-bytes true val v)
read_written false bytes i val h v =
    read_set_four false bytes i _ _ _ _ h ∙ ap ok (word-bytes false val v)

-- A word written within the bytes is read back in either byte order; the length and all other
-- bytes stay.
pub read_uint32-write_uint32 :
    (big_endian : Bool) (bytes : Bytes) (i val : ℕ)
    → i + 3 < length bytes
    → val < 4294967296
    → (read_uint32 big_endian (write_uint32 big_endian bytes i val) i ≡ ok val)
      × (length (write_uint32 big_endian bytes i val) ≡ length bytes)
      × ((j : ℕ)
          → (j < i) ⊎ (i + 3 < j)
          → get_elem? (write_uint32 big_endian bytes i val) j ≡ get_elem? bytes j)
read_uint32-write_uint32 big_endian bytes i val h v = (
  read_written big_endian bytes i val h v,
  length-write_uint32 big_endian bytes i val,
  λ j. get_elem?-write_uint32_ne big_endian bytes i val j h,
)

-- Reading a word that does not overlap a written one.
pub read_uint32-write_uint32_ne :
    (big_endian order : Bool) (bytes : Bytes) (i val j : ℕ)
    → i + 3 < length bytes
    → (j + 3 < i) ⊎ (i + 3 < j)
    → read_uint32 order (write_uint32 big_endian bytes i val) j ≡ read_uint32 order bytes j
unfolding read_uint32
read_uint32-write_uint32_ne big_endian order bytes i val j h apart =
    let same = λ (k : ℕ) (far : (k < i) ⊎ (i + 3 < k)).
      get_elem?-write_uint32_ne big_endian bytes i val k h far in
    ground (
      arith,
      same j (omega arith),
      same (j + 1) (omega arith),
      same (j + 2) (omega arith),
      same (j + 3) (omega arith),
    )

-- Rounding up an offset that does not overflow: a multiple of 8 (of 4), not below the offset and less than 8 (4) above it.
pub align_bounds :
    (offset : ℕ)
    → offset + 7 < 4294967296
    → (align_by_8 offset % 8 ≡ 0)
      × (offset ≤ align_by_8 offset)
      × (align_by_8 offset < offset + 8)
      × (align_by_4 offset % 4 ≡ 0)
      × (offset ≤ align_by_4 offset)
      × (align_by_4 offset < offset + 4)
unfolding align_by_8 align_by_4
align_bounds offset h = omega arith
