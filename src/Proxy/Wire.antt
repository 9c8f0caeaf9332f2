-- ===== src/Proxy/Wire.antt =====
-- Reading and writing the bytes of a D-Bus message: `read_uint32` to `get_string` of
-- dbus-proxy/xdg-app-proxy.c. A read or write outside the allocated bytes is a crash.
pub mod Ends
pub mod Words
pub mod Strings
use xdg_app.Prelude.{
  Bool, Bytes, [], drop, false, get_elem?, if◌then◌else◌, leb, ltb, none, set, some, true, ℕ, ◌%◌,
  ◌*◌, ◌+◌, ◌/◌, ◌==◌, ◌^◌, ◌∷◌,
}

-- How a routine over foreign bytes ends: with a value, with the FALSE or NULL by which it
-- refuses the bytes, or with an access out of bounds or a failed assertion. `out_of_fuel` belongs
-- to the model only: no routine ends so.
pub data Parsed {ℓ} (A : Type ℓ) : Type ℓ where
  ok : A → Parsed A
  invalid : Parsed A
  crash : Parsed A
  out_of_fuel : Parsed A

infixl 5 ◌>>=◌ ◌>>◌
abbrev pub ◌>>=◌ {ℓ κ} : {A : Type ℓ} {B : Type κ} → Parsed A → (A → Parsed B) → Parsed B
ok a >>= f = f a
invalid >>= f = invalid
crash >>= f = crash
out_of_fuel >>= f = out_of_fuel

abbrev pub ◌>>◌ {ℓ} : {B : Type ℓ} → Parsed (Unit {0}) → Parsed B → Parsed B
m >> k = m >>= λ _. k

-- `if (!test) return FALSE;`
abbrev pub guard : Bool → Parsed (Unit {0})
guard true = ok tt
guard false = invalid

-- `g_assert (test);`
abbrev pub g_assert : Bool → Parsed (Unit {0})
g_assert true = ok tt
g_assert false = crash

abbrev pub u32 : ℕ → ℕ
u32 n = n % 4294967296

unfoldable pub read_byte : Bytes → ℕ → Parsed ℕ
read_byte bytes i = elim (get_elem? bytes i) [ some x ↦ ok x | none ↦ crash ]

-- The value of four bytes in either byte order.
unfoldable pub word : Bool → ℕ → ℕ → ℕ → ℕ → ℕ
word big_endian a b c d =
    if big_endian then ((a * 256 + b) * 256 + c) * 256 + d else ((d * 256 + c) * 256 + b) * 256 + a

unfoldable pub read_uint32 : Bool → Bytes → ℕ → Parsed ℕ
unfolding word read_byte
read_uint32 big_endian bytes i = do
  a ← read_byte bytes i
  b ← read_byte bytes (i + 1)
  c ← read_byte bytes (i + 2)
  d ← read_byte bytes (i + 3)
  ok (word big_endian a b c d)

-- The store of the k-th byte of a word of which the least byte is byte 0.
abbrev pub byte_of : ℕ → ℕ → ℕ
byte_of val k = val / 256 ^ k % 256

unfoldable pub write_uint32 : Bool → Bytes → ℕ → ℕ → Bytes
write_uint32 big_endian bytes i val =
    if big_endian
    then set
        (set (set (set bytes i (byte_of val 3)) (i + 1) (byte_of val 2)) (i + 2) (byte_of val 1))
        (i + 3) (byte_of val 0)
    else set
        (set (set (set bytes i (byte_of val 0)) (i + 1) (byte_of val 1)) (i + 2) (byte_of val 2))
        (i + 3) (byte_of val 3)

unfoldable pub align_by_8 : ℕ → ℕ
align_by_8 offset = 8 * (u32 (offset + 7) / 8)

unfoldable pub align_by_4 : ℕ → ℕ
align_by_4 offset = 4 * (u32 (offset + 3) / 4)

-- The C string that starts at the head: up to the first zero byte.
unfoldable pub c_string : Bytes → Bytes
c_string [] = []
c_string (c ∷ s) = let rest = c_string s in if c == 0 then [] else c ∷ rest

-- The string of `len` bytes and a zero that `str` points to, and the offset behind it.
unfoldable pub string_at : Bytes → ℕ → ℕ → ℕ → Parsed (Bytes × ℕ)
unfolding read_byte c_string
string_at bytes offset len end_offset = do
  guard (leb (u32 (offset + len + 1)) end_offset)
  nul ← read_byte bytes (u32 (offset + len))
  guard (nul == 0)
  ok (c_string (drop offset bytes), u32 (offset + len + 1))

unfoldable pub get_signature : Bytes → ℕ → ℕ → Parsed (Bytes × ℕ)
unfolding string_at
get_signature bytes offset end_offset = do
  guard (ltb offset end_offset)
  len ← read_byte bytes offset
  string_at bytes (u32 (offset + 1)) len end_offset

-- `len` is a guint8, so the length word is cut to its low byte.
unfoldable pub get_string : Bool → Bytes → ℕ → ℕ → Parsed (Bytes × ℕ)
unfolding string_at read_uint32 align_by_4
get_string big_endian bytes offset end_offset = do
  let start = align_by_4 offset
  guard (ltb (u32 (start + 4)) end_offset)
  word ← read_uint32 big_endian bytes start
  string_at bytes (u32 (start + 4)) (word % 256) end_offset
