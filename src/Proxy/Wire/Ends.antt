-- ===== src/Proxy/Wire/Ends.antt =====
-- Postconditions of routines over foreign bytes, with the rule for a chain of steps, and the
-- bounds that get_signature and get_string of dbus-proxy/xdg-app-proxy.c keep.
use xdg_app.Prelude.{
  All, Bool, Bytes, [], arith, false, get_elem?, get_elem?-lt, leb, length, ltb, refl, some, suc,
  tests, true, zero, ℕ, ◌%◌, ◌+◌, ◌<◌, ◌==◌, ◌∷◌, ◌≡◌, ◌≤◌,
}
use xdg_app.Proxy.Wire.{
  Parsed, align_by_4, crash, get_signature, get_string, guard, invalid, ok, out_of_fuel, read_byte,
  read_uint32, string_at, u32, ◌>>=◌, ◌>>◌,
}

-- The routine refuses the bytes or returns a value of which `P` holds: no access out of bounds,
-- no failed assertion, and the fuel was enough.
abbrev pub Ends {ℓ} : {A : Type ℓ} → (A → Type 0) → Parsed A → Type 0
Ends P (ok a) = P a
Ends P invalid = Unit
Ends P crash = ⊥
Ends P out_of_fuel = ⊥

pub Ends-bind {ℓ κ} :
    {A : Type ℓ} {B : Type κ} (P : A → Type 0) (Q : B → Type 0) (r : Parsed A) (next : A → Parsed B)
    → Ends P r
    → ((a : A) → P a → Ends Q (next a))
    → Ends Q (r >>= next)
Ends-bind P Q (ok a) next h k = k a h
Ends-bind P Q invalid next h k = tt
Ends-bind P Q crash next h k = h
Ends-bind P Q out_of_fuel next h k = h

-- The same, where the rest uses what the first step returned.
pub Ends-bind_eq {ℓ κ} :
    {A : Type ℓ} {B : Type κ} (P : A → Type 0) (Q : B → Type 0) (r : Parsed A) (next : A → Parsed B)
    → Ends P r
    → ((a : A) → P a → r ≡ ok a → Ends Q (next a))
    → Ends Q (r >>= next)
Ends-bind_eq P Q (ok a) next h k = k a h refl
Ends-bind_eq P Q invalid next h k = tt
Ends-bind_eq P Q crash next h k = h
Ends-bind_eq P Q out_of_fuel next h k = h

pub Ends-imp {ℓ} :
    {A : Type ℓ} (P Q : A → Type 0) (r : Parsed A) → Ends P r → ((a : A) → P a → Q a) → Ends Q r
Ends-imp P Q (ok a) h k = k a h
Ends-imp P Q invalid h k = tt
Ends-imp P Q crash h k = h
Ends-imp P Q out_of_fuel h k = h

pub Ends-guard {ℓ} :
    {B : Type ℓ} (Q : B → Type 0) (test : Bool) (r : Parsed B)
    → (test ≡ true → Ends Q r)
    → Ends Q (guard test >> r)
Ends-guard Q true r k = k refl
Ends-guard Q false r k = tt

-- What the bytes of a buffer are.
abbrev pub AreBytes : Bytes → Type 0
AreBytes = All (λ c. c < 256)

AreBytes-get_elem? :
    (bytes : Bytes) (i : ℕ) {c : ℕ} → AreBytes bytes → get_elem? bytes i ≡ some c → c < 256
AreBytes-get_elem? [] i h e = cc
AreBytes-get_elem? (x ∷ bytes) zero h e = ground arith
AreBytes-get_elem? (x ∷ bytes) (suc i) h e = AreBytes-get_elem? bytes i h.1 e

pub read_byte-Ends :
    (bytes : Bytes) (i : ℕ)
    → AreBytes bytes
    → i < length bytes
    → Ends (λ c. c < 256) (read_byte bytes i)
unfolding read_byte
read_byte-Ends bytes i b h =
    let (c, e) = get_elem?-lt bytes i h in rw (e, Ends) (AreBytes-get_elem? bytes i b e)

pub read_uint32-Ends :
    (big_endian : Bool) (bytes : Bytes) (i : ℕ)
    → AreBytes bytes
    → i + 3 < length bytes
    → Ends (λ w. w < 4294967296) (read_uint32 big_endian bytes i)
unfolding read_uint32
read_uint32-Ends big_endian bytes i b h = ground (
  arith,
  read_byte-Ends bytes i b,
  read_byte-Ends bytes (i + 1) b,
  read_byte-Ends bytes (i + 2) b,
  read_byte-Ends bytes (i + 3) b,
)

-- The end of the header fields lies within the bytes, far from where offsets wrap.
pub record Fits (bytes : Bytes) (end_offset : ℕ) : Type 0 where
  pub are_bytes : AreBytes bytes
  pub within : end_offset ≤ length bytes
  pub small : end_offset ≤ 134217728

-- A step forward that stays before the end.
abbrev pub Advances : ℕ → ℕ → Bytes × ℕ → Type 0
Advances offset end_offset (str, offset') = (offset < offset') × (offset' ≤ end_offset)

string_at-Ends :
    (bytes : Bytes) (offset len end_offset : ℕ)
    → Fits bytes end_offset
    → offset ≤ end_offset
    → len < 256
    → Ends (Advances offset end_offset) (string_at bytes offset len end_offset)
unfolding string_at
string_at-Ends bytes offset len end_offset f h l =
    Ends-guard (Advances offset end_offset) (leb (u32 (offset + len + 1)) end_offset) _ λ fits.
      Ends-bind (λ c. c < 256) (Advances offset end_offset) (read_byte bytes (u32 (offset + len))) _
        (read_byte-Ends bytes (u32 (offset + len)) f.are_bytes (omega (tests, fits)))
        λ nul _. Ends-guard (Advances offset end_offset) (nul == 0) _ λ _. omega (tests, fits)

-- The same, counted from an earlier offset.
string_at-Ends-after :
    (bytes : Bytes) (before offset len end_offset : ℕ)
    → Fits bytes end_offset
    → before ≤ offset
    → offset ≤ end_offset
    → len < 256
    → Ends (Advances before end_offset) (string_at bytes offset len end_offset)
string_at-Ends-after bytes before offset len end_offset f b h l =
    ground (arith, string_at-Ends bytes offset len end_offset f h l)

pub get_signature-Ends :
    (bytes : Bytes) (offset end_offset : ℕ)
    → Fits bytes end_offset
    → Ends (Advances offset end_offset) (get_signature bytes offset end_offset)
unfolding get_signature
get_signature-Ends bytes offset end_offset f =
    Ends-guard (Advances offset end_offset) (ltb offset end_offset) _ λ room.
      Ends-bind (λ c. c < 256) (Advances offset end_offset) (read_byte bytes offset) _
        (read_byte-Ends bytes offset f.are_bytes (omega (tests, room)))
        λ len short.
          string_at-Ends-after bytes offset (u32 (offset + 1)) len end_offset f
            (omega (tests, room)) (omega (tests, room)) short

pub get_string-Ends :
    (big_endian : Bool) (bytes : Bytes) (offset end_offset : ℕ)
    → Fits bytes end_offset
    → offset ≤ end_offset
    → Ends (Advances offset end_offset) (get_string big_endian bytes offset end_offset)
unfolding get_string
get_string-Ends big_endian bytes offset end_offset f h =
    let start = align_by_4 offset in
    Ends-guard (Advances offset end_offset) (ltb (u32 (start + 4)) end_offset) _ λ room.
      Ends-bind (λ w. w < 4294967296) (Advances offset end_offset)
        (read_uint32 big_endian bytes start) _
        (read_uint32-Ends big_endian bytes start f.are_bytes (omega (tests, room)))
        λ w _.
          string_at-Ends-after bytes offset (u32 (start + 4)) (w % 256) end_offset f
            (omega (tests, room)) (omega (tests, room)) (omega arith)
