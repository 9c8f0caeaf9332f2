-- ===== src/Proxy/Header/Accepted.antt =====
-- The fixed fields and the required fields in parse_header (dbus-proxy/xdg-app-proxy.c).
use xdg_app.Prelude.{
  Bool, Bytes, arith, codes, false, leb, length, not, opt_eq_iff, refl, some, tests, true, ℕ, ◌*◌,
  ◌+◌, ◌/◌, ◌<◌, ◌==◌, ◌≡◌, ◌≢◌, ◌≤◌, ◌⊎◌,
}
use xdg_app.Proxy.Header.{
  Header, byte_order, check_required, fixed_fields, fixed_words, is_set, message_error, method_call,
  method_return, signal,
}
use xdg_app.Proxy.Wire.{align_by_8, ok, read_byte, read_uint32, u32}
use xdg_app.Proxy.Wire.Ends.{
  AreBytes, Ends, Ends-bind, Ends-bind_eq, Ends-guard, Fits, read_byte-Ends, read_uint32-Ends,
}

-- The order byte and the length of the header fields fit the size, as g_dbus_message_bytes_needed
-- promises of the size that it returns: at most 128 MiB, and room for the padded header fields.
pub record IsFramed (bytes : Bytes) (size : ℕ) : Type 0 where
  pub are_bytes : AreBytes bytes
  pub whole : size ≡ length bytes
  pub small : size ≤ 134217728
  pub room :
      (c : ℕ) (big_endian : Bool) (array_len : ℕ)
      → read_byte bytes 0 ≡ ok c
      → byte_order c ≡ ok big_endian
      → read_uint32 big_endian bytes 12 ≡ ok array_len
      → 8 * ((16 + array_len + 7) / 8) ≤ size

-- The fields that each type of message must have.
pub record IsComplete (h : Header) : Type 0 where
  pub known : (1 ≤ h.message_type) × (h.message_type ≤ 4)
  pub call : h.message_type ≡ method_call → (is_set h.path ≡ true) × (is_set h.member ≡ true)
  pub reply :
      (h.message_type ≡ method_return) ⊎ (h.message_type ≡ message_error)
      → h.has_reply_serial ≡ true
  pub named : h.message_type ≡ message_error → is_set h.error_name ≡ true
  pub emitted :
      h.message_type ≡ signal
      → (is_set h.path ≡ true)
        × (is_set h.interface ≡ true)
        × (is_set h.member ≡ true)
        × (h.path ≢ some (codes "/org/freedesktop/DBus/Local"))
        × (h.interface ≢ some (codes "org.freedesktop.DBus.Local"))

pub check_required-Ends : (h : Header) → Ends (λ _. IsComplete h) (check_required h)
unfolding check_required
check_required-Ends h = ground (
  arith,
  opt_eq_iff h.path (codes "/org/freedesktop/DBus/Local"),
  opt_eq_iff h.interface (codes "org.freedesktop.DBus.Local"),
)

module _ (bytes : Bytes) (size : ℕ) (framed : IsFramed bytes size) where
  -- What the loop starts from.
  pub record IsFixed (h : Header) (end_offset : ℕ) : Type 0 where
    pub fits : Fits bytes end_offset
    pub after_fixed : 16 ≤ end_offset
    pub no_reply_yet : h.has_reply_serial ≡ false
    pub serial_range : h.serial < 4294967296
    pub serial_read : read_uint32 h.big_endian bytes 8 ≡ ok h.serial

  abbrev pub Fixed : Header × ℕ → Type 0
  Fixed (h, end_offset) = IsFixed h end_offset

  abbrev Byte : ℕ → Type 0
  Byte c = c < 256

  abbrev Word : ℕ → Type 0
  Word w = w < 4294967296

  Byte-at : (i : ℕ) → leb 16 size ≡ true → i < 16 → Ends Byte (read_byte bytes i)
  Byte-at i big h = read_byte-Ends bytes i framed.are_bytes (omega (tests, big, framed.whole))

  Word-at :
      (big_endian : Bool) (i : ℕ)
      → leb 16 size ≡ true
      → i + 3 < 16
      → Ends Word (read_uint32 big_endian bytes i)
  Word-at big_endian i big h =
      read_uint32-Ends big_endian bytes i framed.are_bytes (omega (tests, big, framed.whole))

  byte_order-Ends : (c : ℕ) → Ends (λ _. Unit {0}) (byte_order c)
  unfolding byte_order
  byte_order-Ends c = ground arith

  asserted :
      (array_len : ℕ)
      → 8 * ((16 + array_len + 7) / 8) ≤ size
      → leb (align_by_8 (u32 (16 + array_len))) size ≡ true
  unfolding align_by_8
  asserted array_len h = ground (arith, framed.small)

  fixed_words-Ends :
      (big_endian : Bool) (type flags c : ℕ)
      → leb 16 size ≡ true
      → read_byte bytes 0 ≡ ok c
      → byte_order c ≡ ok big_endian
      → Ends Fixed (fixed_words bytes size big_endian type flags)
  unfolding fixed_words
  fixed_words-Ends big_endian type flags c big at_0 order =
      Ends-bind Word Fixed (read_uint32 big_endian bytes 4) _
        (Word-at big_endian 4 big (omega arith))
        λ length _.
          Ends-bind_eq Word Fixed (read_uint32 big_endian bytes 8) _
            (Word-at big_endian 8 big (omega arith))
            λ serial in_range at_8. Ends-guard Fixed (not (serial == 0)) _ λ _.
              Ends-bind_eq Word Fixed (read_uint32 big_endian bytes 12) _
                (Word-at big_endian 12 big (omega arith))
                λ array_len _ at_12.
                  let room = framed.room c big_endian array_len at_0 order at_12 in
                  rw (asserted array_len room) (record {
                    fits = record {
                      are_bytes = framed.are_bytes;
                      within = omega (arith, framed.whole, framed.small);
                      small = omega (arith, framed.small);
                    };
                    after_fixed = omega (arith, framed.small);
                    no_reply_yet = refl;
                    serial_range = in_range;
                    serial_read = at_8;
                  })

  pub fixed_fields-Ends : Ends Fixed (fixed_fields bytes size)
  unfolding fixed_fields
  fixed_fields-Ends = Ends-guard Fixed (leb 16 size) _ λ big.
      Ends-bind Byte Fixed (read_byte bytes 3) _ (Byte-at 3 big (omega arith)) λ version _.
        Ends-guard Fixed (version == 1) _ λ _.
          Ends-bind_eq Byte Fixed (read_byte bytes 0) _ (Byte-at 0 big (omega arith)) λ c _ at_0.
            Ends-bind_eq (λ _. Unit {0}) Fixed (byte_order c) _ (byte_order-Ends c)
              λ big_endian _ order.
                Ends-bind Byte Fixed (read_byte bytes 1) _ (Byte-at 1 big (omega arith)) λ type _.
                  Ends-bind Byte Fixed (read_byte bytes 2) _ (Byte-at 2 big (omega arith))
                    λ flags _. fixed_words-Ends big_endian type flags c big at_0 order
