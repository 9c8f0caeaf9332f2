-- ===== src/Proxy/Header/Safety.antt =====
-- The loop of parse_header (dbus-proxy/xdg-app-proxy.c) stays within the buffer, ends, and
-- remembers where the reply serial stands.
use xdg_app.Prelude.{
  Bool, Bool-cases, Bytes, arith, codes, inl, inr, leb, ltb, str_eq, suc, tests, true, zero, ℕ, ◌+◌,
  ◌<◌, ◌≡◌, ◌≤◌,
}
use xdg_app.Proxy.Header.{
  Header, Scan, field_value, header_field, header_fields, signature_field, store_destination,
  store_error_name, store_interface, store_member, store_path, store_reply_serial, store_sender,
  store_unix_fds, string_field, word_field,
}
use xdg_app.Proxy.Wire.{align_by_8, get_signature, get_string, ok, read_byte, read_uint32, u32}
use xdg_app.Proxy.Wire.Ends.{
  Advances, Ends, Ends-bind, Ends-bind_eq, Ends-guard, Ends-imp, Fits, get_signature-Ends,
  get_string-Ends, read_byte-Ends, read_uint32-Ends,
}
use xdg_app.Proxy.Wire.Words.{align_bounds}

-- The reply serial that the loop has found, and where.
abbrev pub FoundAt : Bytes → ℕ → Bool → Header → ℕ → Type 0
FoundAt bytes end_offset big_endian h pos =
    (16 ≤ pos) × (pos + 4 ≤ end_offset) × (read_uint32 big_endian bytes pos ≡ ok h.reply_serial)

-- What holds between two rounds, for the header `fixed` that the loop starts from.
pub record IsScan (bytes : Bytes) (end_offset : ℕ) (fixed : Header) (s : Scan) : Type 0 where
  pub started : 16 ≤ s.offset
  pub in_range : s.offset ≤ end_offset
  pub same_order : s.header.big_endian ≡ fixed.big_endian
  pub same_type : s.header.message_type ≡ fixed.message_type
  pub same_serial : s.header.serial ≡ fixed.serial
  pub found :
      s.header.has_reply_serial ≡ true
      → FoundAt bytes end_offset fixed.big_endian s.header s.reply_serial_pos

-- A store into one of the string fields.
abbrev KeepsRest : (Header → Bytes → Header) → Type 0
KeepsRest store =
    (h : Header) (str : Bytes)
    → ((store h str).big_endian ≡ h.big_endian)
      × ((store h str).message_type ≡ h.message_type)
      × ((store h str).serial ≡ h.serial)
      × ((store h str).has_reply_serial ≡ h.has_reply_serial)
      × ((store h str).reply_serial ≡ h.reply_serial)

module _ (bytes : Bytes) (end_offset : ℕ) (fixed : Header) (fits : Fits bytes end_offset) where
  -- A step of the loop body from `s`: no step back, and the invariant again.
  abbrev Goes : ℕ → Scan → Type 0
  Goes offset s = IsScan bytes end_offset fixed s × (offset ≤ s.offset)

  string_field-Ends :
      (signature type : Bytes) (s : Scan) (store : Header → Bytes → Header)
      → KeepsRest store
      → IsScan bytes end_offset fixed s
      → Ends (Goes s.offset) (string_field bytes end_offset signature type s store)
  unfolding string_field
  string_field-Ends signature type s store keeps i =
      Ends-guard (Goes s.offset) (str_eq signature type) _ λ _.
        Ends-bind (Advances s.offset end_offset) (Goes s.offset)
          (get_string s.header.big_endian bytes s.offset end_offset) _
          (get_string-Ends s.header.big_endian bytes s.offset end_offset fits i.in_range)
          λ (str, offset') moved. ground (arith, keeps s.header str)

  signature_field-Ends :
      (signature : Bytes) (s : Scan)
      → IsScan bytes end_offset fixed s
      → Ends (Goes s.offset) (signature_field bytes end_offset signature s)
  unfolding signature_field
  signature_field-Ends signature s i =
      Ends-guard (Goes s.offset) (str_eq signature (codes "g")) _ λ _.
        Ends-bind (Advances s.offset end_offset) (Goes s.offset)
          (get_signature bytes s.offset end_offset) _
          (get_signature-Ends bytes s.offset end_offset fits) λ (str, offset') moved. ground arith

  reply_serial_field-Ends :
      (s : Scan)
      → IsScan bytes end_offset fixed s
      → Ends (Goes s.offset) (word_field bytes end_offset s store_reply_serial)
  unfolding word_field
  reply_serial_field-Ends s i =
      Ends-guard (Goes s.offset) (leb (u32 (s.offset + 4)) end_offset) _ λ room.
        Ends-bind_eq (λ w. w < 4294967296) (Goes s.offset)
          (read_uint32 s.header.big_endian bytes s.offset) _
          (read_uint32-Ends s.header.big_endian bytes s.offset fits.are_bytes (omega (tests, room)))
          λ val _ e. (
            record {
              started = omega (tests, room);
              in_range = omega (tests, room);
              same_order = i.same_order;
              same_type = i.same_type;
              same_serial = i.same_serial;
              found = λ _. (i.started, omega (tests, room), rw i.same_order at e);
            },
            omega (tests, room),
          )

  unix_fds_field-Ends :
      (s : Scan)
      → IsScan bytes end_offset fixed s
      → Ends (Goes s.offset) (word_field bytes end_offset s store_unix_fds)
  unfolding word_field
  unix_fds_field-Ends s i =
      Ends-guard (Goes s.offset) (leb (u32 (s.offset + 4)) end_offset) _ λ room.
        Ends-bind (λ w. w < 4294967296) (Goes s.offset)
          (read_uint32 s.header.big_endian bytes s.offset) _
          (read_uint32-Ends s.header.big_endian bytes s.offset fits.are_bytes (omega (tests, room)))
          λ val _. (
            record {
              started = omega (tests, room);
              in_range = omega (tests, room);
              same_order = i.same_order;
              same_type = i.same_type;
              same_serial = i.same_serial;
              found = i.found;
            },
            omega (tests, room),
          )

  field_value-Ends :
      (header_type : ℕ) (signature : Bytes) (s : Scan)
      → IsScan bytes end_offset fixed s
      → Ends (Goes s.offset) (field_value header_type signature bytes end_offset s)
  unfolding field_value
  field_value-Ends header_type signature s i =
      let str = λ (type : Bytes) (store : Header → Bytes → Header) (k : KeepsRest store).
        string_field-Ends signature type s store k i in
      ground (
        arith,
        str (codes "o") store_path (λ h x. ground arith),
        str (codes "s") store_interface (λ h x. ground arith),
        str (codes "s") store_member (λ h x. ground arith),
        str (codes "s") store_error_name (λ h x. ground arith),
        str (codes "s") store_destination (λ h x. ground arith),
        str (codes "s") store_sender (λ h x. ground arith),
        reply_serial_field-Ends s i,
        unix_fds_field-Ends s i,
        signature_field-Ends signature s i,
      )

  -- A round starts at a place before the end and makes progress.
  header_field-Ends :
      (s : Scan)
      → IsScan bytes end_offset fixed s
      → Ends
          (λ s'. IsScan bytes end_offset fixed s' × (s.offset < s'.offset))
          (header_field bytes end_offset s)
  unfolding header_field
  header_field-Ends s i =
      let offset = align_by_8 s.offset in
      let aligned = align_bounds s.offset (omega arith) in
      let Q : Scan → Type 0 = λ s'. IsScan bytes end_offset fixed s' × (s.offset < s'.offset) in
      Ends-guard Q (ltb offset end_offset) _ λ room.
        Ends-bind (λ c. c < 256) Q (read_byte bytes offset) _
          (read_byte-Ends bytes offset fits.are_bytes (omega (tests, room, aligned)))
          λ header_type _. Ends-guard Q (ltb (u32 (offset + 1)) end_offset) _ λ room'.
            Ends-bind (Advances (u32 (offset + 1)) end_offset) Q
              (get_signature bytes (u32 (offset + 1)) end_offset) _
              (get_signature-Ends bytes (u32 (offset + 1)) end_offset fits)
              λ (signature, offset') moved.
                Ends-imp (Goes offset') Q
                  (field_value header_type signature bytes end_offset
                    (record s { offset = offset' }))
                  (field_value-Ends header_type signature (record s { offset = offset' })
                    (record {
                      started = omega (tests, room, aligned);
                      in_range = moved.1;
                      same_order = i.same_order;
                      same_type = i.same_type;
                      same_serial = i.same_serial;
                      found = i.found;
                    }))
                  λ s' (i', later). (i', omega (tests, room, aligned))

  -- From a scan that stands between two header fields, with fuel enough to reach the end of the
  -- fields by one byte a turn, the loop ends: it refuses the bytes, or the scan stands between two
  -- fields again, with the type, the byte order and the serial that it started from. It does not
  -- run out of fuel, read outside of the buffer or fail an assertion.
  pub header_fields-Ends :
      (fuel : ℕ) (s : Scan)
      → IsScan bytes end_offset fixed s
      → end_offset < fuel + s.offset
      → Ends (IsScan bytes end_offset fixed) (header_fields fuel bytes end_offset s)
  unfolding header_fields
  header_fields-Ends zero s i enough = absurd (omega (arith, i.in_range))
  header_fields-Ends (suc fuel) s i enough = elim (Bool-cases (ltb s.offset end_offset)) [
    | inl more ↦
        rw (more, header_fields)
          (Ends-bind (λ s'. IsScan bytes end_offset fixed s' × (s.offset < s'.offset))
            (IsScan bytes end_offset fixed) (header_field bytes end_offset s)
            (header_fields fuel bytes end_offset) (header_field-Ends s i)
            λ s' (i', later). header_fields-Ends fuel s' i' (omega arith))
    | inr done ↦ rw (done, header_fields) i
  ]
