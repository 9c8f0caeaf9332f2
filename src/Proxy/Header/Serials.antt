-- ===== src/Proxy/Header/Serials.antt =====
-- What parse_header (dbus-proxy/xdg-app-proxy.c) returns: the bounds of the fields it reads, and
-- the serials it moves.
use xdg_app.Prelude.{
  Bool-cases, Bytes, arith, false, if◌then◌else◌, inl, inr, length, ltb, refl, suc, true, ℕ, ◌&&◌,
  ◌+◌, ◌-◌, ◌<◌, ◌∙◌, ◌≡◌, ◌≤◌,
}
use xdg_app.Proxy.Header.{
  Header, Message, Scan, check_required, fixed_fields, header_fields, parse_header,
  shift_reply_serial, shift_serial,
}
use xdg_app.Proxy.Header.Accepted.{
  Fixed, IsComplete, IsFixed, IsFramed, check_required-Ends, fixed_fields-Ends,
}
use xdg_app.Proxy.Header.Safety.{IsScan, header_fields-Ends}
use xdg_app.Proxy.Wire.{ok, read_uint32, u32}
use xdg_app.Proxy.Wire.Ends.{Ends, Ends-bind}
use xdg_app.Proxy.Wire.Words.{read_uint32-write_uint32, read_uint32-write_uint32_ne}

-- The serial that the client knows a call by, of which the bus replied to `serial`.
abbrev pub client_serial : ℕ → ℕ → ℕ → ℕ
client_serial reply_serial_offset hello_serial serial =
    if ltb 0 reply_serial_offset && ltb (u32 (hello_serial + reply_serial_offset)) serial
    then u32 (serial + 4294967296 - reply_serial_offset)
    else serial

-- Raising the serial: the bytes agree with the header, and what stands behind is as before.
shift_serial_lem :
    (so : ℕ) (h : Header) (bytes : Bytes)
    → 16 ≤ length bytes
    → h.serial < 4294967296
    → read_uint32 h.big_endian bytes 8 ≡ ok h.serial
    → let (h', bytes') = shift_serial so (h, bytes) in
      (h' ≡ record h { serial = u32 (h.serial + so) })
      × (read_uint32 h.big_endian bytes' 8 ≡ ok (u32 (h.serial + so)))
      × (length bytes' ≡ length bytes)
      × ((pos : ℕ)
          → 16 ≤ pos
          → read_uint32 h.big_endian bytes' pos ≡ read_uint32 h.big_endian bytes pos)
unfolding shift_serial
shift_serial_lem so h bytes long range at_8 =
    let val = u32 (h.serial + so) in
    let written = read_uint32-write_uint32 h.big_endian bytes 8 val (omega arith) (omega arith) in
    let apart = λ (pos : ℕ) (behind : 16 ≤ pos).
      read_uint32-write_uint32_ne h.big_endian h.big_endian bytes 8 val pos (omega arith)
        (inr (omega arith)) in
    (
      ground arith,
      ground (arith, written.0, at_8),
      ground (arith, written.1),
      λ pos behind. ground (arith, apart pos behind),
    )

shift_reply_serial_lem :
    (ro hello pos : ℕ) (h : Header) (bytes : Bytes)
    → pos + 4 ≤ length bytes
    → 16 ≤ pos
    → h.has_reply_serial ≡ true
    → read_uint32 h.big_endian bytes pos ≡ ok h.reply_serial
    → let (h', bytes') = shift_reply_serial ro hello pos (h, bytes) in
      (h' ≡ h)
      × (read_uint32 h.big_endian bytes' pos ≡ ok (client_serial ro hello h.reply_serial))
      × (read_uint32 h.big_endian bytes' 8 ≡ read_uint32 h.big_endian bytes 8)
      × (length bytes' ≡ length bytes)
unfolding shift_reply_serial
shift_reply_serial_lem ro hello pos h bytes inside behind replies at_pos =
    let val = u32 (h.reply_serial + 4294967296 - ro) in
    let written = read_uint32-write_uint32 h.big_endian bytes pos val (omega arith) (omega arith) in
    let apart =
      read_uint32-write_uint32_ne h.big_endian h.big_endian bytes pos val 8 (omega arith)
        (inl (omega arith)) in
    (
      ground arith,
      ground (arith, written.0, at_pos),
      ground (arith, apart),
      ground (arith, written.1),
    )

module _ (bytes : Bytes) (size : ℕ) (framed : IsFramed bytes size) where
  -- A header that parse_header returns, with its bytes.
  pub record IsAccepted (so ro hello : ℕ) (h : Header) (bytes' : Bytes) : Type 0 where
    pub complete : IsComplete h
    pub same_length : length bytes' ≡ length bytes
    -- The client's serial is raised by the serial offset, in the header and in the bytes.
    raised :
        (raw : ℕ) × (read_uint32 h.big_endian bytes 8 ≡ ok raw)
        × (h.serial ≡ u32 (raw + so))
        × (read_uint32 h.big_endian bytes' 8 ≡ ok h.serial)
    -- A reply serial behind Hello is lowered by the reply offset in the bytes.
    pub lowered :
        h.has_reply_serial ≡ true
        → (pos : ℕ) × (read_uint32 h.big_endian bytes pos ≡ ok h.reply_serial)
          × (read_uint32 h.big_endian bytes' pos ≡ ok (client_serial ro hello h.reply_serial))

  shift_reply_serial-not_reply :
      (ro hello pos : ℕ) (h : Header) (bytes' : Bytes)
      → h.has_reply_serial ≡ false
      → shift_reply_serial ro hello pos (h, bytes') ≡ (h, bytes')
  unfolding shift_reply_serial
  shift_reply_serial-not_reply ro hello pos h bytes' no_reply = ground arith

  -- The state between the two shifts.
  record IsRaised (so pos : ℕ) (h : Header) (bytes' : Bytes) : Type 0 where
    complete : IsComplete h
    same_length : length bytes' ≡ length bytes
    raised :
        (raw : ℕ) × (read_uint32 h.big_endian bytes 8 ≡ ok raw)
        × (h.serial ≡ u32 (raw + so))
        × (read_uint32 h.big_endian bytes' 8 ≡ ok h.serial)
    found :
        h.has_reply_serial ≡ true
        → (16 ≤ pos)
          × (pos + 4 ≤ length bytes)
          × (read_uint32 h.big_endian bytes pos ≡ ok h.reply_serial)
          × (read_uint32 h.big_endian bytes' pos ≡ ok h.reply_serial)

  IsAccepted-reply :
      (so ro hello pos : ℕ) (h : Header) (bytes' : Bytes)
      → IsRaised so pos h bytes'
      → h.has_reply_serial ≡ true
      → let (h', written) = shift_reply_serial ro hello pos (h, bytes') in
        IsAccepted so ro hello h' written
  IsAccepted-reply so ro hello pos h bytes' r replies =
      let (behind, inside, there, still) = r.found replies in
      let (same, lower, at_8, kept) =
        shift_reply_serial_lem ro hello pos h bytes' (omega (arith, r.same_length)) behind replies
          still in
      rw same (record {
        complete = r.complete;
        same_length = kept ∙ r.same_length;
        raised = (r.raised.0, r.raised.1, r.raised.2, at_8 ∙ r.raised.3);
        lowered = λ _. (pos, there, lower);
      })

  IsAccepted-shift :
      (so ro hello pos : ℕ) (h : Header) (bytes' : Bytes)
      → IsRaised so pos h bytes'
      → let (h', written) = shift_reply_serial ro hello pos (h, bytes') in
        IsAccepted so ro hello h' written
  IsAccepted-shift so ro hello pos h bytes' r = elim (Bool-cases h.has_reply_serial) [
    | inl replies ↦ IsAccepted-reply so ro hello pos h bytes' r replies
    | inr none_there ↦ rw (shift_reply_serial-not_reply ro hello pos h bytes' none_there) (record {
      complete = r.complete;
      same_length = r.same_length;
      raised = r.raised;
      lowered = λ replies. cc;
    })
  ]

  IsRaised-scan :
      (so end_offset : ℕ) (fixed : Header) (s : Scan)
      → IsFixed bytes size framed fixed end_offset
      → IsScan bytes end_offset fixed s
      → IsComplete s.header
      → let (h, bytes') = shift_serial so (s.header, bytes) in
        IsRaised so s.reply_serial_pos h bytes'
  IsRaised-scan so end_offset fixed s f i c =
      let at_8 : read_uint32 s.header.big_endian bytes 8 ≡ ok s.header.serial =
        rw (i.same_order, i.same_serial) f.serial_read in
      let (same, raised, kept, apart) =
        shift_serial_lem so s.header bytes (omega (arith, f.fits, f.after_fixed))
          (omega (arith, i.same_serial, f.serial_range)) at_8 in
      rw same (record {
        complete = record {
          known = c.known;
          call = c.call;
          reply = c.reply;
          named = c.named;
          emitted = c.emitted;
        };
        same_length = kept;
        raised = (s.header.serial, at_8, refl, raised);
        found = λ replies.
            let (behind, inside, there) = i.found replies in
            let there' = rw (← i.same_order) at there in
            (behind, omega (arith, f.fits), there', apart s.reply_serial_pos behind ∙ there');
      })

  abbrev pub Accepted : ℕ → ℕ → ℕ → Message → Type 0
  Accepted so ro hello (h, bytes') = IsAccepted so ro hello h bytes'

  -- On bytes that hold a whole message of at most 128 MiB, parse_header ends without an access
  -- outside of them, without a failed assertion and within its fuel. If it accepts the message, the
  -- header has the fields that its type needs and the bytes keep their number; the serial is that
  -- of the message raised by the serial offset, in the header and in the bytes; and the place of a
  -- reply serial holds the serial that the client knows the call by.
  pub parse_header-Ends :
      (so ro hello : ℕ) → Ends (Accepted so ro hello) (parse_header bytes size so ro hello)
  unfolding parse_header
  parse_header-Ends so ro hello =
      Ends-bind (Fixed bytes size framed) (Accepted so ro hello) (fixed_fields bytes size) _
        (fixed_fields-Ends bytes size framed)
        λ (fixed, end_offset) f.
          let start : Scan = record { header = fixed; reply_serial_pos = 0; offset = 16 } in
          Ends-bind (IsScan bytes end_offset fixed) (Accepted so ro hello)
            (header_fields (suc end_offset) bytes end_offset start) _
            (header_fields-Ends bytes end_offset fixed f.fits (suc end_offset) start
              (record {
                started = omega arith;
                in_range = f.after_fixed;
                same_order = refl;
                same_type = refl;
                same_serial = refl;
                found = λ replies. cc (f.no_reply_yet);
              })
              (omega arith))
            λ s i.
              Ends-bind (λ _. IsComplete s.header) (Accepted so ro hello) (check_required s.header)
                _ (check_required-Ends s.header)
                λ _ c.
                  IsAccepted-shift so ro hello s.reply_serial_pos _ _
                    (IsRaised-scan so end_offset fixed s f i c)
