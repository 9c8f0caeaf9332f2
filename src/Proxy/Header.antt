-- ===== src/Proxy/Header.antt =====
-- Header and parse_header of dbus-proxy/xdg-app-proxy.c.
pub mod Safety
pub mod Accepted
pub mod Serials
use xdg_app.Prelude.{
  Bool, Bytes, Option, codes, false, if◌then◌else◌, leb, ltb, none, not, opt_eq, some, str_eq, suc,
  true, zero, ℕ, ◌&&◌, ◌+◌, ◌-◌, ◌==◌, ◌||◌,
}
use xdg_app.Proxy.Wire.{
  Parsed, align_by_8, g_assert, get_signature, get_string, guard, invalid, ok, out_of_fuel,
  read_byte, read_uint32, u32, write_uint32, ◌>>=◌, ◌>>◌,
}

-- G_DBUS_MESSAGE_TYPE_*
abbrev pub method_call : ℕ
method_call = 1

abbrev pub method_return : ℕ
method_return = 2

abbrev pub message_error : ℕ
message_error = 3

abbrev pub signal : ℕ
signal = 4

-- The strings are pointers into the buffer; NULL is `none`.
pub record Header : Type 0 where
  pub big_endian : Bool
  pub message_type : ℕ
  pub flags : ℕ
  pub length : ℕ
  pub serial : ℕ
  pub path : Option Bytes
  pub interface : Option Bytes
  pub member : Option Bytes
  pub error_name : Option Bytes
  pub destination : Option Bytes
  pub sender : Option Bytes
  pub signature : Option Bytes
  pub has_reply_serial : Bool
  pub reply_serial : ℕ
  pub unix_fds : ℕ

-- memset (header, 0, sizeof (Header))
abbrev pub zero_header : Header
zero_header = record {
  big_endian = false;
  message_type = 0;
  flags = 0;
  length = 0;
  serial = 0;
  path = none;
  interface = none;
  member = none;
  error_name = none;
  destination = none;
  sender = none;
  signature = none;
  has_reply_serial = false;
  reply_serial = 0;
  unix_fds = 0;
}

-- The variables that the loop over the header fields changes.
pub record Scan : Type 0 where
  pub header : Header
  pub reply_serial_pos : ℕ
  pub offset : ℕ

-- The cases of the switch that hold a string of type `type`.
unfoldable pub string_field :
    Bytes → ℕ → Bytes → Bytes → Scan → (Header → Bytes → Header) → Parsed Scan
string_field bytes end_offset signature type s store = do
  guard (str_eq signature type)
  (str, offset) ← get_string s.header.big_endian bytes s.offset end_offset
  ok (record s { header = store s.header str; offset = offset })

-- The case G_DBUS_MESSAGE_HEADER_FIELD_SIGNATURE.
unfoldable pub signature_field : Bytes → ℕ → Bytes → Scan → Parsed Scan
signature_field bytes end_offset signature s = do
  guard (str_eq signature (codes "g"))
  (str, offset) ← get_signature bytes s.offset end_offset
  ok (record s { header = record s.header { signature = some str }; offset = offset })

-- The cases that hold a word. The signature is not looked at.
unfoldable pub word_field : Bytes → ℕ → Scan → (Scan → ℕ → Scan) → Parsed Scan
word_field bytes end_offset s store = do
  guard (leb (u32 (s.offset + 4)) end_offset)
  val ← read_uint32 s.header.big_endian bytes s.offset
  ok (record (store s val) { offset = u32 (s.offset + 4) })

abbrev pub store_path : Header → Bytes → Header
store_path h str = record h { path = some str }

abbrev pub store_interface : Header → Bytes → Header
store_interface h str = record h { interface = some str }

abbrev pub store_member : Header → Bytes → Header
store_member h str = record h { member = some str }

abbrev pub store_error_name : Header → Bytes → Header
store_error_name h str = record h { error_name = some str }

abbrev pub store_destination : Header → Bytes → Header
store_destination h str = record h { destination = some str }

abbrev pub store_sender : Header → Bytes → Header
store_sender h str = record h { sender = some str }

abbrev pub store_reply_serial : Scan → ℕ → Scan
store_reply_serial s val = record s {
  header = record s.header { has_reply_serial = true; reply_serial = val };
  reply_serial_pos = s.offset;
}

abbrev pub store_unix_fds : Scan → ℕ → Scan
store_unix_fds s val = record s { header = record s.header { unix_fds = val } }

-- The switch on the type of a header field.
unfoldable pub field_value : ℕ → Bytes → Bytes → ℕ → Scan → Parsed Scan
unfolding string_field signature_field word_field
field_value header_type signature bytes end_offset s =
    if header_type == 0
    then invalid
    else if header_type == 1
    then string_field bytes end_offset signature (codes "o") s store_path
    else if header_type == 2
    then string_field bytes end_offset signature (codes "s") s store_interface
    else if header_type == 3
    then string_field bytes end_offset signature (codes "s") s store_member
    else if header_type == 4
    then string_field bytes end_offset signature (codes "s") s store_error_name
    else if header_type == 5
    then word_field bytes end_offset s store_reply_serial
    else if header_type == 6
    then string_field bytes end_offset signature (codes "s") s store_destination
    else if header_type == 7
    then string_field bytes end_offset signature (codes "s") s store_sender
    else if header_type == 8
    then signature_field bytes end_offset signature s
    else if header_type == 9
    then word_field bytes end_offset s store_unix_fds
    else invalid

-- One round of the loop.
unfoldable pub header_field : Bytes → ℕ → Scan → Parsed Scan
unfolding field_value
header_field bytes end_offset s = do
  let offset = align_by_8 s.offset
  guard (ltb offset end_offset)
  header_type ← read_byte bytes offset
  guard (ltb (u32 (offset + 1)) end_offset)
  (signature, offset') ← get_signature bytes (u32 (offset + 1)) end_offset
  field_value header_type signature bytes end_offset (record s { offset = offset' })

-- `while (offset < end_offset)`
unfoldable pub header_fields : ℕ → Bytes → ℕ → Scan → Parsed Scan
unfolding header_field
header_fields zero bytes end_offset s = out_of_fuel
header_fields (suc fuel) bytes end_offset s = elim (ltb s.offset end_offset) [
  | false ↦ ok s
  | true ↦ header_field bytes end_offset s >>= header_fields fuel bytes end_offset
]

abbrev pub is_set : Option Bytes → Bool
is_set none = false
is_set (some s) = true

-- The switch on the message type: the fields that each type must have.
unfoldable pub check_required : Header → Parsed (Unit {0})
check_required h =
    if h.message_type == method_call
    then guard (is_set h.path && is_set h.member)
    else if h.message_type == method_return
    then guard h.has_reply_serial
    else if h.message_type == message_error
    then guard (is_set h.error_name && h.has_reply_serial)
    else if h.message_type == signal
    then (do
      guard (is_set h.path && is_set h.interface && is_set h.member)
      guard (
          not (
            opt_eq h.path (codes "/org/freedesktop/DBus/Local")
            || opt_eq h.interface (codes "org.freedesktop.DBus.Local"))))
    else invalid

-- `header->serial += serial_offset`, also in the bytes.
abbrev pub Message : Type 0
Message = Header × Bytes

unfoldable pub shift_serial : ℕ → Message → Message
shift_serial serial_offset (h, bytes) =
    let serial = u32 (h.serial + serial_offset) in
    if ltb 0 serial_offset
    then (record h { serial = serial }, write_uint32 h.big_endian bytes 8 serial)
    else (h, bytes)

-- The reply serial is lowered in the bytes only: the header keeps the serial that the bus used.
unfoldable pub shift_reply_serial : ℕ → ℕ → ℕ → Message → Message
shift_reply_serial reply_serial_offset hello_serial pos (h, bytes) =
    if ltb 0 reply_serial_offset
      && h.has_reply_serial
      && ltb (u32 (hello_serial + reply_serial_offset)) h.reply_serial
    then (
      h,
      write_uint32 h.big_endian bytes pos (u32 (h.reply_serial + 4294967296 - reply_serial_offset)),
    )
    else (h, bytes)

unfoldable pub byte_order : ℕ → Parsed Bool
byte_order c = if c == b'B' then ok true else if c == b'l' then ok false else invalid

-- The words of the fixed fields: the header that the loop starts from, and the end of the fields.
unfoldable pub fixed_words : Bytes → ℕ → Bool → ℕ → ℕ → Parsed (Header × ℕ)
unfolding read_uint32 align_by_8
fixed_words bytes size big_endian message_type flags = do
  length ← read_uint32 big_endian bytes 4
  serial ← read_uint32 big_endian bytes 8
  guard (not (serial == 0))
  array_len ← read_uint32 big_endian bytes 12
  let header_len = align_by_8 (u32 (16 + array_len))
  g_assert (leb header_len size)
  guard (leb header_len size)
  ok (
    record zero_header {
      big_endian = big_endian;
      message_type = message_type;
      flags = flags;
      length = length;
      serial = serial;
    },
    u32 (16 + array_len),
  )

-- The part of parse_header before the loop.
unfoldable pub fixed_fields : Bytes → ℕ → Parsed (Header × ℕ)
unfolding byte_order fixed_words
fixed_fields bytes size = do
  guard (leb 16 size)
  version ← read_byte bytes 3
  guard (version == 1)
  order ← read_byte bytes 0
  big_endian ← byte_order order
  message_type ← read_byte bytes 1
  flags ← read_byte bytes 2
  fixed_words bytes size big_endian message_type flags

-- Each round of the loop consumes at least one byte before the end, so `end_offset` rounds and
-- the last test are enough.
unfoldable pub parse_header : Bytes → ℕ → ℕ → ℕ → ℕ → Parsed Message
unfolding fixed_fields header_fields check_required shift_serial shift_reply_serial
parse_header bytes size serial_offset reply_serial_offset hello_serial = do
  (header, end_offset) ← fixed_fields bytes size
  s ←
      header_fields (suc end_offset) bytes end_offset
        (record { header = header; reply_serial_pos = 0; offset = 16 })
  check_required s.header
  ok (
      shift_reply_serial reply_serial_offset hello_serial s.reply_serial_pos
        (shift_serial serial_offset (s.header, bytes)))
