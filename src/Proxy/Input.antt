-- ===== src/Proxy/Input.antt =====
-- Reading from a socket: buffer_read, got_buffer_from_side and side_in_cb of
-- dbus-proxy/xdg-app-proxy.c.
pub mod Turn
pub mod Handshake
use mathlib.Core.Option
use xdg_app.Prelude.{
  Bool, Bytes, List, Option, [], drop, false, if◌then◌else◌, length, ltb, min, none, not, some,
  take, true, ℕ, ◌++◌, ◌+◌, ◌-◌, ◌∷◌,
}
use xdg_app.Proxy.Auth.{find_auth_end}
use xdg_app.Proxy.FromBus.{got_buffer_from_bus}
use xdg_app.Proxy.FromClient.{got_buffer_from_client}
use xdg_app.Proxy.Message.{Platform}
use xdg_app.Proxy.State.{
  Buffer, Client, Control, End, ProxySide, buffer_new, bus_end, client_end, get_side, set_side,
  side_closed,
}

-- What the socket answers to one call that reads: bytes and control messages, no more bytes than
-- there is room for; no bytes at all at the end of the stream.
pub data Received : Type 0 where
  received : Bytes → List Control → Received
  receive_would_block receive_failed : Received

-- A copy of `bytes` to the position `pos` of a buffer.
abbrev pub write_at : Bytes → ℕ → Bytes → Bytes
write_at old pos bytes = take pos old ++ (bytes ++ drop (pos + length bytes) old)

abbrev pub set_extra : End → Option Bytes → Client → Client
set_extra e extra c = set_side e (record (get_side e c) { extra_input_data = extra }) c

-- The branch of buffer_read for data that is left over.
unfoldable pub read_extra : End → Client → Buffer → Bytes → Client × Buffer
read_extra e c buffer extra =
    let res = min (length extra) (buffer.size - buffer.pos) in
    let buffer' = record buffer {
      pos = buffer.pos + res;
      bytes = write_at buffer.bytes buffer.pos (take res extra);
    } in
    (set_extra e (if ltb res (length extra) then some (drop res extra) else none) c, buffer')

-- The branch for the socket, with the result of buffer_read.
unfoldable pub read_socket : End → Received → Client → Buffer → Client × Buffer × Bool
unfolding side_closed
read_socket e receive_would_block c buffer = (c, buffer, false)
read_socket e receive_failed c buffer = (side_closed e c, buffer, false)
read_socket e (received [] controls) c buffer = (side_closed e c, buffer, false)
read_socket e (received (b ∷ bytes) controls) c buffer =
    let buffer' = record buffer {
      pos = buffer.pos + length (b ∷ bytes);
      bytes = write_at buffer.bytes buffer.pos (b ∷ bytes);
      control_messages = buffer.control_messages ++ controls;
    } in
    (c, buffer', true)

unfoldable pub buffer_read : End → Received → Client → Buffer → Client × Buffer × Bool
unfolding read_extra read_socket
buffer_read e r c buffer = elim (get_side e c).extra_input_data [
  | none ↦ read_socket e r c buffer
  | some extra ↦ (let (c', buffer') = read_extra e c buffer extra in (c', buffer', true))
]

-- Where the buffer of one turn of the loop stands: a new one, the header buffer of the side, or
-- the one that its current_read_buffer points to.
pub data Slot : Type 0 where
  slot_new slot_header slot_current : Slot

abbrev pub current_slot : ProxySide → Option Buffer → Slot × Buffer
current_slot side none = (slot_header, side.header_buffer)
current_slot side (some buffer) = (slot_current, buffer)

-- The choice of the buffer.
unfoldable pub choose_buffer : End → Client → Slot × Buffer
choose_buffer e c =
    let side = get_side e c in
    if not side.got_first_byte
    then (slot_new, buffer_new 1)
    else if not c.authenticated
    then (slot_new, buffer_new 64)
    else current_slot side side.current_read_buffer

-- A write through the pointer to the buffer.
abbrev pub store_buffer : End → Slot → Buffer → Client → Client
store_buffer e slot_new buffer c = c
store_buffer e slot_header buffer c =
    set_side e (record (get_side e c) { header_buffer = buffer }) c
store_buffer e slot_current buffer c =
    set_side e (record (get_side e c) { current_read_buffer = some buffer }) c

unfoldable pub got_buffer_from_side : Platform → End → Client → Buffer → Option Client
unfolding got_buffer_from_client got_buffer_from_bus
got_buffer_from_side pf client_end c buffer = got_buffer_from_client pf c buffer
got_buffer_from_side pf bus_end c buffer = got_buffer_from_bus pf c buffer

-- The client and the buffer after the look for the end, and `found_auth_end`.
abbrev pub cut_buffer : Client → Buffer → Option ℕ → Client × Buffer × Bool
cut_buffer c buffer none = (c, buffer, false)
cut_buffer c buffer (some auth_end) = (
  if ltb 0 (buffer.pos - auth_end)
      then set_extra client_end (some (drop auth_end (take buffer.pos buffer.bytes))) c
      else c,
  record buffer { size = auth_end },
  true,
)

-- The look for the end of the authentication, on the client's side after its first byte.
unfoldable pub look_for_end : Bytes → End → Client → Buffer → Client × Buffer × Bool
unfolding find_auth_end
look_for_end fields bus_end c buffer = (c, buffer, false)
look_for_end fields client_end c buffer =
    let (offset, auth_end) = find_auth_end fields c buffer in
    cut_buffer (record c { auth_end_offset = offset }) buffer auth_end

-- What becomes of a buffer with some bytes of the authentication, before it is passed on.
unfoldable pub handshake : Bytes → End → Client → Buffer → Client × Buffer × Bool
unfolding look_for_end
handshake fields e c buffer =
    let buffer' = record buffer { size = buffer.pos } in
    if not (get_side e c).got_first_byte
    then (
      set_side e (record (get_side e c) { got_first_byte = true }) c,
      record buffer' { send_credentials = true },
      false,
    )
    else look_for_end fields e c buffer'

abbrev pub set_authenticated : Bool → Client → Client
set_authenticated false c = c
set_authenticated true c = record c { authenticated = true }

unfoldable pub in_handshake : Platform → Bytes → End → Client → Buffer → Option Client
unfolding handshake got_buffer_from_side
in_handshake pf fields e c buffer =
    if ltb 0 buffer.pos
    then (let (c', buffer', found_auth_end) = handshake fields e c buffer in
        Option.map (set_authenticated found_auth_end) (got_buffer_from_side pf e c' buffer'))
    else some c
