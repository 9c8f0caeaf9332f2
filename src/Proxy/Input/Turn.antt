-- ===== src/Proxy/Input/Turn.antt =====
-- The loop of side_in_cb of dbus-proxy/xdg-app-proxy.c, one turn after the other.
use mathlib.Core.Option
use xdg_app.Prelude.{
  Bool, Bytes, List, Option, [], false, if◌then◌else◌, leb, none, not, some, take, true, ℕ, ◌++◌,
  ◌-◌, ◌==◌, ◌∷◌,
}
use xdg_app.Proxy.Input.{
  Received, Slot, buffer_read, choose_buffer, got_buffer_from_side, in_handshake, slot_header,
  store_buffer,
}
use xdg_app.Proxy.Message.{Platform}
use xdg_app.Proxy.State.{Buffer, Client, End, buffer_new, get_side, set_side, side_closed, zeros}

-- buffer_new with an old buffer, which loses its control messages; no result is a failed
-- assertion.
unfoldable pub buffer_grow : ℕ → Buffer → Option Buffer
buffer_grow required old =
    if leb old.size required
    then some (record (buffer_new required) {
      pos = old.pos;
      control_messages = old.control_messages;
      bytes = take old.size old.bytes ++ zeros (required - old.size);
    })
    else none

-- The header buffer is full: make room for the message.
unfoldable pub got_header : Platform → End → Client → Buffer → Option Client
unfolding buffer_grow side_closed
got_header pf e c buffer = elim (pf.bytes_needed (take buffer.size buffer.bytes)) [
  | none ↦ some (side_closed e c)
  | some required ↦
      Option.map
        (λ grown.
          set_side e
            (record (get_side e c) {
              header_buffer = record buffer { control_messages = [] };
              current_read_buffer = some grown;
            })
            c)
        (buffer_grow required buffer)
]

-- The next message starts with the header buffer.
abbrev pub expect_header : End → Client → Client
expect_header e c =
    let side = get_side e c in
    set_side e
      (record side {
        header_buffer = record side.header_buffer { pos = 0 };
        current_read_buffer = none;
      })
      c

-- `buffer->pos == buffer->size`
unfoldable pub got_full : Platform → End → Slot → Client → Buffer → Option Client
unfolding got_header got_buffer_from_side
got_full pf e slot_header c buffer = got_header pf e c buffer
got_full pf e _ c buffer = Option.map (expect_header e) (got_buffer_from_side pf e c buffer)

-- What follows a read that succeeded.
unfoldable pub after_read : Platform → Bytes → End → Slot → Client → Buffer → Option Client
unfolding in_handshake got_full
after_read pf fields e slot c buffer =
    if not c.authenticated
    then in_handshake pf fields e c buffer
    else (let c' = store_buffer e slot buffer c in
        if buffer.pos == buffer.size then got_full pf e slot c' buffer else some c')

-- One turn of the loop: the client, and whether the loop goes on.
unfoldable pub in_turn : Platform → Bytes → End → Received → Client → Option (Client × Bool)
unfolding choose_buffer buffer_read after_read
in_turn pf fields e r c =
    let (slot, buffer) = choose_buffer e c in
    let (c', buffer', res) = buffer_read e r c buffer in
    if res
    then Option.map (λ c''. (c'', true)) (after_read pf fields e slot c' buffer')
    else some (c', false)

-- The loop, for what the socket answers in turn; a turn that takes data left over does not ask
-- it. After that the socket would block.
unfoldable pub in_loop : Platform → Bytes → End → List Received → Client → Option Client
unfolding in_turn
in_loop pf fields e [] c = some c
in_loop pf fields e (r ∷ rs) c = elim (get_side e c).closed [
  | true ↦ some c
  | false ↦ elim (in_turn pf fields e r c) [
    | none ↦ none
    | some t ↦ elim t.1 [ true ↦ in_loop pf fields e rs t.0 | false ↦ some t.0 ]
  ]
]

abbrev pub in_finish : End → Client → Client
in_finish e c =
    let side = get_side e c in
    if side.closed then set_side e (record side { in_source = false }) c else c

unfoldable pub side_in_cb : Platform → Bytes → End → List Received → Client → Option Client
unfolding in_loop
side_in_cb pf fields e script c = Option.map (in_finish e) (in_loop pf fields e script c)
