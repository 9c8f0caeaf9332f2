-- ===== src/Proxy/Output.antt =====
-- Writing to a socket: buffer_write and side_out_cb of dbus-proxy/xdg-app-proxy.c.
pub mod Writes
pub mod Conserves
use mathlib.Core.Option
use xdg_app.Prelude.{
  Bool, Bytes, List, Option, [], drop, false, if◌then◌else◌, min, none, some, take, true, ℕ, ◌&&◌,
  ◌++◌, ◌+◌, ◌-◌, ◌==◌, ◌∷◌,
}
use xdg_app.Proxy.State.{Buffer, Client, End, get_side, is_empty, other_end, set_side, side_closed}

-- What the socket answers to one call that writes: it takes at most so many bytes, and never more
-- than it is given.
pub data Sent : Type 0 where
  sent : ℕ → Sent
  send_would_block send_failed : Sent

-- The locals of the loop, and the bytes that the socket has taken. For credentials that is the
-- NUL byte of g_unix_connection_send_credentials.
pub record Written : Type 0 where
  pub client : Client
  pub buffer : Buffer
  pub success : Bool
  pub output : Bytes

-- The part of buffer_write for credentials.
unfoldable pub write_credentials : End → Sent → Client → Buffer → Option Written
unfolding side_closed
write_credentials e r c buffer =
    if buffer.size == 1
    then some (elim r [
      | sent n ↦ record {
        client = c;
        buffer = record buffer { pos = 1 };
        success = true;
        output = 0 ∷ [];
      }
      | send_would_block ↦ record { client = c; buffer = buffer; success = false; output = [] }
      | send_failed ↦ record {
        client = side_closed e c;
        buffer = buffer;
        success = false;
        output = [];
      }
    ])
    else none

-- The part for data.
unfoldable pub write_data : End → Sent → Client → Buffer → Written
unfolding side_closed
write_data e send_would_block c buffer = record {
  client = c;
  buffer = buffer;
  success = false;
  output = [];
}
write_data e send_failed c buffer = record {
  client = side_closed e c;
  buffer = buffer;
  success = false;
  output = [];
}
write_data e (sent n) c buffer =
    let res = min n (buffer.size - buffer.pos) in
    if res == 0
    then record { client = side_closed e c; buffer = buffer; success = false; output = [] }
    else record {
      client = c;
      buffer = record buffer { control_messages = []; pos = buffer.pos + res };
      success = true;
      output = take res (drop buffer.pos buffer.bytes);
    }

-- buffer_write; `unix` is G_IS_UNIX_CONNECTION of the connection. A failed assertion is `none`.
unfoldable pub buffer_write : Bool → End → Sent → Client → Buffer → Option Written
unfolding write_credentials write_data
buffer_write unix e r c buffer =
    if buffer.send_credentials && unix
    then write_credentials e r c buffer
    else some (write_data e r c buffer)

abbrev pub set_buffers : End → List Buffer → Client → Client
set_buffers e buffers c = set_side e (record (get_side e c) { buffers = buffers }) c

-- The head of the list after it was written: it goes when all of it is.
abbrev pub pop_written : Buffer → List Buffer → List Buffer
pop_written b rest = if b.pos == b.size then rest else b ∷ rest

-- The loop of side_out_cb, for what the socket answers in turn, and a socket that takes no more
-- after that.
unfoldable pub out_loop : Bool → End → List Sent → Client → Option (Client × Bytes)
unfolding buffer_write
out_loop unix e [] c = some (c, [])
out_loop unix e (r ∷ rs) c = elim (get_side e c).buffers [
  | [] ↦ some (c, [])
  | b ∷ rest ↦ elim (buffer_write unix e r c b) [
    | none ↦ none
    | some w ↦ elim w.success [
      | true ↦
          Option.map (λ o. (o.0, w.output ++ o.1))
            (out_loop unix e rs (set_buffers e (pop_written w.buffer rest) w.client))
      | false ↦ some (set_buffers e (w.buffer ∷ rest) w.client, w.output)
    ]
  ]
]

-- The end of side_out_cb, when the loop has ended.
unfoldable pub out_finish : End → Client → Client
unfolding side_closed
out_finish e c =
    if is_empty (get_side e c).buffers
    then (let c' = set_side e (record (get_side e c) { out_source = false }) c in
        if (get_side (other_end e) c).closed then side_closed e c' else c')
    else c

unfoldable pub side_out_cb : Bool → End → List Sent → Client → Option (Client × Bytes)
unfolding out_loop out_finish
side_out_cb unix e script c = Option.map (λ o. (out_finish e o.0, o.1)) (out_loop unix e script c)
