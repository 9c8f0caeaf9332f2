-- ===== src/Proxy/State.antt =====
-- The state of one proxied connection: Buffer, ProxySide and XdgAppProxyClient of
-- dbus-proxy/xdg-app-proxy.c, and the routines that only move it.
pub mod Expected
pub mod Consistent
pub mod Closing
use xdg_app.Prelude.{
  Bool, Bytes, List, Option, Table, [], bytes_eq, direct_eq, false, if◌then◌else◌, length, lookup,
  none, remove, replace, some, suc, true, zero, ℕ, ◌++◌, ◌-◌, ◌||◌, ◌∷◌,
}
use xdg_app.Proxy.Message.{DBusMessage, Platform}
use xdg_app.Proxy.Policy.{Policy, Proxy}

pub data ExpectedReplyType : Type 0 where
  expect_none expect_normal expect_hello expect_filter : ExpectedReplyType
  expect_fake_get_name_owner expect_fake_list_names expect_list_names : ExpectedReplyType
  expect_rewrite : ExpectedReplyType

-- A GSocketControlMessage: a GUnixFDMessage with its descriptors, or another.
pub data Control : Type 0 where
  fd_message : List ℕ → Control
  other_control : Control

-- `bytes` is what stands at `data`, at least `size` bytes.
pub record Buffer : Type 0 where
  pub size : ℕ
  pub pos : ℕ
  pub send_credentials : Bool
  pub control_messages : List Control
  pub bytes : Bytes

-- The two sides of a client.
pub data End : Type 0 where
  client_end bus_end : End

-- A source that is attached is `true`. `current_read_buffer` is `none` where it points to the
-- header buffer. `read_shutdown` is the state of the socket after g_socket_shutdown.
pub record ProxySide : Type 0 where
  pub got_first_byte : Bool
  pub closed : Bool
  pub read_shutdown : Bool
  pub in_source : Bool
  pub out_source : Bool
  pub extra_input_data : Option Bytes
  pub current_read_buffer : Option Buffer
  pub header_buffer : Buffer
  pub buffers : List Buffer
  pub control_messages : List Control
  pub expected_replies : Table ℕ ExpectedReplyType

-- `auth_end_offset` is `none` for -1. `refs` counts the references that the sockets hold.
pub record Client : Type 0 where
  pub proxy : Proxy
  pub authenticated : Bool
  pub auth_end_offset : Option ℕ
  pub client_side : ProxySide
  pub bus_side : ProxySide
  pub serial_offset : ℕ
  pub hello_serial : ℕ
  pub last_serial : ℕ
  pub rewrite_reply : Table ℕ DBusMessage
  pub get_owner_reply : Table ℕ Bytes
  pub unique_id_policy : Table Bytes Policy
  pub refs : ℕ

abbrev pub zeros : ℕ → Bytes
zeros zero = []
zeros (suc n) = 0 ∷ zeros n

-- buffer_new
abbrev pub buffer_new : ℕ → Buffer
buffer_new size = record {
  size = size;
  pos = 0;
  send_credentials = false;
  control_messages = [];
  bytes = zeros size;
}

-- init_side
abbrev pub init_side : Bool → ProxySide
init_side is_bus_side = record {
  got_first_byte = is_bus_side;
  closed = false;
  read_shutdown = false;
  in_source = false;
  out_source = false;
  extra_input_data = none;
  current_read_buffer = none;
  header_buffer = buffer_new 16;
  buffers = [];
  control_messages = [];
  expected_replies = [];
}

-- xdg_app_proxy_client_init and xdg_app_proxy_client_new
abbrev pub client_new : Proxy → Client
client_new proxy = record {
  proxy = proxy;
  authenticated = false;
  auth_end_offset = some 2;
  client_side = init_side false;
  bus_side = init_side true;
  serial_offset = 0;
  hello_serial = 0;
  last_serial = 0;
  rewrite_reply = [];
  get_owner_reply = [];
  unique_id_policy = [];
  refs = 1;
}

abbrev pub other_end : End → End
other_end client_end = bus_end
other_end bus_end = client_end

abbrev pub get_side : End → Client → ProxySide
get_side client_end c = c.client_side
get_side bus_end c = c.bus_side

abbrev pub set_side : End → ProxySide → Client → Client
set_side client_end s c = record c { client_side = s }
set_side bus_end s c = record c { bus_side = s }

abbrev pub is_empty {ℓ} : {A : Type ℓ} → List A → Bool
is_empty [] = true
is_empty (x ∷ xs) = false

-- The second half of side_closed, when `e` has just been closed. `refs - 1` stops at 0; a client that
-- has not closed both sides holds a reference.
unfoldable pub close_other : End → Client → Client
close_other e c =
    let other = get_side (other_end e) c in
    if other.closed || is_empty other.buffers
    then (let c' = set_side (other_end e) (record other { closed = true }) c in
        record c' { refs = c'.refs - 1 })
    else set_side (other_end e) (record other { read_shutdown = true }) c

unfoldable pub side_closed : End → Client → Client
unfolding close_other
side_closed e c =
    let side = get_side e c in
    if side.closed then c else close_other e (set_side e (record side { closed = true }) c)

unfoldable pub queue_expected_reply : ProxySide → ℕ → ExpectedReplyType → ProxySide
queue_expected_reply side serial type = record side {
  expected_replies = replace serial type side.expected_replies;
}

abbrev pub or_none : Option ExpectedReplyType → ExpectedReplyType
or_none none = expect_none
or_none (some type) = type

-- The second half of steal_expected_reply, for the type that was looked up.
unfoldable pub forget_expected : ProxySide → ℕ → ExpectedReplyType → ProxySide
forget_expected side serial expect_none = side
forget_expected side serial _ = record side {
  expected_replies = remove serial side.expected_replies;
}

unfoldable pub steal_expected_reply : ProxySide → ℕ → ProxySide × ExpectedReplyType
unfolding forget_expected
steal_expected_reply side serial =
    let type = or_none (lookup serial side.expected_replies) in
    (forget_expected side serial type, type)

unfoldable pub queue_outgoing_buffer : ProxySide → Buffer → ProxySide
queue_outgoing_buffer side buffer = record side {
  out_source = true;
  buffers = side.buffers ++ record buffer { pos = 0 } ∷ [];
}

unfoldable pub start_reading : ProxySide → ProxySide
start_reading side = record side { in_source = true }

unfoldable pub stop_reading : ProxySide → ProxySide
stop_reading side = record side { in_source = false }

unfoldable pub message_to_buffer : Platform → DBusMessage → Buffer
message_to_buffer pf m =
    let blob = pf.to_blob m in record (buffer_new 0) { size = length blob; bytes = blob }
