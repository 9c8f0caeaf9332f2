-- ===== src/Proxy/Message.antt =====
-- GDBusMessage as dbus-proxy/xdg-app-proxy.c uses it, and what GLib and the allocator provide.
use xdg_app.Prelude.{Bool, Bytes, List, Option, get_elem?, none, some, ℕ}
use xdg_app.Proxy.Header.{method_call}

-- A child of the body of a message, as far as the proxy tells types apart.
pub data Arg : Type 0 where
  text : Bytes → Arg
  text_array : List Bytes → Arg
  boolean : Bool → Arg
  other_arg : Arg

-- The value that g_dbus_message_set_body is given: a tuple, as its documentation asks, or another.
pub data Body : Type 0 where
  tuple : List Arg → Body
  plain : Arg → Body

-- The properties that the proxy sets or reads.
pub record DBusMessage : Type 0 where
  pub message_type : ℕ
  pub flags : ℕ
  pub serial : ℕ
  pub reply_serial : Option ℕ
  pub destination : Option Bytes
  pub path : Option Bytes
  pub interface : Option Bytes
  pub member : Option Bytes
  pub error_name : Option Bytes
  pub body : Option Body

-- g_dbus_message_new
abbrev pub new_message : DBusMessage
new_message = record {
  message_type = 0;
  flags = 0;
  serial = 0;
  reply_serial = none;
  destination = none;
  path = none;
  interface = none;
  member = none;
  error_name = none;
  body = none;
}

-- g_dbus_message_new_method_call
abbrev pub new_method_call : Option Bytes → Bytes → Bytes → Bytes → DBusMessage
new_method_call name path interface method = record new_message {
  message_type = method_call;
  destination = name;
  path = some path;
  interface = some interface;
  member = some method;
}

-- What is not code of the program: the codec of GLib (`none` for a failed decoding, and for an
-- invalid header of which no size is known), and what a string inside a freed buffer reads as.
pub record Platform : Type 0 where
  pub from_blob : Bytes → Option DBusMessage
  pub to_blob : DBusMessage → Bytes
  pub bytes_needed : Bytes → Option ℕ
  pub freed : Bytes → Bytes

-- g_variant_get_child_value; the C code expects NULL where there is no such child.
abbrev pub child : Body → ℕ → Option Arg
child (tuple args) i = get_elem? args i
child (plain arg) i = none

abbrev pub as_text : Option Arg → Option Bytes
as_text (some (text s)) = some s
as_text _ = none

abbrev pub as_text_array : Option Arg → Option (List Bytes)
as_text_array (some (text_array s)) = some s
as_text_array _ = none

-- The i-th child of the body of the encoded message.
unfoldable pub body_arg : Platform → Bytes → ℕ → Option Arg
body_arg pf blob i = elim (pf.from_blob blob) [
  | none ↦ none
  | some m ↦ elim m.body [ none ↦ none | some b ↦ child b i ]
]

-- get_arg0_string
unfoldable pub get_arg0_string : Platform → Bytes → Option Bytes
unfolding body_arg
get_arg0_string pf blob = as_text (body_arg pf blob 0)
