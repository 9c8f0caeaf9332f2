-- ===== src/Proxy/Replies.antt =====
-- Made-up replies and the Ping that stands in for a refused call: client_message_generates_reply
-- to get_bool_reply_for_roundtrip of dbus-proxy/xdg-app-proxy.c.
use xdg_app.Prelude.{
  Bool, Bytes, [], bytes_eq, codes, direct_eq, false, if◌then◌else◌, none, not, replace, some, ℕ,
  ◌%◌, ◌+◌, ◌-◌, ◌/◌, ◌==◌, ◌∷◌,
}
use xdg_app.Proxy.Header.{Header, message_error, method_call, method_return}
use xdg_app.Proxy.Message.{
  DBusMessage, Platform, boolean, new_message, new_method_call, plain, text, tuple,
}
use xdg_app.Proxy.State.{Buffer, Client, message_to_buffer}
use xdg_app.Proxy.Wire.{u32}

-- `(flags & bit) != 0` for the bit of value `bit`.
abbrev pub has_flag : ℕ → ℕ → Bool
has_flag flags bit = flags / bit % 2 == 1

-- G_DBUS_MESSAGE_FLAGS_*
abbrev pub no_reply_expected : ℕ
no_reply_expected = 1

abbrev pub no_auto_start : ℕ
no_auto_start = 2

unfoldable pub client_message_generates_reply : Header → Bool
client_message_generates_reply h =
    if h.message_type == method_call then not (has_flag h.flags no_reply_expected) else false

-- The serial that the client gave to the message with this header.
abbrev pub client_reply_serial : Client → Header → ℕ
client_reply_serial c h = u32 (h.serial + 4294967296 - c.serial_offset)

unfoldable pub get_error_for_header : Client → Header → Bytes → DBusMessage
get_error_for_header c h error = record new_message {
  message_type = message_error;
  flags = no_reply_expected;
  reply_serial = some (client_reply_serial c h);
  error_name = some error;
  body = some (tuple (text error ∷ []));
}

-- The body is the Boolean itself, in no tuple.
unfoldable pub get_bool_reply_for_header : Client → Header → Bool → DBusMessage
get_bool_reply_for_header c h val = record new_message {
  message_type = method_return;
  flags = no_reply_expected;
  reply_serial = some (client_reply_serial c h);
  body = some (plain (boolean val));
}

-- The message that get_ping_buffer_for_header encodes.
unfoldable pub ping_for_header : Header → DBusMessage
ping_for_header h =
    record (new_method_call none (codes "/") (codes "org.freedesktop.DBus.Peer") (codes "Ping")) {
      serial = h.serial;
      flags = h.flags;
    }

unfoldable pub get_ping_buffer_for_header : Platform → Header → Buffer
unfolding ping_for_header message_to_buffer
get_ping_buffer_for_header pf h = message_to_buffer pf (ping_for_header h)

abbrev add_rewrite : Client → ℕ → DBusMessage → Client
add_rewrite c serial reply = record c { rewrite_reply = replace serial reply c.rewrite_reply }

unfoldable pub get_error_for_roundtrip : Platform → Client → Header → Bytes → Client × Buffer
unfolding get_error_for_header
get_error_for_roundtrip pf c h error_name =
    (add_rewrite c h.serial (get_error_for_header c h error_name), get_ping_buffer_for_header pf h)

unfoldable pub get_bool_reply_for_roundtrip : Platform → Client → Header → Bool → Client × Buffer
unfolding get_bool_reply_for_header
get_bool_reply_for_roundtrip pf c h val =
    (add_rewrite c h.serial (get_bool_reply_for_header c h val), get_ping_buffer_for_header pf h)
