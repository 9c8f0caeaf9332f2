-- ===== src/Proxy/FromClient.antt =====
-- got_buffer_from_client of dbus-proxy/xdg-app-proxy.c: a message from the client is passed on,
-- replaced by a Ping whose reply will be rewritten, or dropped.
pub mod Rules
pub mod Switch
pub mod Mediation
pub mod Keeps
pub mod Whole
use mathlib.Core.Option
use xdg_app.Prelude.{
  Bool, Bytes, Option, codes, false, if◌then◌else◌, leb, none, opt_eq, some, true, ℕ, ◌&&◌, ◌||◌,
}
use xdg_app.Proxy.Fds.{update_socket_messages}
use xdg_app.Proxy.Handler.{
  BusHandler, get_dbus_method_handler, handle_deny, handle_filter_get_owner_reply,
  handle_filter_has_owner_reply, handle_filter_name_list_reply, handle_hide, handle_pass,
  handle_validate_own, handle_validate_see, handle_validate_talk, is_dbus_method_call,
  policy_from_handler,
}
use xdg_app.Proxy.Header.{Header, parse_header}
use xdg_app.Proxy.Message.{Platform}
use xdg_app.Proxy.NameOps.{queue_initial_name_ops}
use xdg_app.Proxy.Names.{is_unique, validate_arg0_name}
use xdg_app.Proxy.Policy.{policy_lt, see}
use xdg_app.Proxy.Replies.{
  client_message_generates_reply, get_bool_reply_for_roundtrip, get_error_for_roundtrip, has_flag,
  no_auto_start,
}
use xdg_app.Proxy.State.{
  Buffer, Client, ExpectedReplyType, client_end, expect_hello, expect_list_names, expect_none,
  expect_normal, expect_rewrite, queue_expected_reply, queue_outgoing_buffer, side_closed,
}
use xdg_app.Proxy.Wire.{crash, invalid, ok, out_of_fuel}

-- The local variables of the switch: what is sent (NULL is `none`) and which reply it asks for.
pub record Route : Type 0 where
  pub client : Client
  pub buffer : Option Buffer
  pub expecting : ExpectedReplyType

abbrev pub is_expect_none : ExpectedReplyType → Bool
is_expect_none expect_none = true
is_expect_none _ = false

abbrev pub is_expect_hello : ExpectedReplyType → Bool
is_expect_hello expect_hello = true
is_expect_hello _ = false

-- The label handle_pass.
unfoldable pub route_pass : Client → Header → Buffer → ExpectedReplyType → Route
route_pass c h buffer expecting = record {
  client = c;
  buffer = some buffer;
  expecting =
      if client_message_generates_reply h && is_expect_none expecting
      then expect_normal
      else expecting;
}

-- A Ping in place of the buffer, and the error to answer with.
unfoldable pub route_error : Platform → Client → Header → Bytes → Route
route_error pf c h error =
    let (c', ping) = get_error_for_roundtrip pf c h error in
    record { client = c'; buffer = some ping; expecting = expect_rewrite }

abbrev is_unique_name : Option Bytes → Bool
is_unique_name none = false
is_unique_name (some name) = is_unique name

-- The error of the label handle_hide. The destination is read after its buffer has been freed.
unfoldable pub hide_error : Platform → Header → Bytes
hide_error pf h =
    if is_unique_name (Option.map pf.freed h.destination) || has_flag h.flags no_auto_start
    then codes "org.freedesktop.DBus.Error.NameHasNoOwner"
    else codes "org.freedesktop.DBus.Error.ServiceUnknown"

-- The labels handle_hide and handle_deny.
unfoldable pub route_refuse : Platform → Client → Header → ExpectedReplyType → Bytes → Route
unfolding route_error
route_refuse pf c h expecting error =
    if client_message_generates_reply h
    then route_error pf c h error
    else record { client = c; buffer = none; expecting = expecting }

unfoldable pub route_hide : Platform → Client → Header → ExpectedReplyType → Route
unfolding route_refuse hide_error
route_hide pf c h expecting = route_refuse pf c h expecting (hide_error pf h)

unfoldable pub route_deny : Platform → Client → Header → ExpectedReplyType → Route
unfolding route_refuse
route_deny pf c h expecting =
    route_refuse pf c h expecting (codes "org.freedesktop.DBus.Error.AccessDenied")

-- The cases HANDLE_FILTER_HAS_OWNER_REPLY and HANDLE_FILTER_GET_OWNER_REPLY; `made_up` is what
-- replaces the buffer if the name is not to be seen.
unfoldable pub route_filter_owner :
    Platform → Client → Header → Buffer → ExpectedReplyType → Client × Buffer → Route
unfolding route_pass
route_filter_owner pf c h buffer expecting (c', ping) =
    if (validate_arg0_name pf c buffer.bytes see).0
    then route_pass c h buffer expecting
    else record { client = c'; buffer = some ping; expecting = expect_rewrite }

-- The cases HANDLE_VALIDATE_*.
unfoldable pub route_validate :
    Platform → Client → Header → Buffer → ExpectedReplyType → BusHandler → Route
unfolding route_pass route_hide route_deny
route_validate pf c h buffer expecting handler =
    let (res, name_policy) = validate_arg0_name pf c buffer.bytes (policy_from_handler handler) in
    if res
    then route_pass c h buffer expecting
    else if policy_lt name_policy see
    then route_hide pf c h expecting
    else route_deny pf c h expecting

-- The switch.
unfoldable pub route : Platform → Client → Header → Buffer → ExpectedReplyType → BusHandler → Route
unfolding route_filter_owner route_validate
route pf c h buffer expecting handle_filter_has_owner_reply =
    route_filter_owner pf c h buffer expecting (get_bool_reply_for_roundtrip pf c h false)
route pf c h buffer expecting handle_filter_get_owner_reply =
    route_filter_owner pf c h buffer expecting
      (get_error_for_roundtrip pf c h (codes "org.freedesktop.DBus.Error.NameHasNoOwner"))
route pf c h buffer expecting handle_validate_own =
    route_validate pf c h buffer expecting handle_validate_own
route pf c h buffer expecting handle_validate_see =
    route_validate pf c h buffer expecting handle_validate_see
route pf c h buffer expecting handle_validate_talk =
    route_validate pf c h buffer expecting handle_validate_talk
route pf c h buffer expecting handle_filter_name_list_reply =
    route_pass c h buffer expect_list_names
route pf c h buffer expecting handle_pass = route_pass c h buffer expecting
route pf c h buffer expecting handle_hide = route_hide pf c h expecting
route pf c h buffer expecting handle_deny = route_deny pf c h expecting

-- `if (buffer != NULL && expecting_reply != EXPECTED_REPLY_NONE)`, for a buffer that is there.
unfoldable pub expect_reply : Client → ℕ → ExpectedReplyType → Client
unfolding queue_expected_reply
expect_reply c serial expecting =
    if is_expect_none expecting
    then c
    else record c { client_side = queue_expected_reply c.client_side serial expecting }

-- The last steps, for a buffer that is there.
unfoldable pub send_to_bus : Platform → Client → Buffer → ExpectedReplyType → Client
unfolding queue_outgoing_buffer queue_initial_name_ops
send_to_bus pf c buffer expecting =
    let c' = record c { bus_side = queue_outgoing_buffer c.bus_side buffer } in
    if is_expect_hello expecting then queue_initial_name_ops pf c' else c'

unfoldable pub send_route : Platform → ℕ → Route → Client
unfolding expect_reply send_to_bus
send_route pf serial r = elim r.buffer [
  | none ↦ r.client
  | some buffer ↦ send_to_bus pf (expect_reply r.client serial r.expecting) buffer r.expecting
]

abbrev pub is_hello : Header → Bool
is_hello h = is_dbus_method_call h && opt_eq h.member (codes "Hello")

-- From the check of the serial on.
unfoldable pub filter_from_client : Platform → Client → Header → Buffer → Client
unfolding side_closed get_dbus_method_handler is_dbus_method_call send_route
filter_from_client pf c h buffer =
    if leb h.serial c.last_serial
    then side_closed client_end c
    else (let c' = record c {
      last_serial = h.serial;
      hello_serial = if is_hello h then h.serial else c.hello_serial;
    } in
        let expecting = if is_hello h then expect_hello else expect_none in
        let (c'', handler) = get_dbus_method_handler c' h in
        send_route pf h.serial (route pf c'' h buffer expecting handler))

abbrev pub after_fds : Platform → Header → Client × Option Buffer → Client
after_fds pf h (c, none) = c
after_fds pf h (c, some buffer) = filter_from_client pf c h buffer

-- `none` is a crash of the process.
unfoldable pub got_buffer_from_client : Platform → Client → Buffer → Option Client
unfolding filter_from_client update_socket_messages send_to_bus side_closed parse_header
got_buffer_from_client pf c buffer =
    if c.authenticated && c.proxy.filter
    then elim (parse_header buffer.bytes buffer.size c.serial_offset 0 0) [
      | ok (h, bytes) ↦
          some (
            after_fds pf h
              (update_socket_messages client_end c (record buffer { bytes = bytes }) h))
      | invalid ↦ some (side_closed client_end c)
      | crash ↦ none
      | out_of_fuel ↦ none
    ]
    else some (send_to_bus pf c buffer expect_none)
