-- ===== src/Proxy/FromBus.antt =====
-- got_buffer_from_bus of dbus-proxy/xdg-app-proxy.c: a message from the bus is forwarded,
-- rewritten, or kept from the client.
pub mod Deliver
pub mod Safety
pub mod Mediation
pub mod Whole
pub mod Replay
pub mod Listing
use mathlib.Core.Option
use xdg_app.Prelude.{
  Bool, Bytes, Option, bytes_eq, direct_eq, false, if◌then◌else◌, lookup, none, not, remove, some,
  true, ◌&&◌, ◌==◌, ◌||◌,
}
use xdg_app.Proxy.Fds.{update_socket_messages}
use xdg_app.Proxy.FromClient.{is_expect_none}
use xdg_app.Proxy.Header.{Header, is_set, message_error, method_return, parse_header, signal}
use xdg_app.Proxy.Message.{DBusMessage, Platform, get_arg0_string}
use xdg_app.Proxy.NameOps.{queue_wildcard_initial_name_ops}
use xdg_app.Proxy.Names.{
  client_get_policy, filter_names_list, is_unique, message_is_name_owner_changed,
  should_filter_name_owner_changed, update_unique_id_policy, update_unique_id_policy_from_name,
}
use xdg_app.Proxy.Policy.{get_policy, policy_lt, policy_none, see, talk}
use xdg_app.Proxy.Replies.{client_message_generates_reply}
use xdg_app.Proxy.State.{
  Buffer, Client, ExpectedReplyType, bus_end, expect_fake_get_name_owner, expect_fake_list_names,
  expect_filter, expect_hello, expect_list_names, expect_none, expect_normal, expect_rewrite,
  message_to_buffer, queue_expected_reply, queue_outgoing_buffer, side_closed, start_reading,
  steal_expected_reply,
}
use xdg_app.Proxy.Wire.{crash, invalid, ok, out_of_fuel}

-- The local variables: what is forwarded (NULL is `none`), and whether the buffer that the header
-- points into has not been freed.
pub record Delivery : Type 0 where
  pub client : Client
  pub buffer : Option Buffer
  pub live : Bool

abbrev pub drop_buffer : Client → Delivery
drop_buffer c = record { client = c; buffer = none; live = false }

-- A string of the header, when it is read.
abbrev pub header_text : Platform → Bool → Option Bytes → Option Bytes
header_text pf true s = s
header_text pf false s = Option.map pf.freed s

-- The case EXPECTED_REPLY_REWRITE, for the entry of the table. No entry is a crash.
unfoldable pub deliver_rewritten : Platform → Client → Header → Option DBusMessage → Option Delivery
unfolding message_to_buffer
deliver_rewritten pf c h none = none
deliver_rewritten pf c h (some rewritten) = some (record {
  client = record c { rewrite_reply = remove h.reply_serial c.rewrite_reply };
  buffer = some (message_to_buffer pf (record rewritten { serial = h.serial }));
  live = false;
})

-- The case EXPECTED_REPLY_HELLO of a method return, for the first argument of the message. A
-- NULL key of a hash table of strings is a crash.
unfoldable pub deliver_hello : Client → Buffer → Option Bytes → Option Delivery
unfolding update_unique_id_policy
deliver_hello c buffer none = none
deliver_hello c buffer (some my_id) =
    some
      (record { client = update_unique_id_policy c my_id talk; buffer = some buffer; live = true })

-- update_unique_id_policy_from_name with arguments that may be NULL.
unfoldable pub learn_owner : Client → Option Bytes → Option Bytes → Option Client
unfolding update_unique_id_policy_from_name
learn_owner c owner none = none
learn_owner c none (some requested) =
    if policy_lt policy_none (get_policy c.proxy requested) then none else some c
learn_owner c (some owner) (some requested) =
    some (update_unique_id_policy_from_name c owner requested)

-- The case EXPECTED_REPLY_FAKE_GET_NAME_OWNER.
unfoldable pub deliver_owner : Platform → Client → Header → Buffer → Option Delivery
unfolding learn_owner get_arg0_string
deliver_owner pf c h buffer =
    let learned =
      if h.message_type == method_return
      then learn_owner c (get_arg0_string pf buffer.bytes) (lookup h.reply_serial c.get_owner_reply)
      else some c in
    Option.map
      (λ c'. drop_buffer (record c' { get_owner_reply = remove h.reply_serial c'.get_owner_reply }))
      learned

-- The case EXPECTED_REPLY_FAKE_LIST_NAMES.
unfoldable pub deliver_list_names : Platform → Client → Header → Buffer → Delivery
unfolding queue_wildcard_initial_name_ops start_reading
deliver_list_names pf c h buffer =
    let c' = queue_wildcard_initial_name_ops pf c h buffer.bytes in
    drop_buffer (record c' { client_side = start_reading c'.client_side })

-- The switch on the type of the expected reply; its default and EXPECTED_REPLY_NORMAL do nothing.
unfoldable pub deliver_reply :
    Platform → Client → Header → Buffer → ExpectedReplyType → Option Delivery
unfolding deliver_rewritten deliver_hello deliver_owner deliver_list_names filter_names_list
deliver_reply pf c h buffer expect_none =
    some (record { client = c; buffer = some buffer; live = true })
deliver_reply pf c h buffer expect_hello =
    if h.message_type == method_return
    then deliver_hello c buffer (get_arg0_string pf buffer.bytes)
    else deliver_rewritten pf c h (lookup h.reply_serial c.rewrite_reply)
deliver_reply pf c h buffer expect_rewrite =
    deliver_rewritten pf c h (lookup h.reply_serial c.rewrite_reply)
deliver_reply pf c h buffer expect_fake_list_names = some (deliver_list_names pf c h buffer)
deliver_reply pf c h buffer expect_fake_get_name_owner = deliver_owner pf c h buffer
deliver_reply pf c h buffer expect_filter = some (drop_buffer c)
deliver_reply pf c h buffer expect_list_names = some (
    if h.message_type == method_return
    then record { client = c; buffer = filter_names_list pf c buffer.bytes; live = false }
    else record { client = c; buffer = some buffer; live = true })
deliver_reply pf c h buffer expect_normal =
    some (record { client = c; buffer = some buffer; live = true })

-- The branch for what is not a reply.
unfoldable pub deliver_other : Platform → Client → Header → Buffer → Delivery
unfolding message_is_name_owner_changed should_filter_name_owner_changed
deliver_other pf c h buffer =
    if h.message_type == method_return || h.message_type == message_error
    then drop_buffer c
    else if message_is_name_owner_changed h
    then (let (c', filter) = should_filter_name_owner_changed pf c buffer.bytes in
        if filter
        then drop_buffer c'
        else record { client = c'; buffer = some buffer; live = true })
    else record { client = c; buffer = some buffer; live = true }

abbrev pub is_broadcast : Header → Bool
is_broadcast h = h.message_type == signal && not (is_set h.destination)

-- The filter on broadcast signals.
unfoldable pub filter_broadcast : Platform → Header → Delivery → Delivery
unfolding client_get_policy
filter_broadcast pf h d =
    if is_broadcast h
      && policy_lt (client_get_policy d.client (header_text pf d.live h.sender)) talk
    then drop_buffer d.client
    else d

abbrev pub see_sender : Client → Option Bytes → Client
see_sender c none = c
see_sender c (some sender) = if is_unique sender then update_unique_id_policy c sender see else c

-- The last steps, for a buffer that is forwarded.
unfoldable pub forward : Platform → Header → Client → Buffer → Bool → Client
unfolding update_unique_id_policy queue_expected_reply queue_outgoing_buffer
forward pf h c buffer live =
    let c' = see_sender c (header_text pf live h.sender) in
    let bus_side =
      if client_message_generates_reply h
      then queue_expected_reply c'.bus_side h.serial expect_normal
      else c'.bus_side in
    record c' { bus_side = bus_side; client_side = queue_outgoing_buffer c'.client_side buffer }

abbrev pub finish : Platform → Header → Delivery → Client
finish pf h d = elim d.buffer [
  | none ↦ d.client
  | some buffer ↦ forward pf h d.client buffer d.live
]

-- The branch for a reply. A reply that is not expected ends the handling.
unfoldable pub filter_reply : Platform → Client → Header → Buffer → Option Client
unfolding steal_expected_reply deliver_reply filter_broadcast forward
filter_reply pf c h buffer =
    let (client_side, expected_reply) = steal_expected_reply c.client_side h.reply_serial in
    let c' = record c { client_side = client_side } in
    if is_expect_none expected_reply
    then some c'
    else Option.map (λ d. finish pf h (filter_broadcast pf h d))
        (deliver_reply pf c' h buffer expected_reply)

-- From the test for a reply on.
unfoldable pub filter_from_bus : Platform → Client → Header → Buffer → Option Client
unfolding filter_reply deliver_other filter_broadcast forward
filter_from_bus pf c h buffer =
    if h.has_reply_serial
    then filter_reply pf c h buffer
    else some (finish pf h (filter_broadcast pf h (deliver_other pf c h buffer)))

abbrev pub filter_attached : Platform → Header → Client × Option Buffer → Option Client
filter_attached pf h (c, none) = some c
filter_attached pf h (c, some buffer) = filter_from_bus pf c h buffer

-- `none` is a crash of the process.
unfoldable pub got_buffer_from_bus : Platform → Client → Buffer → Option Client
unfolding filter_from_bus update_socket_messages side_closed parse_header queue_outgoing_buffer
got_buffer_from_bus pf c buffer =
    if c.authenticated && c.proxy.filter
    then elim (parse_header buffer.bytes buffer.size 0 c.serial_offset c.hello_serial) [
      | ok (h, bytes) ↦
          filter_attached pf h
            (update_socket_messages bus_end c (record buffer { bytes = bytes }) h)
      | invalid ↦ some (side_closed bus_end c)
      | crash ↦ none
      | out_of_fuel ↦ none
    ]
    else some (record c { client_side = queue_outgoing_buffer c.client_side buffer })
