-- ===== src/Proxy/NameOps.antt =====
-- The messages that the proxy makes up after Hello to learn who owns the names of its policy:
-- queue_fake_message to queue_wildcard_initial_name_ops of dbus-proxy/xdg-app-proxy.c.
pub mod Records
pub mod Counts
use xdg_app.Prelude.{
  Bytes, List, Option, Table, [], bytes_eq, codes, direct_eq, if◌then◌else◌, none, not, replace,
  some, str_eq, ◌&&◌, ◌++◌, ◌+◌, ◌==◌, ◌∷◌,
}
use xdg_app.Proxy.Header.{Header, method_return}
use xdg_app.Proxy.Message.{
  Arg, DBusMessage, Platform, as_text_array, body_arg, new_method_call, text, tuple,
}
use xdg_app.Proxy.Names.{is_unique}
use xdg_app.Proxy.Policy.{Policy, get_wildcard_policy, policy_lt, policy_none}
use xdg_app.Proxy.State.{
  Client, ExpectedReplyType, expect_fake_get_name_owner, expect_fake_list_names, expect_filter,
  is_empty, message_to_buffer, queue_expected_reply, queue_outgoing_buffer, stop_reading,
}
use xdg_app.Proxy.Wire.{u32}

-- The new last serial is the serial of the message.
unfoldable pub queue_fake_message : Platform → Client → DBusMessage → ExpectedReplyType → Client
unfolding message_to_buffer queue_outgoing_buffer queue_expected_reply
queue_fake_message pf c message reply_type =
    let last_serial = u32 (c.last_serial + 1) in
    let buffer = message_to_buffer pf (record message { serial = last_serial }) in
    record c {
      last_serial = last_serial;
      serial_offset = u32 (c.serial_offset + 1);
      bus_side = queue_outgoing_buffer c.bus_side buffer;
      client_side = queue_expected_reply c.client_side last_serial reply_type;
    }

-- A call of a method of the bus with one argument.
abbrev pub bus_call : Bytes → List Arg → DBusMessage
bus_call method args =
    record (new_method_call (some (codes "org.freedesktop.DBus")) (codes "/")
      (codes "org.freedesktop.DBus") method) { body = some (tuple args) }

abbrev match_prefix : Bytes
match_prefix =
    codes
      "type='signal',sender='org.freedesktop.DBus',interface='org.freedesktop.DBus',member='NameOwnerChanged',"

-- The match rule for a name, by the key `arg0` or `arg0namespace`.
unfoldable pub owner_match : Bytes → Bytes → Bytes
owner_match key name = match_prefix ++ (key ++ (codes "='" ++ (name ++ codes "'")))

-- The fake GetNameOwner for a name, and the note of what it asked for.
unfoldable pub queue_get_name_owner : Platform → Client → Bytes → Client
unfolding queue_fake_message
queue_get_name_owner pf c name =
    let c' =
      queue_fake_message pf c (bus_call (codes "GetNameOwner") (text name ∷ []))
        expect_fake_get_name_owner in
    record c' { get_owner_reply = replace c'.last_serial name c'.get_owner_reply }

unfoldable pub queue_add_match : Platform → Client → Bytes → Client
unfolding queue_fake_message
queue_add_match pf c rule =
    queue_fake_message pf c (bus_call (codes "AddMatch") (text rule ∷ [])) expect_filter

-- The body of the loop over the table of exact names.
unfoldable pub queue_name : Platform → Client → Bytes → Client
unfolding owner_match queue_get_name_owner queue_add_match
queue_name pf c name =
    if str_eq name (codes "org.freedesktop.DBus")
    then c
    else queue_get_name_owner pf (queue_add_match pf c (owner_match (codes "arg0") name)) name

unfoldable pub queue_names : Platform → Client → Table Bytes Policy → Client
unfolding queue_name
queue_names pf c [] = c
queue_names pf c ((name, policy) ∷ names) = queue_names pf (queue_name pf c name) names

-- The loop over the table of wildcards.
unfoldable pub queue_wildcards : Platform → Client → Table Bytes Policy → Client
unfolding owner_match queue_add_match
queue_wildcards pf c [] = c
queue_wildcards pf c ((name, policy) ∷ names) =
    queue_wildcards pf (queue_add_match pf c (owner_match (codes "arg0namespace") name)) names

-- The last step, if there are wildcards: list all names, and read no more from the client.
unfoldable pub queue_list_names : Platform → Client → Client
unfolding queue_fake_message stop_reading
queue_list_names pf c =
    let c' = queue_fake_message pf c (bus_call (codes "ListNames") []) expect_fake_list_names in
    record c' { client_side = stop_reading c'.client_side }

unfoldable pub queue_initial_name_ops : Platform → Client → Client
unfolding queue_names queue_wildcards queue_list_names
queue_initial_name_ops pf c =
    let c' = queue_wildcards pf (queue_names pf c c.proxy.policy) c.proxy.wildcard_policy in
    if is_empty c.proxy.wildcard_policy then c' else queue_list_names pf c'

-- The body of the loop of queue_wildcard_initial_name_ops over the names in the reply.
unfoldable pub queue_wildcard_name : Platform → Client → Bytes → Client
unfolding queue_get_name_owner
queue_wildcard_name pf c name =
    if not (is_unique name) && policy_lt policy_none (get_wildcard_policy c.proxy name)
    then queue_get_name_owner pf c name
    else c

unfoldable pub queue_wildcard_names : Platform → Client → List Bytes → Client
unfolding queue_wildcard_name
queue_wildcard_names pf c [] = c
queue_wildcard_names pf c (name ∷ names) =
    queue_wildcard_names pf (queue_wildcard_name pf c name) names

abbrev pub names_or_nil : Option (List Bytes) → List Bytes
names_or_nil none = []
names_or_nil (some names) = names

unfoldable pub queue_wildcard_initial_name_ops : Platform → Client → Header → Bytes → Client
unfolding queue_wildcard_names body_arg
queue_wildcard_initial_name_ops pf c h blob =
    if h.message_type == method_return
    then queue_wildcard_names pf c (names_or_nil (as_text_array (body_arg pf blob 0)))
    else c
