-- ===== src/Proxy/Handler.antt =====
-- Which treatment a message from the client gets: BusHandler to policy_from_handler of
-- dbus-proxy/xdg-app-proxy.c.
use xdg_app.Prelude.{
  Bool, Bytes, List, Option, [], codes, false, if◌then◌else◌, none, not, opt_eq, some, str_eq, ◌&&◌,
  ◌==◌, ◌||◌, ◌∷◌,
}
use xdg_app.Proxy.Header.{Header, method_call}
use xdg_app.Proxy.Names.{client_get_policy}
use xdg_app.Proxy.Policy.{Policy, own, policy_lt, policy_none, see, talk}
use xdg_app.Proxy.State.{Client, ExpectedReplyType, expect_none, steal_expected_reply}

pub data BusHandler : Type 0 where
  handle_pass handle_deny handle_hide : BusHandler
  handle_filter_name_list_reply handle_filter_has_owner_reply : BusHandler
  handle_filter_get_owner_reply : BusHandler
  handle_validate_own handle_validate_see handle_validate_talk : BusHandler

unfoldable pub is_dbus_method_call : Header → Bool
is_dbus_method_call h =
    h.message_type == method_call
    && opt_eq h.destination (codes "org.freedesktop.DBus")
    && opt_eq h.interface (codes "org.freedesktop.DBus")

-- `strcmp (method, name) == 0` for one of the names.
abbrev pub is_one_of : Bytes → List Bytes → Bool
is_one_of method [] = false
is_one_of method (name ∷ names) = str_eq method name || is_one_of method names

-- The part of get_dbus_method_handler that goes by the name of a method of the bus.
unfoldable pub method_handler : Bytes → BusHandler
method_handler method =
    if is_one_of method
      (codes "Hello" ∷ codes "AddMatch" ∷ codes "RemoveMatch" ∷ codes "GetId" ∷ [])
    then handle_pass
    else if is_one_of method (codes "UpdateActivationEnvironment" ∷ codes "BecomeMonitor" ∷ [])
    then handle_deny
    else if is_one_of method
        (codes "RequestName" ∷ codes "ReleaseName" ∷ codes "ListQueuedOwners" ∷ [])
    then handle_validate_own
    else if is_one_of method (codes "NameHasOwner" ∷ [])
    then handle_filter_has_owner_reply
    else if is_one_of method (codes "GetNameOwner" ∷ [])
    then handle_filter_get_owner_reply
    else if is_one_of method (
        codes "GetConnectionUnixProcessID"
        ∷ codes "GetConnectionCredentials"
        ∷ codes "GetAdtAuditSessionData"
        ∷ codes "GetConnectionSELinuxSecurityContext"
        ∷ codes "GetConnectionUnixUser"
        ∷ [])
    then handle_validate_see
    else if is_one_of method (codes "StartServiceByName" ∷ [])
    then handle_validate_talk
    else if is_one_of method (codes "ListNames" ∷ codes "ListActivatableNames" ∷ [])
    then handle_filter_name_list_reply
    else handle_deny

abbrev pub member_handler : Option Bytes → BusHandler
member_handler none = handle_deny
member_handler (some method) = method_handler method

-- The part of get_dbus_method_handler for messages without a reply serial.
unfoldable pub call_handler : Client → Header → BusHandler
unfolding is_dbus_method_call method_handler
call_handler c h =
    let policy = client_get_policy c h.destination in
    if policy_lt policy see
    then handle_hide
    else if policy_lt policy talk
    then handle_deny
    else if not (is_dbus_method_call h)
    then handle_pass
    else member_handler h.member

abbrev pub reply_handler : ExpectedReplyType → BusHandler
reply_handler expect_none = handle_deny
reply_handler _ = handle_pass

unfoldable pub get_dbus_method_handler : Client → Header → Client × BusHandler
unfolding call_handler steal_expected_reply
get_dbus_method_handler c h =
    if h.has_reply_serial
    then (let (bus_side, expected_reply) = steal_expected_reply c.bus_side h.reply_serial in
        (record c { bus_side = bus_side }, reply_handler expected_reply))
    else (c, call_handler c h)

unfoldable pub policy_from_handler : BusHandler → Policy
policy_from_handler handle_validate_own = own
policy_from_handler handle_validate_talk = talk
policy_from_handler handle_validate_see = see
policy_from_handler _ = policy_none
