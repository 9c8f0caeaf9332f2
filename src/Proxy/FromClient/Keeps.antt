-- ===== src/Proxy/FromClient/Keeps.antt =====
-- A message of the client, the records of the proxy and the policies
-- (got_buffer_from_client of dbus-proxy/xdg-app-proxy.c).
use xdg_app.Prelude.{
  Bytes, Option, ap, arith, bytes_eq, direct_eq, if_both, if◌then◌else◌, inl, inr, is_some, leb,
  none, refl, replace, some, true, ℕ, ◌&&◌, ◌∙◌, ◌≡◌, ◌⊎◌,
}
use xdg_app.Proxy.FromClient.{
  Route, expect_reply, filter_from_client, is_expect_hello, is_expect_none, is_hello, route,
  route_deny, route_error, route_filter_owner, route_hide, route_pass, route_refuse, route_validate,
  send_route, send_to_bus,
}
use xdg_app.Proxy.Handler.{
  BusHandler, get_dbus_method_handler, handle_deny, handle_filter_get_owner_reply,
  handle_filter_has_owner_reply, handle_filter_name_list_reply, handle_hide, handle_pass,
  handle_validate_own, handle_validate_see, handle_validate_talk,
}
use xdg_app.Proxy.Header.{Header}
use xdg_app.Proxy.Message.{DBusMessage, Platform}
use xdg_app.Proxy.NameOps.Counts.{queue_initial_name_ops-Queues}
use xdg_app.Proxy.NameOps.Records.{queue_initial_name_ops-IsConsistent}
use xdg_app.Proxy.Names.{validate_arg0_name}
use xdg_app.Proxy.Policy.{see}
use xdg_app.Proxy.Replies.{
  client_message_generates_reply, get_bool_reply_for_roundtrip, get_error_for_header,
  get_error_for_roundtrip,
}
use xdg_app.Proxy.State.{
  Buffer, Client, ExpectedReplyType, client_end, expect_hello, expect_list_names, expect_none,
  expect_normal, expect_rewrite, queue_outgoing_buffer,
}
use xdg_app.Proxy.State.Closing.{side_closed-IsConsistent, side_closed-records}
use xdg_app.Proxy.State.Consistent.{
  IsConsistent, IsConsistent-queue, IsConsistent-rewrite, IsConsistent-same, NeedsNone,
}

-- The route changed nothing and waits for a reply that needs no record, or it put on record how
-- the reply to its Ping will be rewritten.
abbrev Prepares : Client → Header → Route → Type 0
Prepares c h r =
    ((r.client ≡ c) × NeedsNone r.expecting)
    ⊎ ((m : DBusMessage) × (r.client
          ≡ record c { rewrite_reply = replace h.serial m c.rewrite_reply })
        × (r.expecting ≡ expect_rewrite)
        × (is_some r.buffer ≡ true))

module _ (pf : Platform) (c : Client) (h : Header) (buffer : Buffer) (expecting : ExpectedReplyType)
    (needs : NeedsNone expecting) where
  route_pass-Prepares :
      (e : ExpectedReplyType) → NeedsNone e → Prepares c h (route_pass c h buffer e)
  unfolding route_pass
  route_pass-Prepares e n =
      let normal : NeedsNone expect_normal = (λ q. cc, λ q. cc) in
      inl (refl, if_both NeedsNone (client_message_generates_reply h && is_expect_none e) normal n)

  route_refuse-Prepares : (error : Bytes) → Prepares c h (route_refuse pf c h expecting error)
  unfolding route_refuse route_error get_error_for_roundtrip
  route_refuse-Prepares error =
      if_both (Prepares c h) (client_message_generates_reply h)
        (inr (get_error_for_header c h error, refl, refl, refl)) (inl (refl, needs))

  route_filter_owner-Prepares :
      (m : DBusMessage) (ping : Buffer)
      → Prepares c h (
          route_filter_owner pf c h buffer expecting
            (record c { rewrite_reply = replace h.serial m c.rewrite_reply }, ping))
  unfolding route_filter_owner
  route_filter_owner-Prepares m ping =
      if_both (Prepares c h) (validate_arg0_name pf c buffer.bytes see).0
        (route_pass-Prepares expecting needs) (inr (m, refl, refl, refl))

  route_validate-Prepares :
      (handler : BusHandler) → Prepares c h (route_validate pf c h buffer expecting handler)
  unfolding route_validate route_hide route_deny
  route_validate-Prepares handler =
      if_both (Prepares c h) _ (route_pass-Prepares expecting needs)
        (if_both (Prepares c h) _ (route_refuse-Prepares _) (route_refuse-Prepares _))

  route-Prepares : (handler : BusHandler) → Prepares c h (route pf c h buffer expecting handler)
  unfolding route route_hide route_deny get_bool_reply_for_roundtrip get_error_for_roundtrip
  route-Prepares handle_filter_has_owner_reply = route_filter_owner-Prepares _ _
  route-Prepares handle_filter_get_owner_reply = route_filter_owner-Prepares _ _
  route-Prepares handle_validate_own = route_validate-Prepares handle_validate_own
  route-Prepares handle_validate_see = route_validate-Prepares handle_validate_see
  route-Prepares handle_validate_talk = route_validate-Prepares handle_validate_talk
  route-Prepares handle_filter_name_list_reply =
      route_pass-Prepares expect_list_names (λ q. cc, λ q. cc)
  route-Prepares handle_pass = route_pass-Prepares expecting needs
  route-Prepares handle_hide = route_refuse-Prepares _
  route-Prepares handle_deny = route_refuse-Prepares _

-- Complete records, and the policies as they were.
abbrev pub Keeps : Client → Client → Type 0
Keeps c c' = IsConsistent c' × (c'.unique_id_policy ≡ c.unique_id_policy)

expect_reply-Keeps :
    (c : Client) (serial : ℕ) (type : ExpectedReplyType)
    → NeedsNone type
    → IsConsistent c
    → Keeps c (expect_reply c serial type)
unfolding expect_reply
expect_reply-Keeps c serial type needs i =
    if_both (Keeps c) (is_expect_none type) (i, refl)
      (IsConsistent-queue c serial type needs i, refl)

pub send_to_bus-Keeps :
    (pf : Platform) (c : Client) (buffer : Buffer) (type : ExpectedReplyType)
    → IsConsistent c
    → Keeps c (send_to_bus pf c buffer type)
unfolding send_to_bus
send_to_bus-Keeps pf c buffer type i =
    let c' = record c { bus_side = queue_outgoing_buffer c.bus_side buffer } in
    let j = IsConsistent-same c c' refl refl refl i in
    if_both (Keeps c) (is_expect_hello type)
      (queue_initial_name_ops-IsConsistent pf c' j, (queue_initial_name_ops-Queues pf c').policies)
      (j, refl)

-- The buffer is sent, for a client on whose record the reply is.
module _ (pf : Platform) (c : Client) (h : Header) (i : IsConsistent c) where
  send-Keeps :
      (d : Client) (type : ExpectedReplyType) (o : Option Buffer)
      → Prepares c h (record { client = d; buffer = o; expecting = type })
      → Keeps c (send_route pf h.serial (record { client = d; buffer = o; expecting = type }))
  unfolding send_route expect_reply
  send-Keeps d type none (inl (same, n)) = (rw same i, rw same refl)
  send-Keeps d type none (inr (m, same, n, there)) = cc
  send-Keeps d type (some b) (inl (same, n)) =
      let d' = expect_reply d h.serial type in
      let (j, e) = expect_reply-Keeps d h.serial type n (rw same i) in
      let (k, e') = send_to_bus-Keeps pf d' b type j in
      (k, e' ∙ (e ∙ ap (λ x. x.unique_id_policy) same))
  send-Keeps d type (some b) (inr (m, same, n, there)) =
      let d' = expect_reply d h.serial type in
      let j : IsConsistent d' = rw (same, n) (IsConsistent-rewrite c h.serial i m) in
      let (k, e') = send_to_bus-Keeps pf d' b type j in (k, e' ∙ rw (same, n) refl)

-- The handler is picked for a client whose other fields stay.
handler-client :
    (c : Client) (h : Header)
    → (get_dbus_method_handler c h).0
      ≡ record c { bus_side = (get_dbus_method_handler c h).0.bus_side }
unfolding get_dbus_method_handler
handler-client c h = ground arith

NeedsNone-first : (h : Header) → NeedsNone (if is_hello h then expect_hello else expect_none)
NeedsNone-first h =
    let hello : NeedsNone expect_hello = (λ q. cc, λ q. cc) in
    let other : NeedsNone expect_none = (λ q. cc, λ q. cc) in
    if_both NeedsNone (is_hello h) hello other

-- A message of the client, handled by a client whose records are complete, leaves them complete,
-- and leaves the policy of every unique id as it was.
pub filter_from_client-Keeps :
    (pf : Platform) (c : Client) (h : Header) (buffer : Buffer)
    → IsConsistent c
    → Keeps c (filter_from_client pf c h buffer)
unfolding filter_from_client
filter_from_client-Keeps pf c h buffer i =
    let c' = record c {
      last_serial = h.serial;
      hello_serial = if is_hello h then h.serial else c.hello_serial;
    } in
    let expecting = if is_hello h then expect_hello else expect_none in
    let (c'', handler) = get_dbus_method_handler c' h in
    let r = route pf c'' h buffer expecting handler in
    let e = handler-client c' h in
    let j =
      IsConsistent-same c c'' (ap (λ x. x.client_side.expected_replies) e)
        (ap (λ x. x.rewrite_reply) e) (ap (λ x. x.get_owner_reply) e) i in
    let (k, p) =
      send-Keeps pf c'' h j r.client r.expecting r.buffer
        (route-Prepares pf c'' h buffer expecting (NeedsNone-first h) handler) in
    if_both (Keeps c) (leb h.serial c.last_serial)
      (side_closed-IsConsistent client_end c i, (side_closed-records client_end c).2)
      (k, p ∙ ap (λ x. x.unique_id_policy) e)
