-- ===== src/Proxy/FromClient/Mediation.antt =====
-- What the proxy lets through to the bus: get_dbus_method_handler and the switch of
-- got_buffer_from_client (dbus-proxy/xdg-app-proxy.c) against the rules.
use xdg_app.Prelude.{
  Bool, Bytes, Option, ap, beq_refl, direct_eq, false, if◌then◌else◌, leb, none, not, refl, some,
  subst, true, ◌&&◌, ◌||◌, ◌∙◌, ◌≡◌,
}
use xdg_app.Proxy.FromClient.{is_expect_none, route}
use xdg_app.Proxy.FromClient.Rules.{
  FitsRule, allows, is_judged_lem, method_handler-FitsRule, rule_allows, rule_of,
}
use xdg_app.Proxy.FromClient.Switch.{
  Follows, route-Follows, route_deny-IsRefusal, route_hide-IsRefusal, route_pass-IsPassed,
}
use xdg_app.Proxy.Handler.{
  BusHandler, call_handler, get_dbus_method_handler, handle_deny, handle_hide, handle_pass,
  is_dbus_method_call, member_handler, reply_handler,
}
use xdg_app.Proxy.Header.{Header}
use xdg_app.Proxy.Message.{Platform}
use xdg_app.Proxy.Names.{client_get_policy}
use xdg_app.Proxy.Policy.{Policy, own, policy_lt, policy_none, rank, see, talk}
use xdg_app.Proxy.State.{Buffer, Client, ExpectedReplyType, expect_none, steal_expected_reply}
use xdg_app.Proxy.State.Expected.{expected, steal_expected_reply_lem}

handler_of_call :
    (c : Client) (h : Header)
    → h.has_reply_serial ≡ false
    → get_dbus_method_handler c h ≡ (c, call_handler c h)
unfolding get_dbus_method_handler
handler_of_call c h no_reply = rw no_reply

handler_of_reply :
    (c : Client) (h : Header)
    → h.has_reply_serial ≡ true
    → get_dbus_method_handler c h ≡ (
      record c { bus_side = (steal_expected_reply c.bus_side h.reply_serial).0 },
      reply_handler (expected c.bus_side h.reply_serial),
    )
unfolding get_dbus_method_handler
handler_of_reply c h reply = rw (reply, (steal_expected_reply_lem c.bus_side h.reply_serial).0)

module _ (pf : Platform) (c : Client) (h : Header) (buffer : Buffer)
    (expecting : ExpectedReplyType) where
  member-FitsRule : (member : Option Bytes) → FitsRule (rule_of member) (member_handler member)
  member-FitsRule none = refl
  member-FitsRule (some method) = method_handler-FitsRule method

  abbrev Ladder : Policy → Bool → BusHandler
  Ladder policy bus =
      if policy_lt policy see
      then handle_hide
      else if policy_lt policy talk
      then handle_deny
      else if not bus
      then handle_pass
      else member_handler h.member

  ladder-Follows :
      (policy : Policy) (bus : Bool)
      → Follows pf c h buffer expecting
          (leb (rank talk) (rank policy)
            && (not bus || rule_allows pf c buffer.bytes (rule_of h.member)))
          (route pf c h buffer expecting (Ladder policy bus))
  unfolding route
  ladder-Follows policy_none bus = (λ e. cc, λ _. route_hide-IsRefusal pf c h buffer expecting)
  ladder-Follows see bus = (λ e. cc, λ _. route_deny-IsRefusal pf c h buffer expecting)
  ladder-Follows talk true = route-Follows pf c h buffer expecting _ _ (member-FitsRule h.member)
  ladder-Follows talk false = (λ _. route_pass-IsPassed pf c h buffer expecting expecting, λ e. cc)
  ladder-Follows own true = route-Follows pf c h buffer expecting _ _ (member-FitsRule h.member)
  ladder-Follows own false = (λ _. route_pass-IsPassed pf c h buffer expecting expecting, λ e. cc)

  -- A message that is no reply passes unchanged exactly if the policy of its destination is TALK or
  -- more, as it is without a destination, and, if it is a method call that names the destination
  -- org.freedesktop.DBus and the interface org.freedesktop.DBus, the method has a rule and its first
  -- argument names something of the policy that the rule asks for. Any other message to the bus, a
  -- call without an interface among them, passes. Otherwise nothing is sent, or a Ping in its place,
  -- and it is put on record that the answer to the Ping is to be replaced by a reply to the serial
  -- that the client used.
  pub call_mediation :
      h.has_reply_serial ≡ false
      → let (c', handler) = get_dbus_method_handler c h in
        (c' ≡ c)
        × Follows pf c h buffer expecting
            (allows pf c h buffer.bytes)
            (route pf c h buffer expecting handler)
  unfolding allows call_handler
  call_mediation no_reply = rw (handler_of_call c h no_reply) (
    refl,
    subst
        (λ b.
          Follows pf c h buffer expecting
            (leb (rank talk) (rank (client_get_policy c h.destination))
              && (not b || rule_allows pf c buffer.bytes (rule_of h.member)))
            (route pf c h buffer expecting
              (Ladder (client_get_policy c h.destination) (is_dbus_method_call h))))
        (is_judged_lem h)
        (ladder-Follows (client_get_policy c h.destination) (is_dbus_method_call h)),
  )

reply-Follows :
    (pf : Platform) (c : Client) (h : Header) (buffer : Buffer) (expecting type : ExpectedReplyType)
    → Follows pf c h buffer expecting
        (not (is_expect_none type))
        (route pf c h buffer expecting (reply_handler type))
unfolding route
reply-Follows pf c h buffer expecting expect_none =
    (λ e. cc, λ _. route_deny-IsRefusal pf c h buffer expecting)
reply-Follows pf c h buffer expecting _ =
    (λ _. route_pass-IsPassed pf c h buffer expecting expecting, λ e. cc)

-- A message with a reply serial passes unchanged, whatever its type, its destination and its
-- member, exactly if a call from the bus with that serial waits for its reply. Either way that
-- serial is not waited for any more.
pub reply_mediation :
    (pf : Platform) (c : Client) (h : Header) (buffer : Buffer) (expecting : ExpectedReplyType)
    → h.has_reply_serial ≡ true
    → let (c', handler) = get_dbus_method_handler c h in
      (expected c'.bus_side h.reply_serial ≡ expect_none)
      × Follows pf c' h buffer expecting
          (not (is_expect_none (expected c.bus_side h.reply_serial)))
          (route pf c' h buffer expecting handler)
reply_mediation pf c h buffer expecting reply =
    let c' = record c { bus_side = (steal_expected_reply c.bus_side h.reply_serial).0 } in
    rw (handler_of_reply c h reply) (
      (steal_expected_reply_lem c.bus_side h.reply_serial).1 h.reply_serial
          ∙ ap (λ b. if b then expect_none else expected c.bus_side h.reply_serial)
              (beq_refl ⦃e = direct_eq⦄ h.reply_serial),
      reply-Follows pf c' h buffer expecting (expected c.bus_side h.reply_serial),
    )
