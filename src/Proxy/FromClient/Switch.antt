-- ===== src/Proxy/FromClient/Switch.antt =====
-- What the switch of got_buffer_from_client does for each handler (dbus-proxy/xdg-app-proxy.c).
use xdg_app.Prelude.{
  Bool, Bool-cases, Bytes, Option, bytes_eq, codes, direct_eq, false, if◌then◌else◌, inl, inr, none,
  refl, replace, some, subst, true, ◌≡◌, ◌⊎◌,
}
use xdg_app.Proxy.FromClient.{
  Route, hide_error, route, route_deny, route_filter_owner, route_hide, route_pass, route_refuse,
  route_validate,
}
use xdg_app.Proxy.FromClient.Rules.{FitsRule, arg_has, name_has, rule_allows}
use xdg_app.Proxy.Handler.{
  BusHandler, handle_validate_own, handle_validate_see, handle_validate_talk, policy_from_handler,
}
use xdg_app.Proxy.Header.{Header}
use xdg_app.Proxy.Message.{DBusMessage, Platform, get_arg0_string}
use xdg_app.Proxy.Names.{validate_arg0_name, validate_name}
use xdg_app.Proxy.Policy.{Policy, own, policy_none, see, talk}
use xdg_app.Proxy.Replies.{
  client_message_generates_reply, client_reply_serial, get_bool_reply_for_header,
  get_bool_reply_for_roundtrip, get_error_for_header, get_error_for_roundtrip,
  get_ping_buffer_for_header,
}
use xdg_app.Proxy.State.{Buffer, Client, ExpectedReplyType, expect_list_names, expect_rewrite}

-- The message goes on as it is, and nothing changes but what is expected.
abbrev pub IsPassed : Client → Buffer → Route → Type 0
IsPassed c buffer r = (r.client ≡ c) × (r.buffer ≡ some buffer)

-- Nothing is sent; or a Ping is sent, with the serial and the flags of the message, and the
-- answer to it will be replaced by a reply to the serial that the client used.
abbrev pub IsRefusal : Platform → Client → Header → Route → Type 0
IsRefusal pf c h r =
    ((r.client ≡ c) × (r.buffer ≡ none))
    ⊎ ((m : DBusMessage) × (r.client
          ≡ record c { rewrite_reply = replace h.serial m c.rewrite_reply })
        × (r.buffer ≡ some (get_ping_buffer_for_header pf h))
        × (r.expecting ≡ expect_rewrite)
        × (m.reply_serial ≡ some (client_reply_serial c h)))

module _ (pf : Platform) (c : Client) (h : Header) (buffer : Buffer)
    (expecting : ExpectedReplyType) where
  -- By the test, the message passes or is refused.
  abbrev pub Follows : Bool → Route → Type 0
  Follows test r = (test ≡ true → IsPassed c buffer r) × (test ≡ false → IsRefusal pf c h r)

  route_refuse-IsRefusal : (error : Bytes) → IsRefusal pf c h (route_refuse pf c h expecting error)
  unfolding route_refuse get_error_for_roundtrip
  route_refuse-IsRefusal error = elim (Bool-cases (client_message_generates_reply h)) [
    | inl reply ↦ rw reply (inr (get_error_for_header c h error, refl, refl, refl, refl))
    | inr no_reply ↦ rw no_reply (inl (refl, refl))
  ]

  pub route_hide-IsRefusal : IsRefusal pf c h (route_hide pf c h expecting)
  unfolding route_hide
  route_hide-IsRefusal = route_refuse-IsRefusal (hide_error pf h)

  pub route_deny-IsRefusal : IsRefusal pf c h (route_deny pf c h expecting)
  unfolding route_deny
  route_deny-IsRefusal = route_refuse-IsRefusal (codes "org.freedesktop.DBus.Error.AccessDenied")

  -- The code reads the policy of the first argument as the rules do.
  validate-has :
      (required : Policy)
      → (validate_arg0_name pf c buffer.bytes required).0
        ≡ name_has c (get_arg0_string pf buffer.bytes) required
  unfolding validate_arg0_name
  validate-has required = by_name (get_arg0_string pf buffer.bytes)
    where
      by_name : (name : Option Bytes) → (validate_name c name required).0 ≡ name_has c name required
      by_name none = refl
      by_name (some name) = refl

  -- The switch for a test that the code makes, for the test of the rules.
  Follows-has :
      (required : Policy) (r : Route)
      → Follows (validate_arg0_name pf c buffer.bytes required).0 r
      → Follows (name_has c (get_arg0_string pf buffer.bytes) required) r
  Follows-has required r = subst (λ b. Follows b r) (validate-has required)

  Follows-if :
      (test : Bool) (r r' : Route)
      → IsPassed c buffer r
      → IsRefusal pf c h r'
      → Follows test (if test then r else r')
  Follows-if true r r' p q = (λ _. p, λ e. cc)
  Follows-if false r r' p q = (λ e. cc, λ _. q)

  IsRefusal-if :
      (test : Bool) (r r' : Route)
      → IsRefusal pf c h r
      → IsRefusal pf c h r'
      → IsRefusal pf c h (if test then r else r')
  IsRefusal-if true r r' p q = p
  IsRefusal-if false r r' p q = q

  pub route_pass-IsPassed : (e : ExpectedReplyType) → IsPassed c buffer (route_pass c h buffer e)
  unfolding route_pass
  route_pass-IsPassed e = (refl, refl)

  route_validate-Follows :
      (handler : BusHandler)
      → Follows
          (validate_arg0_name pf c buffer.bytes (policy_from_handler handler)).0
          (route_validate pf c h buffer expecting handler)
  unfolding route_validate
  route_validate-Follows handler =
      Follows-if _ _ _ (route_pass-IsPassed expecting)
        (IsRefusal-if _ _ _ route_hide-IsRefusal route_deny-IsRefusal)

  route_filter_owner-Follows :
      (m : DBusMessage)
      → m.reply_serial ≡ some (client_reply_serial c h)
      → Follows (validate_arg0_name pf c buffer.bytes see).0 (
          route_filter_owner pf c h buffer expecting (
            record c { rewrite_reply = replace h.serial m c.rewrite_reply },
            get_ping_buffer_for_header pf h,
          ))
  unfolding route_filter_owner
  route_filter_owner-Follows m e =
      Follows-if _ _ _ (route_pass-IsPassed expecting) (inr (m, refl, refl, refl, e))

  -- The switch does for each handler what the rule asks for.
  pub route-Follows :
      (rule : Option Policy) (handler : BusHandler)
      → FitsRule rule handler
      → Follows (rule_allows pf c buffer.bytes rule) (route pf c h buffer expecting handler)
  unfolding route rule_allows arg_has policy_from_handler get_bool_reply_for_header
      get_bool_reply_for_roundtrip get_ping_buffer_for_header get_error_for_header
      get_error_for_roundtrip
  route-Follows none handler e = rw e (λ t. cc, λ _. route_deny-IsRefusal)
  route-Follows (some policy_none) handler (inl e) =
      rw e (λ _. route_pass-IsPassed expecting, λ t. cc)
  route-Follows (some policy_none) handler (inr e) =
      rw e (λ _. route_pass-IsPassed expect_list_names, λ t. cc)
  route-Follows (some see) handler (inl e) =
      rw e (Follows-has see _ (route_validate-Follows handle_validate_see))
  route-Follows (some see) handler (inr (inl e)) =
      rw e
        (Follows-has see _ (route_filter_owner-Follows (get_bool_reply_for_header c h false) refl))
  route-Follows (some see) handler (inr (inr e)) = rw e (
      Follows-has see _ (
        route_filter_owner-Follows
          (get_error_for_header c h (codes "org.freedesktop.DBus.Error.NameHasNoOwner")) refl))
  route-Follows (some talk) handler e =
      rw e (Follows-has talk _ (route_validate-Follows handle_validate_talk))
  route-Follows (some own) handler e =
      rw e (Follows-has own _ (route_validate-Follows handle_validate_own))
