-- ===== src/Proxy/FromBus/Safety.antt =====
-- What handling a message of the bus does to the records and the policies of a client
-- (dbus-proxy/xdg-app-proxy.c).
use mathlib.Core.Option
use xdg_app.Prelude.{
  ==_iff, Bool, Bool-cases, Bytes, Option, Option-cases, arith, false, if_cases, inl, inr, is_some,
  none, refl, some, true, ◌&&◌, ◌==◌, ◌∙◌, ◌≡◌,
}
use xdg_app.Proxy.FromBus.{
  Delivery, deliver_other, deliver_reply, filter_broadcast, filter_from_bus, filter_reply, finish,
  forward, header_text, is_broadcast, see_sender,
}
use xdg_app.Proxy.FromBus.Deliver.{
  Delivers, Goes, deliver_other-Delivers, deliver_reply-Delivers, update-Goes,
}
use xdg_app.Proxy.FromClient.{is_expect_none}
use xdg_app.Proxy.Header.{Header, method_return}
use xdg_app.Proxy.Message.{Platform, get_arg0_string}
use xdg_app.Proxy.Names.{client_get_policy, is_unique}
use xdg_app.Proxy.Names.Sticky.{Grows, Grows-refl, Grows-trans}
use xdg_app.Proxy.Policy.{policy_lt, see, talk}
use xdg_app.Proxy.State.{
  Buffer, Client, expect_fake_get_name_owner, expect_hello, expect_none, queue_outgoing_buffer,
  steal_expected_reply,
}
use xdg_app.Proxy.State.Consistent.{IsConsistent, IsConsistent-same, IsConsistent-steal}
use xdg_app.Proxy.State.Expected.{expected, steal_expected_reply_lem}

-- What the proxy relies on of the bus: a reply to Hello or to GetNameOwner that is no error carries
-- a string.
pub record IsTrusted (pf : Platform) (c : Client) (h : Header) (blob : Bytes) : Type 0 where
  pub hello :
      expected c.client_side h.reply_serial ≡ expect_hello
      → h.message_type ≡ method_return
      → is_some (get_arg0_string pf blob) ≡ true
  pub owner :
      expected c.client_side h.reply_serial ≡ expect_fake_get_name_owner
      → h.message_type ≡ method_return
      → is_some (get_arg0_string pf blob) ≡ true

-- The message answers a Hello with something that is no method return, as a bus does for a second
-- Hello.
abbrev pub RefusesHello : Client → Header → Type 0
RefusesHello c h =
    (h.has_reply_serial ≡ true)
    × (expected c.client_side h.reply_serial ≡ expect_hello)
    × ((h.message_type == method_return) ≡ false)

-- The two last steps of the handling.
see_sender-Goes :
    (c : Client) (sender : Option Bytes)
    → IsConsistent c
    → IsConsistent (see_sender c sender) × Grows c (see_sender c sender)
see_sender-Goes c none i = (i, Grows-refl c)
see_sender-Goes c (some sender) i = elim (Bool-cases (is_unique sender)) [
  | inl unique ↦ rw unique (update-Goes c sender see i)
  | inr other ↦ rw other (i, Grows-refl c)
]

forward-Goes :
    (pf : Platform) (h : Header) (c : Client) (buffer : Buffer) (live : Bool)
    → IsConsistent c
    → IsConsistent (forward pf h c buffer live) × Grows c (forward pf h c buffer live)
unfolding forward queue_outgoing_buffer
forward-Goes pf h c buffer live i =
    let c' = see_sender c (header_text pf live h.sender) in
    let (j, g) = see_sender-Goes c (header_text pf live h.sender) i in
    (IsConsistent-same c' (forward pf h c buffer live) refl refl refl j, g)

finish_as_is-Goes :
    (pf : Platform) (h : Header) (c : Client) (d : Delivery)
    → IsConsistent d.client × Grows c d.client
    → Goes ⊥ c (some (finish pf h d))
finish_as_is-Goes pf h c d (i, g) = elim (Option-cases d.buffer) [
  | inl gone ↦ rw gone (i, g)
  | inr (buffer, there) ↦ rw there (
      let (j, g') = forward-Goes pf h d.client buffer d.live i in
      (j, Grows-trans c d.client (forward pf h d.client buffer d.live) g g'))
]

finish-Goes :
    (pf : Platform) (h : Header) (c : Client) (d : Delivery)
    → IsConsistent d.client × Grows c d.client
    → Goes ⊥ c (some (finish pf h (filter_broadcast pf h d)))
unfolding filter_broadcast
finish-Goes pf h c d (i, g) =
    elim (Bool-cases (
      is_broadcast h
      && policy_lt (client_get_policy d.client (header_text pf d.live h.sender)) talk)) [
        | inl kept ↦ rw kept (i, g)
        | inr passed ↦ rw passed (finish_as_is-Goes pf h c d (i, g))
      ]

Goes-map :
    (reason : Type 0) (pf : Platform) (h : Header) (c c1 : Client) (o : Option Delivery)
    → Grows c c1
    → Delivers reason c1 o
    → Goes reason c (Option.map (λ d. finish pf h (filter_broadcast pf h d)) o)
Goes-map reason pf h c c1 none g e = e
Goes-map reason pf h c c1 (some d) g (i, g') =
    let (j, g'') = finish-Goes pf h c1 d (i, g') in
    (j, Grows-trans c c1 (finish pf h (filter_broadcast pf h d)) g g'')

-- The branch for a reply, for what was stolen.
reply-Goes :
    (pf : Platform) (c : Client) (h : Header) (buffer : Buffer)
    → IsConsistent c
    → IsTrusted pf c h buffer.bytes
    → h.has_reply_serial ≡ true
    → Goes (RefusesHello c h) c (filter_reply pf c h buffer)
unfolding filter_reply
reply-Goes pf c h buffer i trust reply =
    let side = (steal_expected_reply c.client_side h.reply_serial).0 in
    let type = (steal_expected_reply c.client_side h.reply_serial).1 in
    let c' = record c { client_side = side } in
    let j = IsConsistent-steal c h.reply_serial i in
    let gone : expected side h.reply_serial ≡ expect_none =
      (steal_expected_reply_lem c.client_side h.reply_serial).1 h.reply_serial
      ∙ ground (arith, (==_iff h.reply_serial h.reply_serial).1 refl) in
    let same = (steal_expected_reply_lem c.client_side h.reply_serial).0 in
    elim (Bool-cases (is_expect_none type)) [
      | inl unexpected ↦ rw unexpected (j, Grows-refl c)
      | inr awaited ↦ rw awaited (
          Goes-map (RefusesHello c h) pf h c c' (deliver_reply pf c' h buffer type) (Grows-refl c) (
            deliver_reply-Delivers (RefusesHello c h) pf c' h buffer j gone type
              (λ e. i.rewrites h.reply_serial (rw (← same) e))
              (λ e. (i.owners h.reply_serial (rw (← same) e), trust.owner (rw (← same) e)))
              (λ e. (trust.hello (rw (← same) e), λ error. (reply, rw (← same) e, error)))))
    ]

-- A message that the bus sends, handled by a client whose records are complete, crashes the proxy
-- only if it answers Hello with something that is no method return, when a method return to Hello or
-- to GetNameOwner has a string. Afterwards the records are complete again: each reply that is to be
-- rewritten has its replacement and each fake GetNameOwner its name. The policy of no unique id
-- has gone down.
pub filter_from_bus-Goes :
    (pf : Platform) (c : Client) (h : Header) (buffer : Buffer)
    → IsConsistent c
    → IsTrusted pf c h buffer.bytes
    → Goes (RefusesHello c h) c (filter_from_bus pf c h buffer)
unfolding filter_from_bus
filter_from_bus-Goes pf c h buffer i trust =
    if_cases (Goes (RefusesHello c h) c) h.has_reply_serial (reply-Goes pf c h buffer i trust)
      (λ other.
        finish-Goes pf h c (deliver_other pf c h buffer) (deliver_other-Delivers pf c h buffer i))
