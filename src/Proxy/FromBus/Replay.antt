-- ===== src/Proxy/FromBus/Replay.antt =====
-- Handing a reply from the bus to the client (got_buffer_from_bus of dbus-proxy/xdg-app-proxy.c).
use mathlib.Core.Option
use xdg_app.Prelude.{
  ==_iff, Bool, Bool-cases, Bytes, List, Option, Option-cases, Table, [], ap, arith, bytes_eq,
  direct_eq, false, if_both, if◌then◌else◌, inl, inr, lookup, none, refl, remove, some,
  some_injective, sym, true, ℕ, ◌&&◌, ◌==◌, ◌||◌, ◌∙◌, ◌∷◌, ◌≡◌, ◌≢◌, ◌⊎◌,
}
use xdg_app.Proxy.FromBus.{
  Delivery, deliver_hello, deliver_other, deliver_owner, deliver_reply, deliver_rewritten,
  drop_buffer, filter_broadcast, filter_from_bus, filter_reply, finish, forward, header_text,
  is_broadcast, learn_owner,
}
use xdg_app.Proxy.FromBus.Mediation.{
  no_reply_branch, reply_branch, see_sender-side, unexpected_reply,
}
use xdg_app.Proxy.FromClient.{is_expect_none}
use xdg_app.Proxy.Header.{Header, message_error, method_return}
use xdg_app.Proxy.Message.{DBusMessage, Platform, get_arg0_string}
use xdg_app.Proxy.Names.{
  client_get_policy, filter_names_list, message_is_name_owner_changed,
  should_filter_name_owner_changed,
}
use xdg_app.Proxy.Names.Frame.{
  OnlyPolicies-from_name, OnlyPolicies-update, should_filter_name_owner_changed-OnlyPolicies,
}
use xdg_app.Proxy.Policy.{policy_lt, talk}
use xdg_app.Proxy.State.{
  Buffer, Client, ExpectedReplyType, ProxySide, expect_fake_get_name_owner, expect_fake_list_names,
  expect_filter, expect_hello, expect_list_names, expect_none, expect_normal, expect_rewrite,
  or_none, queue_outgoing_buffer, steal_expected_reply,
}
use xdg_app.Proxy.State.Expected.{expected, steal_expected_reply_lem}

-- The replies that the client waits for are those of the first.
abbrev SameReplies : Client → Option Delivery → Type 0
SameReplies c none = Unit
SameReplies c (some d) = d.client.client_side.expected_replies ≡ c.client_side.expected_replies

abbrev replies : Client → Table ℕ ExpectedReplyType
replies c = c.client_side.expected_replies

module _ (pf : Platform) (c : Client) (h : Header) (buffer : Buffer) where
  rewritten-SameReplies : (o : Option DBusMessage) → SameReplies c (deliver_rewritten pf c h o)
  unfolding deliver_rewritten
  rewritten-SameReplies none = tt
  rewritten-SameReplies (some m) = refl

  hello-SameReplies : (o : Option Bytes) → SameReplies c (deliver_hello c buffer o)
  unfolding deliver_hello
  hello-SameReplies none = tt
  hello-SameReplies (some id) = ap replies (OnlyPolicies-update c id talk)

  learn_owner-replies :
      (owner requested : Option Bytes) (c' : Client)
      → learn_owner c owner requested ≡ some c'
      → replies c' ≡ replies c
  unfolding learn_owner
  learn_owner-replies owner none c' e = ground (arith, e)
  learn_owner-replies none (some requested) c' e = ground (arith, e)
  learn_owner-replies (some owner) (some requested) c' e =
      let f = ap replies (OnlyPolicies-from_name c owner requested) in ground (arith, e, f)

  forgotten-SameReplies :
      (o : Option Client)
      → ((c' : Client) → o ≡ some c' → replies c' ≡ replies c)
      → SameReplies c (
          Option.map
            (λ c'.
              drop_buffer
                (record c' { get_owner_reply = remove h.reply_serial c'.get_owner_reply }))
            o)
  forgotten-SameReplies none f = tt
  forgotten-SameReplies (some c') f = f c' refl

  owner-SameReplies : SameReplies c (deliver_owner pf c h buffer)
  unfolding deliver_owner
  owner-SameReplies = forgotten-SameReplies _ (
      if_both (λ o. (c' : Client) → o ≡ some c' → replies c' ≡ replies c)
        (h.message_type == method_return)
        (learn_owner-replies (get_arg0_string pf buffer.bytes)
          (lookup h.reply_serial c.get_owner_reply))
        (λ c' e. ground (arith, e)))

  reply-SameReplies :
      (type : ExpectedReplyType)
      → type ≢ expect_fake_list_names
      → SameReplies c (deliver_reply pf c h buffer type)
  unfolding deliver_reply
  reply-SameReplies expect_none n = refl
  reply-SameReplies expect_normal n = refl
  reply-SameReplies expect_filter n = refl
  reply-SameReplies expect_hello n =
      if_both (SameReplies c) (h.message_type == method_return)
        (hello-SameReplies (get_arg0_string pf buffer.bytes))
        (rewritten-SameReplies (lookup h.reply_serial c.rewrite_reply))
  reply-SameReplies expect_rewrite n = rewritten-SameReplies (lookup h.reply_serial c.rewrite_reply)
  reply-SameReplies expect_fake_get_name_owner n = owner-SameReplies
  reply-SameReplies expect_fake_list_names n = absurd (n refl)
  reply-SameReplies expect_list_names n =
      if_both (λ d. SameReplies c (some d)) (h.message_type == method_return)
        {x = record { client = c; buffer = filter_names_list pf c buffer.bytes; live = false }}
        {y = record { client = c; buffer = some buffer; live = true }} refl refl

finish_any :
    (pf : Platform) (h : Header) (d : Delivery) → replies (finish pf h d) ≡ replies d.client
unfolding forward queue_outgoing_buffer
finish_any pf h d = elim (Option-cases d.buffer) [
  | inl gone ↦ rw gone refl
  | inr (buffer, there) ↦ rw there (
      ap (λ (s : ProxySide). s.expected_replies)
        (see_sender-side d.client (header_text pf d.live h.sender)))
]

finish-replies :
    (pf : Platform) (h : Header) (d : Delivery)
    → replies (finish pf h (filter_broadcast pf h d)) ≡ replies d.client
unfolding filter_broadcast
finish-replies pf h d =
    if_both (λ x. replies (finish pf h x) ≡ replies d.client)
      (is_broadcast h
        && policy_lt (client_get_policy d.client (header_text pf d.live h.sender)) talk)
      refl (finish_any pf h d)

abbrev replies_or : Client → Option Client → Table ℕ ExpectedReplyType
replies_or c none = replies c
replies_or c (some c') = replies c'

-- The client after a reply that it waited for.
finished :
    (pf : Platform) (h : Header) (c c' : Client) (o : Option Delivery)
    → SameReplies c o
    → Option.map (λ d. finish pf h (filter_broadcast pf h d)) o ≡ some c'
    → replies c' ≡ replies c
finished pf h c c' none same e = sym (ap (replies_or c) e)
finished pf h c c' (some d) same e = sym (ap (replies_or c) e) ∙ (finish-replies pf h d ∙ same)

-- After the branch for a reply, the client waits for what it waited for, but for that reply.
stolen-replies :
    (pf : Platform) (c : Client) (h : Header) (buffer : Buffer) (c' : Client)
    → expected c.client_side h.reply_serial ≢ expect_fake_list_names
    → filter_reply pf c h buffer ≡ some c'
    → replies c' ≡ (steal_expected_reply c.client_side h.reply_serial).0.expected_replies
unfolding filter_reply
stolen-replies pf c h buffer c' n =
    let side = (steal_expected_reply c.client_side h.reply_serial).0 in
    let type = (steal_expected_reply c.client_side h.reply_serial).1 in
    let stolen = record c { client_side = side } in
    let same = (steal_expected_reply_lem c.client_side h.reply_serial).0 in
    if_both (λ o. o ≡ some c' → replies c' ≡ side.expected_replies) (is_expect_none type)
      (λ e. sym (ap (replies_or stolen) e))
      (finished pf h stolen c' (deliver_reply pf stolen h buffer type)
        (reply-SameReplies pf stolen h buffer type (λ e. n (sym same ∙ e))))

-- What the client waits for at a serial is what it waited for, or nothing.
abbrev Fewer : Client → Client → Type 0
Fewer c c' =
    (n : ℕ)
    → (expected c'.client_side n ≡ expected c.client_side n)
      ⊎ (expected c'.client_side n ≡ expect_none)

other-replies :
    (pf : Platform) (c : Client) (h : Header) (buffer : Buffer)
    → replies (deliver_other pf c h buffer).client ≡ replies c
unfolding deliver_other
other-replies pf c h buffer =
    let same : replies (should_filter_name_owner_changed pf c buffer.bytes).0 ≡ replies c =
      ap replies (should_filter_name_owner_changed-OnlyPolicies pf c buffer.bytes) in
    let P : Delivery → Type 0 = λ d. replies d.client ≡ replies c in
    if_both P (h.message_type == method_return || h.message_type == message_error) refl (
      if_both P (message_is_name_owner_changed h)
        (if_both P (should_filter_name_owner_changed pf c buffer.bytes).1 same same) refl)

after_other :
    (pf : Platform) (c : Client) (h : Header) (buffer : Buffer) (c' : Client)
    → h.has_reply_serial ≡ false
    → filter_from_bus pf c h buffer ≡ some c'
    → replies c' ≡ replies c
after_other pf c h buffer c' other e =
    sym (ap (replies_or c) (sym (no_reply_branch pf c h buffer other) ∙ e))
    ∙ (finish-replies pf h (deliver_other pf c h buffer) ∙ other-replies pf c h buffer)

-- The client awaits no reply to the ListNames of the proxy itself.
abbrev pub NoListing : Client → Type 0
NoListing c = (n : ℕ) → expected c.client_side n ≢ expect_fake_list_names

one_or_none :
    (test : Bool) (x y : ExpectedReplyType)
    → x ≡ (if test then expect_none else y)
    → (x ≡ y) ⊎ (x ≡ expect_none)
one_or_none true x y e = inr e
one_or_none false x y e = inl e

after_message-Fewer :
    (pf : Platform) (c : Client) (h : Header) (buffer : Buffer) (c' : Client)
    → NoListing c
    → filter_from_bus pf c h buffer ≡ some c'
    → Fewer c c'
after_message-Fewer pf c h buffer c' none_fake e n = elim (Bool-cases h.has_reply_serial) [
  | inl reply ↦
      let left =
        stolen-replies pf c h buffer c' (none_fake h.reply_serial)
          (sym (reply_branch pf c h buffer reply) ∙ e) in
      let at : expected c'.client_side n
          ≡ (if h.reply_serial == n then expect_none else expected c.client_side n) =
        ap (λ t. or_none (lookup n t)) left
        ∙ (steal_expected_reply_lem c.client_side h.reply_serial).1 n in
      one_or_none (h.reply_serial == n) (expected c'.client_side n) (expected c.client_side n) at
  | inr other ↦ inl (ap (λ t. or_none (lookup n t)) (after_other pf c h buffer c' other e))
]

NoListing-Fewer : (c c' : Client) → Fewer c c' → NoListing c → NoListing c'
NoListing-Fewer c c' fewer h n e = elim (fewer n) [
  | inl same ↦ h n (sym same ∙ e)
  | inr gone ↦ (let f : expect_none ≡ expect_fake_list_names = sym gone ∙ e in cc)
]

gone_later :
    (c c' : Client) (n : ℕ)
    → (expected c'.client_side n ≡ expected c.client_side n)
      ⊎ (expected c'.client_side n ≡ expect_none)
    → expected c.client_side n ≡ expect_none
    → expected c'.client_side n ≡ expect_none
gone_later c c' n (inl same) gone = same ∙ gone
gone_later c c' n (inr none_now) gone = none_now

-- Any messages of the bus, in turn; `none` is a crash.
unfoldable pub bus_messages : Platform → List (Header × Buffer) → Client → Option Client
unfolding filter_from_bus
bus_messages pf [] c = some c
bus_messages pf ((h, buffer) ∷ messages) c = elim (filter_from_bus pf c h buffer) [
  | none ↦ none
  | some c' ↦ bus_messages pf messages c'
]

-- What holds after the rest holds after a step and the rest.
after_step :
    (step : Option Client) (rest : Client → Option Client) (P : Client → Type 0) (c' : Client)
    → (elim step [ none ↦ none | some k ↦ rest k ]) ≡ some c'
    → ((k : Client) → step ≡ some k → rest k ≡ some c' → P c')
    → P c'
after_step none rest P c' e h = cc
after_step (some k) rest P c' e h = h k refl e

-- Nothing becomes expected at a serial, however many messages come.
gone_stays :
    (pf : Platform) (messages : List (Header × Buffer)) (c c' : Client) (n : ℕ)
    → NoListing c
    → expected c.client_side n ≡ expect_none
    → bus_messages pf messages c ≡ some c'
    → expected c'.client_side n ≡ expect_none
unfolding bus_messages
gone_stays pf [] c c' n none_fake gone e =
    ap (λ (k : Client). expected k.client_side n) (sym (some_injective e)) ∙ gone
gone_stays pf ((h, buffer) ∷ messages) c c' n none_fake gone e =
    after_step (filter_from_bus pf c h buffer) (bus_messages pf messages)
      (λ k. expected k.client_side n ≡ expect_none) c' e
      (λ k f g.
        let fewer = after_message-Fewer pf c h buffer k none_fake f in
        gone_stays pf messages k c' n (NoListing-Fewer c k fewer none_fake)
          (gone_later c k n (fewer n) gone) g)

-- A reply comes through once. Let the client await no reply to the proxy's own ListNames. When a
-- reply has been handled, and after it any number of other messages of the bus, then a message with
-- the same reply serial is dropped: the client is as before it.
pub no_replay :
    (pf : Platform) (c : Client) (h : Header) (buffer : Buffer) (c' c'' : Client)
    (messages : List (Header × Buffer)) (h' : Header) (buffer' : Buffer)
    → NoListing c
    → h.has_reply_serial ≡ true
    → filter_from_bus pf c h buffer ≡ some c'
    → bus_messages pf messages c' ≡ some c''
    → h'.has_reply_serial ≡ true
    → h'.reply_serial ≡ h.reply_serial
    → filter_from_bus pf c'' h' buffer' ≡ some c''
no_replay pf c h buffer c' c'' messages h' buffer' none_fake reply first between reply' again =
    let left =
      stolen-replies pf c h buffer c' (none_fake h.reply_serial)
        (sym (reply_branch pf c h buffer reply) ∙ first) in
    let gone : expected c'.client_side h.reply_serial ≡ expect_none =
      ap (λ t. or_none (lookup h.reply_serial t)) left
      ∙ ((steal_expected_reply_lem c.client_side h.reply_serial).1 h.reply_serial
          ∙ ground (arith, (==_iff h.reply_serial h.reply_serial).1 refl)) in
    let fewer = after_message-Fewer pf c h buffer c' none_fake first in
    unexpected_reply pf c'' h' buffer' reply' (
      ap (λ k. expected c''.client_side k) again
      ∙ gone_stays pf messages c' c'' h.reply_serial (NoListing-Fewer c c' fewer none_fake) gone
          between)
