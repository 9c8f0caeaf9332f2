-- ===== src/Proxy/FromBus/Listing.antt =====
-- The reply of the bus to ListNames and ListActivatableNames (filter_names_list and
-- got_buffer_from_bus of dbus-proxy/xdg-app-proxy.c).
use mathlib.Core.Option
use xdg_app.Prelude.{
  Bytes, List, [], ap, bytes_eq, direct_eq, false, none, refl, remove, some, true, ℕ, ◌↔◌, ◌∙◌, ◌∷◌,
  ◌≡◌,
}
use xdg_app.Proxy.FromBus.{
  Delivery, deliver_reply, filter_broadcast, filter_from_bus, filter_reply, finish, forward,
}
use xdg_app.Proxy.FromBus.Mediation.{forward-buffers, queue_if, reply_branch}
use xdg_app.Proxy.Header.{Header, method_return}
use xdg_app.Proxy.Message.{Arg, DBusMessage, Platform, body_arg, child, text_array, tuple}
use xdg_app.Proxy.Names.{client_get_policy, filter_names_list, visible_names}
use xdg_app.Proxy.Names.Visible.{IsIn, IsSeen, visible_names_iff}
use xdg_app.Proxy.State.{
  Buffer, Client, expect_list_names, forget_expected, message_to_buffer, steal_expected_reply,
}
use xdg_app.Proxy.State.Expected.{expected}

-- The client that does not wait any more for the reply with a serial.
abbrev taken : Client → ℕ → Client
taken c n = record c {
  client_side = record c.client_side { expected_replies = remove n c.client_side.expected_replies };
}

-- A reply that lists these names and is the message otherwise.
abbrev pub listing_of : DBusMessage → List Bytes → DBusMessage
listing_of m names = record m { body = some (tuple (text_array names ∷ [])) }

module _ (pf : Platform) (c : Client) (h : Header) (buffer : Buffer) where
  listing_branch :
      expected c.client_side h.reply_serial ≡ expect_list_names
      → filter_reply pf c h buffer
        ≡ Option.map
            (λ d. finish pf h (filter_broadcast pf h d))
            (deliver_reply pf (taken c h.reply_serial) h buffer expect_list_names)
  unfolding filter_reply steal_expected_reply forget_expected
  listing_branch listing = rw listing refl

  deliver_listing :
      (k : Client)
      → h.message_type ≡ method_return
      → deliver_reply pf k h buffer expect_list_names
        ≡ some (record { client = k; buffer = filter_names_list pf k buffer.bytes; live = false })
  unfolding deliver_reply
  deliver_listing k e = rw e refl

  finish_return :
      (k : Client) (b : Buffer)
      → h.message_type ≡ method_return
      → (finish pf h (
          filter_broadcast pf h
            (record { client = k; buffer = some b; live = false }))).client_side.buffers
        ≡ queue_if true k.client_side.buffers b
  unfolding filter_broadcast forward
  finish_return k b e = rw e (forward-buffers pf h k b false)

  listed_names :
      (m : DBusMessage) (names : List Bytes) (rest : List Arg)
      → pf.from_blob buffer.bytes ≡ some m
      → m.body ≡ some (tuple (text_array names ∷ rest))
      → body_arg pf buffer.bytes 0 ≡ some (text_array names)
  unfolding body_arg
  listed_names m names rest e b =
      ap (λ r. elim r [ none ↦ none | some m ↦ elim m.body [ none ↦ none | some b ↦ child b 0 ] ]) e
      ∙ ap (λ r. elim r [ none ↦ none | some b ↦ child b 0 ]) b

  filtered_listing :
      (k : Client) (m : DBusMessage) (names : List Bytes)
      → pf.from_blob buffer.bytes ≡ some m
      → body_arg pf buffer.bytes 0 ≡ some (text_array names)
      → filter_names_list pf k buffer.bytes
        ≡ some (message_to_buffer pf (listing_of m (visible_names k names)))
  unfolding filter_names_list
  filtered_listing k m names e arg = rw (filter_names_list, e, arg) refl

  -- What the client gets for a listing of the bus.
  pub record Lists (m : DBusMessage) (names : List Bytes) (c' : Client) : Type 0 where
    pub shown : List Bytes
    pub shows_seen : (name : Bytes) → IsIn name shown ↔ (IsIn name names × IsSeen c name)
    pub queued :
        c'.client_side.buffers
        ≡ queue_if true c.client_side.buffers (message_to_buffer pf (listing_of m shown))

  visible_names-taken :
      (names : List Bytes) (n : ℕ) (name : Bytes)
      → IsIn name (visible_names (taken c n) names) ↔ (IsIn name names × IsSeen c name)
  unfolding client_get_policy
  visible_names-taken names n name = visible_names_iff (taken c n) names name

  -- When the bus answers a call of ListNames or ListActivatableNames that the client made with a
  -- method return that lists names, the client gets the message, encoded again, with those of its
  -- names whose policy is SEE or more and no others, behind what is queued.
  pub reply_listing :
      (m : DBusMessage) (names : List Bytes) (rest : List Arg)
      → h.has_reply_serial ≡ true
      → expected c.client_side h.reply_serial ≡ expect_list_names
      → h.message_type ≡ method_return
      → pf.from_blob buffer.bytes ≡ some m
      → m.body ≡ some (tuple (text_array names ∷ rest))
      → (c' : Client) × (filter_from_bus pf c h buffer ≡ some c') × Lists m names c'
  reply_listing m names rest reply listing returned e b =
      let k = taken c h.reply_serial in
      let shown = visible_names k names in
      let encoded = message_to_buffer pf (listing_of m shown) in
      let d : Delivery = record { client = k; buffer = some encoded; live = false } in
      let delivered : deliver_reply pf k h buffer expect_list_names ≡ some d =
        deliver_listing k returned
        ∙ ap (λ r. some (record { client = k; buffer = r; live = false }))
            (filtered_listing k m names e (listed_names m names rest e b)) in
      (
        finish pf h (filter_broadcast pf h d),
        reply_branch pf c h buffer reply
            ∙ (listing_branch listing
                ∙ ap (Option.map (λ d. finish pf h (filter_broadcast pf h d))) delivered),
        record {
          shown = shown;
          shows_seen = visible_names-taken names h.reply_serial;
          queued = finish_return k encoded returned;
        },
      )
