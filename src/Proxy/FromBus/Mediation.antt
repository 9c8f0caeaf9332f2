-- ===== src/Proxy/FromBus/Mediation.antt =====
-- What the proxy lets through to the client (got_buffer_from_bus of dbus-proxy/xdg-app-proxy.c).
use xdg_app.Prelude.{
  Bool, Bool-cases, Bytes, List, Option, [], ap, arith, bytes_eq, direct_eq, false, if_both,
  if◌then◌else◌, inl, inr, lookup, none, not, refl, some, subst, sym, true, ◌&&◌, ◌++◌, ◌==◌, ◌||◌,
  ◌∙◌, ◌∷◌, ◌≡◌,
}
use xdg_app.Proxy.FromBus.{
  deliver_other, deliver_reply, deliver_rewritten, drop_buffer, filter_broadcast, filter_from_bus,
  filter_reply, finish, forward, header_text, is_broadcast, see_sender,
}
use xdg_app.Proxy.Header.{Header, message_error, method_return}
use xdg_app.Proxy.Message.{Platform}
use xdg_app.Proxy.Names.{client_get_policy, message_is_name_owner_changed, update_unique_id_policy}
use xdg_app.Proxy.Policy.{policy_lt, talk}
use xdg_app.Proxy.State.{
  Buffer, Client, ProxySide, expect_hello, expect_none, forget_expected, queue_outgoing_buffer,
  steal_expected_reply,
}
use xdg_app.Proxy.State.Expected.{expected}
use xdg_app.Store.Handlers.{answer}

-- A broadcast from a sender that the client may not talk to.
abbrev pub is_hidden : Client → Header → Bool
is_hidden c h = is_broadcast h && policy_lt (client_get_policy c h.sender) talk

-- The queue to the client after a message that is forwarded or dropped.
abbrev pub queue_if : Bool → List Buffer → Buffer → List Buffer
queue_if true queue buffer = queue ++ record buffer { pos = 0 } ∷ []
queue_if false queue buffer = queue

pub see_sender-side :
    (c : Client) (sender : Option Bytes) → (see_sender c sender).client_side ≡ c.client_side
unfolding update_unique_id_policy
see_sender-side c none = refl
see_sender-side c (some sender) = ground arith

pub forward-buffers :
    (pf : Platform) (h : Header) (c : Client) (buffer : Buffer) (live : Bool)
    → (forward pf h c buffer live).client_side.buffers ≡ queue_if true c.client_side.buffers buffer
unfolding forward queue_outgoing_buffer
forward-buffers pf h c buffer live =
    ap (λ (s : ProxySide). s.buffers ++ record buffer { pos = 0 } ∷ [])
      (see_sender-side c (header_text pf live h.sender))

finish-buffers :
    (pf : Platform) (h : Header) (c : Client) (buffer : Buffer)
    → (finish pf h (
        filter_broadcast pf h
          (record { client = c; buffer = some buffer; live = true }))).client_side.buffers
      ≡ queue_if (not (is_hidden c h)) c.client_side.buffers buffer
unfolding filter_broadcast
finish-buffers pf h c buffer = elim (Bool-cases (is_hidden c h)) [
  | inl hidden ↦ rw hidden refl
  | inr seen ↦ rw seen (forward-buffers pf h c buffer true)
]

-- The queue to the client, after a message that was handled.
abbrev pub Queue : Option Client → List Buffer → Type 0
Queue none queue = ⊥
Queue (some c) queue = c.client_side.buffers ≡ queue

pub no_reply_branch :
    (pf : Platform) (c : Client) (h : Header) (buffer : Buffer)
    → h.has_reply_serial ≡ false
    → filter_from_bus pf c h buffer
      ≡ some (finish pf h (filter_broadcast pf h (deliver_other pf c h buffer)))
unfolding filter_from_bus
no_reply_branch pf c h buffer e =
    ap
      (λ b.
        if b
        then filter_reply pf c h buffer
        else some (finish pf h (filter_broadcast pf h (deliver_other pf c h buffer))))
      e

pub reply_branch :
    (pf : Platform) (c : Client) (h : Header) (buffer : Buffer)
    → h.has_reply_serial ≡ true
    → filter_from_bus pf c h buffer ≡ filter_reply pf c h buffer
unfolding filter_from_bus
reply_branch pf c h buffer e =
    ap
      (λ b.
        if b
        then filter_reply pf c h buffer
        else some (finish pf h (filter_broadcast pf h (deliver_other pf c h buffer))))
      e

finish_dropped :
    (pf : Platform) (h : Header) (c : Client)
    → (finish pf h (filter_broadcast pf h (drop_buffer c))).client_side.buffers
      ≡ c.client_side.buffers
unfolding filter_broadcast
finish_dropped pf h c =
    if_both (λ d. (finish pf h d).client_side.buffers ≡ c.client_side.buffers)
      (is_broadcast h && policy_lt (client_get_policy c (header_text pf false h.sender)) talk) refl
      refl

-- A call or a signal without a reply serial, other than the bus's NameOwnerChanged, goes to the
-- client unchanged and behind what is queued, unless it is a broadcast signal from a sender whose
-- policy is below TALK; then nothing is queued. A method return or an error without a reply serial
-- is never queued.
pub message_mediation :
    (pf : Platform) (c : Client) (h : Header) (buffer : Buffer)
    → h.has_reply_serial ≡ false
    → message_is_name_owner_changed h ≡ false
    → Queue (filter_from_bus pf c h buffer) (
        queue_if
          (not (h.message_type == method_return || h.message_type == message_error)
            && not (is_hidden c h))
          c.client_side.buffers
          buffer)
unfolding deliver_other
message_mediation pf c h buffer no_reply other =
    subst
      (λ o. Queue o (
        queue_if
          (not (h.message_type == method_return || h.message_type == message_error)
            && not (is_hidden c h))
          c.client_side.buffers buffer))
      (sym (no_reply_branch pf c h buffer no_reply))
      (elim (Bool-cases (h.message_type == method_return || h.message_type == message_error)) [
        | inl answer ↦ rw answer (finish_dropped pf h c)
        | inr message ↦ rw (message, other) (finish-buffers pf h c buffer)
      ])

-- A reply that the client does not wait for is dropped: the client is as before.
pub unexpected_reply :
    (pf : Platform) (c : Client) (h : Header) (buffer : Buffer)
    → h.has_reply_serial ≡ true
    → expected c.client_side h.reply_serial ≡ expect_none
    → filter_from_bus pf c h buffer ≡ some c
unfolding filter_reply steal_expected_reply forget_expected
unexpected_reply pf c h buffer reply none_expected =
    reply_branch pf c h buffer reply ∙ rw none_expected refl

-- An error in reply to Hello crashes the proxy, if no reply with that serial is on record to be
-- rewritten: the case for Hello falls through to the case for replies that are rewritten.
pub hello_error-crash :
    (pf : Platform) (c : Client) (h : Header) (buffer : Buffer)
    → h.has_reply_serial ≡ true
    → h.message_type == method_return ≡ false
    → expected c.client_side h.reply_serial ≡ expect_hello
    → lookup h.reply_serial c.rewrite_reply ≡ none
    → filter_from_bus pf c h buffer ≡ none
unfolding filter_reply steal_expected_reply deliver_reply deliver_rewritten
hello_error-crash pf c h buffer reply error hello unknown =
    reply_branch pf c h buffer reply ∙ rw (hello, error, unknown) refl
