-- ===== src/Proxy/FromBus/Deliver.antt =====
-- One message of the bus, the records of the proxy and the policies
-- (got_buffer_from_bus of dbus-proxy/xdg-app-proxy.c).
use xdg_app.Prelude.{
  ==_iff, Bool-cases, Bytes, Option, ap, bytes_eq, direct_eq, false, if_both, if_cases, inl, inr,
  is_some, lookup, none, refl, some, true, ◌==◌, ◌||◌, ◌∙◌, ◌≡◌,
}
use xdg_app.Proxy.FromBus.{
  Delivery, deliver_hello, deliver_list_names, deliver_other, deliver_owner, deliver_reply,
  deliver_rewritten, learn_owner,
}
use xdg_app.Proxy.Header.{Header, message_error, method_return}
use xdg_app.Proxy.Message.{DBusMessage, Platform, get_arg0_string}
use xdg_app.Proxy.NameOps.{queue_wildcard_initial_name_ops}
use xdg_app.Proxy.NameOps.Records.{
  queue_wildcard_initial_name_ops-IsConsistent, queue_wildcard_initial_name_ops-policies,
}
use xdg_app.Proxy.Names.{
  filter_names_list, message_is_name_owner_changed, should_filter_name_owner_changed,
  update_unique_id_policy, update_unique_id_policy_from_name,
}
use xdg_app.Proxy.Names.Frame.{
  OnlyPolicies, OnlyPolicies-from_name, OnlyPolicies-update,
  should_filter_name_owner_changed-OnlyPolicies,
}
use xdg_app.Proxy.Names.Sticky.{
  Grows, Grows-from_name, Grows-refl, Grows-same, Grows-update,
  should_filter_name_owner_changed-Grows,
}
use xdg_app.Proxy.Policy.{Policy, talk}
use xdg_app.Proxy.State.{
  Buffer, Client, ExpectedReplyType, expect_fake_get_name_owner, expect_fake_list_names,
  expect_filter, expect_hello, expect_list_names, expect_none, expect_normal, expect_rewrite,
  start_reading,
}
use xdg_app.Proxy.State.Consistent.{
  IsConsistent, IsConsistent-remove_owner, IsConsistent-remove_rewrite, IsConsistent-same,
}
use xdg_app.Proxy.State.Expected.{expected}
use xdg_app.Store.Writes.{answered}

-- The step ended, with complete records and no policy lowered, or it crashed for the reason given.
abbrev pub Goes : Type 0 → Client → Option Client → Type 0
Goes reason c none = reason
Goes reason c (some c') = IsConsistent c' × Grows c c'

-- The same of a delivery.
abbrev pub Delivers : Type 0 → Client → Option Delivery → Type 0
Delivers reason c none = reason
Delivers reason c (some d) = IsConsistent d.client × Grows c d.client

IsConsistent-policies : (c c' : Client) → OnlyPolicies c c' → IsConsistent c → IsConsistent c'
IsConsistent-policies c c' e i =
    IsConsistent-same c c' (ap (λ x. x.client_side.expected_replies) e)
      (ap (λ x. x.rewrite_reply) e) (ap (λ x. x.get_owner_reply) e) i

pub update-Goes :
    (c : Client) (id : Bytes) (policy : Policy)
    → IsConsistent c
    → IsConsistent (update_unique_id_policy c id policy)
      × Grows c (update_unique_id_policy c id policy)
update-Goes c id policy i =
    (IsConsistent-policies c _ (OnlyPolicies-update c id policy) i, Grows-update c id policy)

pub deliver_other-Delivers :
    (pf : Platform) (c : Client) (h : Header) (buffer : Buffer)
    → IsConsistent c
    → Delivers ⊥ c (some (deliver_other pf c h buffer))
unfolding deliver_other
deliver_other-Delivers pf c h buffer i =
    let c' = (should_filter_name_owner_changed pf c buffer.bytes).0 in
    let j =
      IsConsistent-policies c c' (should_filter_name_owner_changed-OnlyPolicies pf c buffer.bytes)
        i in
    let g = should_filter_name_owner_changed-Grows pf c buffer.bytes in
    let P : Delivery → Type 0 = λ d. IsConsistent d.client × Grows c d.client in
    if_both P (h.message_type == method_return || h.message_type == message_error) (i, Grows-refl c)
      (if_both P (message_is_name_owner_changed h)
        (if_both P (should_filter_name_owner_changed pf c buffer.bytes).1 (j, g) (j, g))
        (i, Grows-refl c))

module _ (reason : Type 0) (pf : Platform) (c : Client) (h : Header) (buffer : Buffer)
    (i : IsConsistent c) (gone : expected c.client_side h.reply_serial ≡ expect_none) where
  deliver_rewritten-Delivers :
      (o : Option DBusMessage) → is_some o ≡ true → Delivers reason c (deliver_rewritten pf c h o)
  unfolding deliver_rewritten
  deliver_rewritten-Delivers none e = cc
  deliver_rewritten-Delivers (some m) e =
      (IsConsistent-remove_rewrite c h.reply_serial i gone, Grows-refl c)

  rewritten_or_crash :
      (o : Option DBusMessage) → reason → Delivers reason c (deliver_rewritten pf c h o)
  unfolding deliver_rewritten
  rewritten_or_crash none crashes = crashes
  rewritten_or_crash (some m) crashes =
      (IsConsistent-remove_rewrite c h.reply_serial i gone, Grows-refl c)

  deliver_hello-Delivers :
      (id : Option Bytes) → is_some id ≡ true → Delivers reason c (deliver_hello c buffer id)
  unfolding deliver_hello
  deliver_hello-Delivers none e = cc
  deliver_hello-Delivers (some id) e = update-Goes c id talk i

  hello-Delivers :
      (h.message_type ≡ method_return → is_some (get_arg0_string pf buffer.bytes) ≡ true)
      → ((h.message_type == method_return) ≡ false → reason)
      → Delivers reason c (deliver_reply pf c h buffer expect_hello)
  unfolding deliver_reply
  hello-Delivers answered crashes =
      if_cases (Delivers reason c) (h.message_type == method_return)
        (λ returned.
          deliver_hello-Delivers (get_arg0_string pf buffer.bytes)
            (answered ((==_iff _ _).0 returned)))
        (λ error. rewritten_or_crash (lookup h.reply_serial c.rewrite_reply) (crashes error))

  learn_owner-Goes :
      (owner requested : Option Bytes)
      → is_some owner ≡ true
      → is_some requested ≡ true
      → (c' : Client) × (learn_owner c owner requested ≡ some c') × OnlyPolicies c c' × Grows c c'
  unfolding learn_owner
  learn_owner-Goes owner none e f = cc
  learn_owner-Goes none (some requested) e f = cc
  learn_owner-Goes (some owner) (some requested) e f = (
    update_unique_id_policy_from_name c owner requested,
    refl,
    OnlyPolicies-from_name c owner requested,
    Grows-from_name c owner requested,
  )

  deliver_owner-Delivers :
      is_some (lookup h.reply_serial c.get_owner_reply) ≡ true
      → (h.message_type ≡ method_return → is_some (get_arg0_string pf buffer.bytes) ≡ true)
      → Delivers reason c (deliver_owner pf c h buffer)
  unfolding deliver_owner
  deliver_owner-Delivers asked answered = elim (Bool-cases (h.message_type == method_return)) [
    | inl reply ↦
        (let (c', e, only, grows) =
            learn_owner-Goes (get_arg0_string pf buffer.bytes)
              (lookup h.reply_serial c.get_owner_reply) (answered ((==_iff _ _).0 reply)) asked in
          rw (reply, e)
            (
              IsConsistent-remove_owner c' h.reply_serial (IsConsistent-policies c c' only i)
                  (ap (λ x. expected x.client_side h.reply_serial) only ∙ gone),
              grows,
            ))
    | inr error ↦ rw error (IsConsistent-remove_owner c h.reply_serial i gone, Grows-refl c)
  ]

  deliver_list_names-Delivers : Delivers reason c (some (deliver_list_names pf c h buffer))
  unfolding deliver_list_names
  deliver_list_names-Delivers =
      let c' = queue_wildcard_initial_name_ops pf c h buffer.bytes in
      (
        IsConsistent-same c' (record c' { client_side = start_reading c'.client_side })
            (unfold start_reading in refl) refl refl
            (queue_wildcard_initial_name_ops-IsConsistent pf c h buffer.bytes i),
        Grows-same c c' (queue_wildcard_initial_name_ops-policies pf c h buffer.bytes),
      )

  -- The reply was expected as `type` before it came.
  pub deliver_reply-Delivers :
      (type : ExpectedReplyType)
      → (type ≡ expect_rewrite → is_some (lookup h.reply_serial c.rewrite_reply) ≡ true)
      → (type ≡ expect_fake_get_name_owner
          → (is_some (lookup h.reply_serial c.get_owner_reply) ≡ true)
            × (h.message_type ≡ method_return → is_some (get_arg0_string pf buffer.bytes) ≡ true))
      → (type ≡ expect_hello
          → (h.message_type ≡ method_return → is_some (get_arg0_string pf buffer.bytes) ≡ true)
            × ((h.message_type == method_return) ≡ false → reason))
      → Delivers reason c (deliver_reply pf c h buffer type)
  unfolding deliver_reply
  deliver_reply-Delivers expect_none r o e = (i, Grows-refl c)
  deliver_reply-Delivers expect_normal r o e = (i, Grows-refl c)
  deliver_reply-Delivers expect_filter r o e = (i, Grows-refl c)
  deliver_reply-Delivers expect_hello r o e = hello-Delivers (e refl).0 (e refl).1
  deliver_reply-Delivers expect_rewrite r o e =
      deliver_rewritten-Delivers (lookup h.reply_serial c.rewrite_reply) (r refl)
  deliver_reply-Delivers expect_fake_get_name_owner r o e =
      deliver_owner-Delivers (o refl).0 (o refl).1
  deliver_reply-Delivers expect_fake_list_names r o e = deliver_list_names-Delivers
  deliver_reply-Delivers expect_list_names r o e =
      if_both (λ d. Delivers reason c (some d)) (h.message_type == method_return)
        {x = record { client = c; buffer = filter_names_list pf c buffer.bytes; live = false }}
        {y = record { client = c; buffer = some buffer; live = true }} (i, Grows-refl c)
        (i, Grows-refl c)
