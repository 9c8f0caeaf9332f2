-- ===== src/Proxy/NameOps/Counts.antt =====
-- How many messages the proxy makes up, and that each counts in both serials
-- (queue_fake_message to queue_wildcard_initial_name_ops of dbus-proxy/xdg-app-proxy.c).
use xdg_app.Prelude.{
  Bool-cases, Bytes, List, Table, [], ap, append-nil, append_assoc, arith, bytes_eq, codes,
  direct_eq, if◌then◌else◌, inl, inr, length, length-append, refl, str_eq, subst, sym, ℕ, ◌++◌, ◌+◌,
  ◌∙◌, ◌∷◌, ◌≡◌,
}
use xdg_app.Proxy.Message.{DBusMessage, Platform, text}
use xdg_app.Proxy.NameOps.{
  bus_call, owner_match, queue_add_match, queue_fake_message, queue_get_name_owner,
  queue_initial_name_ops, queue_list_names, queue_name, queue_names, queue_wildcards,
}
use xdg_app.Proxy.Policy.{Policy, Proxy}
use xdg_app.Proxy.State.{
  Buffer, Client, ExpectedReplyType, expect_fake_get_name_owner, expect_fake_list_names,
  expect_filter, is_empty, message_to_buffer, queue_expected_reply, queue_outgoing_buffer,
}
use xdg_app.Proxy.Wire.{u32}

-- The proxy put n messages of its own on the queue to the bus, behind what stood there. The last
-- serial and the offset have grown by n, modulo 2 ^ 32. The policies are as they were.
pub record Queues (c c' : Client) (n : ℕ) : Type 0 where
  pub extra : List Buffer
  pub count : length extra ≡ n
  pub order : c'.bus_side.buffers ≡ c.bus_side.buffers ++ extra
  pub offset : u32 c'.serial_offset ≡ u32 (c.serial_offset + n)
  pub serial : u32 c'.last_serial ≡ u32 (c.last_serial + n)
  pub policies : c'.unique_id_policy ≡ c.unique_id_policy
  pub names : c'.proxy ≡ c.proxy

Queues-none : (c : Client) → Queues c c 0
Queues-none c = record {
  extra = [];
  count = refl;
  order = sym (append-nil c.bus_side.buffers);
  offset = omega arith;
  serial = omega arith;
  policies = refl;
  names = refl;
}

Queues-trans : (c d e : Client) (n m : ℕ) → Queues c d n → Queues d e m → Queues c e (n + m)
Queues-trans c d e n m p q = record {
  extra = p.extra ++ q.extra;
  count = omega (arith, length-append p.extra q.extra, p.count, q.count);
  order =
      q.order ∙ (ap (λ x. x ++ q.extra) p.order ∙ append_assoc c.bus_side.buffers p.extra q.extra);
  offset = omega (arith, p.offset, q.offset);
  serial = omega (arith, p.serial, q.serial);
  policies = q.policies ∙ p.policies;
  names = q.names ∙ p.names;
}

queue_fake_message-Queues :
    (pf : Platform) (c : Client) (m : DBusMessage) (type : ExpectedReplyType)
    → Queues c (queue_fake_message pf c m type) 1
unfolding queue_fake_message queue_outgoing_buffer queue_expected_reply
queue_fake_message-Queues pf c m type = record {
  extra =
      record (message_to_buffer pf (record m { serial = u32 (c.last_serial + 1) })) { pos = 0 }
      ∷ [];
  count = refl;
  order = refl;
  offset = omega arith;
  serial = omega arith;
  policies = refl;
  names = refl;
}

queue_add_match-Queues :
    (pf : Platform) (c : Client) (rule : Bytes) → Queues c (queue_add_match pf c rule) 1
unfolding queue_add_match
queue_add_match-Queues pf c rule =
    queue_fake_message-Queues pf c (bus_call (codes "AddMatch") (text rule ∷ [])) expect_filter

queue_get_name_owner-Queues :
    (pf : Platform) (c : Client) (name : Bytes) → Queues c (queue_get_name_owner pf c name) 1
unfolding queue_get_name_owner
queue_get_name_owner-Queues pf c name =
    let q =
      queue_fake_message-Queues pf c (bus_call (codes "GetNameOwner") (text name ∷ []))
        expect_fake_get_name_owner in
    record {
      extra = q.extra;
      count = q.count;
      order = q.order;
      offset = q.offset;
      serial = q.serial;
      policies = q.policies;
      names = q.names;
    }

-- The messages for a name of the policy: a match rule and a question, but for the bus itself.
abbrev for_name : Bytes → ℕ
for_name name = if str_eq name (codes "org.freedesktop.DBus") then 0 else 2

abbrev pub for_names : Table Bytes Policy → ℕ
for_names [] = 0
for_names ((name, policy) ∷ names) = for_name name + for_names names

queue_name-Queues :
    (pf : Platform) (c : Client) (name : Bytes) → Queues c (queue_name pf c name) (for_name name)
unfolding queue_name
queue_name-Queues pf c name = elim (Bool-cases (str_eq name (codes "org.freedesktop.DBus"))) [
  | inl bus ↦ rw bus (Queues-none c)
  | inr other ↦ rw other (
      let c' = queue_add_match pf c (owner_match (codes "arg0") name) in
      Queues-trans c c' (queue_get_name_owner pf c' name) 1 1
        (queue_add_match-Queues pf c (owner_match (codes "arg0") name))
        (queue_get_name_owner-Queues pf c' name))
]

queue_names-Queues :
    (pf : Platform) (c : Client) (names : Table Bytes Policy)
    → Queues c (queue_names pf c names) (for_names names)
unfolding queue_names
queue_names-Queues pf c [] = Queues-none c
queue_names-Queues pf c ((name, policy) ∷ names) =
    Queues-trans c (queue_name pf c name) (queue_names pf (queue_name pf c name) names)
      (for_name name) (for_names names) (queue_name-Queues pf c name)
      (queue_names-Queues pf (queue_name pf c name) names)

queue_wildcards-Queues :
    (pf : Platform) (c : Client) (names : Table Bytes Policy)
    → Queues c (queue_wildcards pf c names) (length names)
unfolding queue_wildcards
queue_wildcards-Queues pf c [] = Queues-none c
queue_wildcards-Queues pf c ((name, policy) ∷ names) =
    let c' = queue_add_match pf c (owner_match (codes "arg0namespace") name) in
    subst (Queues c (queue_wildcards pf c' names)) (omega arith) (
      Queues-trans c c' (queue_wildcards pf c' names) 1 (length names)
        (queue_add_match-Queues pf c (owner_match (codes "arg0namespace") name))
        (queue_wildcards-Queues pf c' names))

queue_list_names-Queues : (pf : Platform) (c : Client) → Queues c (queue_list_names pf c) 1
unfolding queue_list_names
queue_list_names-Queues pf c =
    let q =
      queue_fake_message-Queues pf c (bus_call (codes "ListNames") []) expect_fake_list_names in
    record {
      extra = q.extra;
      count = q.count;
      order = q.order;
      offset = q.offset;
      serial = q.serial;
      policies = q.policies;
      names = q.names;
    }

-- The number of messages for the policy of a proxy.
abbrev pub initial_name_ops : Proxy → ℕ
initial_name_ops p =
    for_names p.policy + (length p.wildcard_policy + (if is_empty p.wildcard_policy then 0 else 1))

-- After Hello the proxy queues two messages for each name of its policy but the bus's own, one
-- for each wildcard, and one more if there are wildcards; they stand behind all that was queued.
-- The last serial and the serial offset grow by their number, modulo 2 ^ 32. The policy of the
-- proxy and the policies of unique ids stay as they are.
pub queue_initial_name_ops-Queues :
    (pf : Platform) (c : Client) → Queues c (queue_initial_name_ops pf c) (initial_name_ops c.proxy)
unfolding queue_initial_name_ops
queue_initial_name_ops-Queues pf c =
    let c1 = queue_names pf c c.proxy.policy in
    let c2 = queue_wildcards pf c1 c.proxy.wildcard_policy in
    let n = length c.proxy.wildcard_policy in
    let q = queue_wildcards-Queues pf c1 c.proxy.wildcard_policy in
    Queues-trans c c1 _ (for_names c.proxy.policy) _ (queue_names-Queues pf c c.proxy.policy)
      (elim (Bool-cases (is_empty c.proxy.wildcard_policy)) [
        | inl empty ↦ rw empty (Queues-trans c1 c2 c2 n 0 q (Queues-none c2))
        | inr rest ↦
            rw rest
              (Queues-trans c1 c2 (queue_list_names pf c2) n 1 q (queue_list_names-Queues pf c2))
      ])
