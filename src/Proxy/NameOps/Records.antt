-- ===== src/Proxy/NameOps/Records.antt =====
-- The made-up messages of the proxy keep its records complete, and count in the serials
-- (dbus-proxy/xdg-app-proxy.c).
use xdg_app.Prelude.{
  Bool, Bytes, List, Table, [], arith, bytes_eq, codes, direct_eq, false, if_both, if◌then◌else◌,
  not, refl, replace, str_eq, true, ◌&&◌, ◌+◌, ◌==◌, ◌∙◌, ◌∷◌, ◌≡◌,
}
use xdg_app.Proxy.Header.{Header, method_return}
use xdg_app.Proxy.Message.{DBusMessage, Platform, as_text_array, body_arg, text}
use xdg_app.Proxy.NameOps.{
  bus_call, names_or_nil, owner_match, queue_add_match, queue_fake_message, queue_get_name_owner,
  queue_initial_name_ops, queue_list_names, queue_name, queue_names,
  queue_wildcard_initial_name_ops, queue_wildcard_name, queue_wildcard_names, queue_wildcards,
}
use xdg_app.Proxy.Names.{is_unique}
use xdg_app.Proxy.Policy.{Policy, get_wildcard_policy, policy_lt, policy_none}
use xdg_app.Proxy.State.{
  Client, ExpectedReplyType, expect_fake_get_name_owner, expect_fake_list_names, expect_filter,
  is_empty, queue_expected_reply, stop_reading,
}
use xdg_app.Proxy.State.Consistent.{
  IsConsistent, IsConsistent-get_owner, IsConsistent-queue, IsConsistent-same, NeedsNone,
}
use xdg_app.Proxy.Wire.{u32}

queue_fake_message-IsConsistent :
    (pf : Platform) (c : Client) (m : DBusMessage) (type : ExpectedReplyType)
    → NeedsNone type
    → IsConsistent c
    → IsConsistent (queue_fake_message pf c m type)
unfolding queue_fake_message
queue_fake_message-IsConsistent pf c m type needs i =
    IsConsistent-same
      (record c { client_side = queue_expected_reply c.client_side (u32 (c.last_serial + 1)) type })
      _ refl refl refl (IsConsistent-queue c (u32 (c.last_serial + 1)) type needs i)

queue_add_match-IsConsistent :
    (pf : Platform) (c : Client) (rule : Bytes)
    → IsConsistent c
    → IsConsistent (queue_add_match pf c rule)
unfolding queue_add_match
queue_add_match-IsConsistent pf c rule i =
    queue_fake_message-IsConsistent pf c (bus_call (codes "AddMatch") (text rule ∷ []))
      expect_filter (λ e. cc, λ e. cc) i

queue_get_name_owner-IsConsistent :
    (pf : Platform) (c : Client) (name : Bytes)
    → IsConsistent c
    → IsConsistent (queue_get_name_owner pf c name)
unfolding queue_get_name_owner
queue_get_name_owner-IsConsistent pf c name i =
    IsConsistent-same
      (record c {
        client_side =
            queue_expected_reply c.client_side (u32 (c.last_serial + 1)) expect_fake_get_name_owner;
        get_owner_reply = replace (u32 (c.last_serial + 1)) name c.get_owner_reply;
      })
      _ refl refl refl (IsConsistent-get_owner c (u32 (c.last_serial + 1)) i c.bus_side name)

-- One step of the loops.
IsConsistent-if :
    (test : Bool) (c c' : Client)
    → IsConsistent c
    → IsConsistent c'
    → IsConsistent (if test then c else c')
IsConsistent-if true c c' i j = i
IsConsistent-if false c c' i j = j

queue_name-IsConsistent :
    (pf : Platform) (c : Client) (name : Bytes)
    → IsConsistent c
    → IsConsistent (queue_name pf c name)
unfolding queue_name
queue_name-IsConsistent pf c name i =
    let rule = owner_match (codes "arg0") name in
    IsConsistent-if (str_eq name (codes "org.freedesktop.DBus")) c
      (queue_get_name_owner pf (queue_add_match pf c rule) name) i
      (queue_get_name_owner-IsConsistent pf (queue_add_match pf c rule) name
        (queue_add_match-IsConsistent pf c rule i))

queue_names-IsConsistent :
    (pf : Platform) (c : Client) (names : Table Bytes Policy)
    → IsConsistent c
    → IsConsistent (queue_names pf c names)
unfolding queue_names
queue_names-IsConsistent pf c [] i = i
queue_names-IsConsistent pf c ((name, policy) ∷ names) i =
    queue_names-IsConsistent pf (queue_name pf c name) names (queue_name-IsConsistent pf c name i)

queue_wildcards-IsConsistent :
    (pf : Platform) (c : Client) (names : Table Bytes Policy)
    → IsConsistent c
    → IsConsistent (queue_wildcards pf c names)
unfolding queue_wildcards
queue_wildcards-IsConsistent pf c [] i = i
queue_wildcards-IsConsistent pf c ((name, policy) ∷ names) i =
    let rule = owner_match (codes "arg0namespace") name in
    queue_wildcards-IsConsistent pf (queue_add_match pf c rule) names
      (queue_add_match-IsConsistent pf c rule i)

queue_list_names-IsConsistent :
    (pf : Platform) (c : Client) → IsConsistent c → IsConsistent (queue_list_names pf c)
unfolding queue_list_names stop_reading
queue_list_names-IsConsistent pf c i =
    IsConsistent-same
      (queue_fake_message pf c (bus_call (codes "ListNames") []) expect_fake_list_names) _ refl refl
      refl
      (queue_fake_message-IsConsistent pf c (bus_call (codes "ListNames") []) expect_fake_list_names
        (λ e. cc, λ e. cc) i)

pub queue_initial_name_ops-IsConsistent :
    (pf : Platform) (c : Client) → IsConsistent c → IsConsistent (queue_initial_name_ops pf c)
unfolding queue_initial_name_ops
queue_initial_name_ops-IsConsistent pf c i =
    let j =
      queue_wildcards-IsConsistent pf (queue_names pf c c.proxy.policy) c.proxy.wildcard_policy
        (queue_names-IsConsistent pf c c.proxy.policy i) in
    let c' = queue_wildcards pf (queue_names pf c c.proxy.policy) c.proxy.wildcard_policy in
    IsConsistent-if (is_empty c.proxy.wildcard_policy) c' (queue_list_names pf c') j
      (queue_list_names-IsConsistent pf c' j)

queue_wildcard_name-IsConsistent :
    (pf : Platform) (c : Client) (name : Bytes)
    → IsConsistent c
    → IsConsistent (queue_wildcard_name pf c name)
unfolding queue_wildcard_name
queue_wildcard_name-IsConsistent pf c name i =
    IsConsistent-if
      (not (is_unique name) && policy_lt policy_none (get_wildcard_policy c.proxy name))
      (queue_get_name_owner pf c name) c (queue_get_name_owner-IsConsistent pf c name i) i

queue_wildcard_names-IsConsistent :
    (pf : Platform) (c : Client) (names : List Bytes)
    → IsConsistent c
    → IsConsistent (queue_wildcard_names pf c names)
unfolding queue_wildcard_names
queue_wildcard_names-IsConsistent pf c [] i = i
queue_wildcard_names-IsConsistent pf c (name ∷ names) i =
    queue_wildcard_names-IsConsistent pf (queue_wildcard_name pf c name) names
      (queue_wildcard_name-IsConsistent pf c name i)

pub queue_wildcard_initial_name_ops-IsConsistent :
    (pf : Platform) (c : Client) (h : Header) (blob : Bytes)
    → IsConsistent c
    → IsConsistent (queue_wildcard_initial_name_ops pf c h blob)
unfolding queue_wildcard_initial_name_ops
queue_wildcard_initial_name_ops-IsConsistent pf c h blob i =
    let names = names_or_nil (as_text_array (body_arg pf blob 0)) in
    IsConsistent-if (h.message_type == method_return) (queue_wildcard_names pf c names) c
      (queue_wildcard_names-IsConsistent pf c names i) i

-- The policies of unique ids are not touched.
queue_wildcard_names-policies :
    (pf : Platform) (c : Client) (names : List Bytes)
    → (queue_wildcard_names pf c names).unique_id_policy ≡ c.unique_id_policy
unfolding queue_wildcard_names queue_fake_message
queue_wildcard_names-policies pf c [] = refl
queue_wildcard_names-policies pf c (name ∷ names) =
    queue_wildcard_names-policies pf (queue_wildcard_name pf c name) names ∙ ground arith

pub queue_wildcard_initial_name_ops-policies :
    (pf : Platform) (c : Client) (h : Header) (blob : Bytes)
    → (queue_wildcard_initial_name_ops pf c h blob).unique_id_policy ≡ c.unique_id_policy
unfolding queue_wildcard_initial_name_ops
queue_wildcard_initial_name_ops-policies pf c h blob =
    if_both (λ (x : Client). x.unique_id_policy ≡ c.unique_id_policy)
      (h.message_type == method_return)
      (queue_wildcard_names-policies pf c (names_or_nil (as_text_array (body_arg pf blob 0)))) refl
