-- ===== src/Proxy/Names.antt =====
-- The policy of names and unique ids for one client, and the filters that go by it:
-- xdg_app_proxy_client_get_policy to should_filter_name_owner_changed of
-- dbus-proxy/xdg-app-proxy.c.
pub mod Sticky
pub mod Frame
pub mod Visible
use xdg_app.Prelude.{
  Bool, Bytes, List, Option, [], bytes_eq, codes, direct_eq, false, if◌then◌else◌, leb, lookup,
  none, opt_eq, replace, some, true, ◌&&◌, ◌==◌, ◌∷◌,
}
use xdg_app.Proxy.Header.{Header, signal}
use xdg_app.Proxy.Message.{
  DBusMessage, Platform, as_text, as_text_array, body_arg, get_arg0_string, text_array, tuple,
}
use xdg_app.Proxy.Policy.{Policy, get_policy, granted, policy_lt, policy_none, rank, see, talk}
use xdg_app.Proxy.State.{Buffer, Client, message_to_buffer}

-- `name[0] == ':'`
abbrev pub is_unique : Bytes → Bool
is_unique [] = false
is_unique (c ∷ name) = c == b':'

-- `name[0] != 0` of a C string
abbrev pub is_nonempty : Bytes → Bool
is_nonempty [] = false
is_nonempty (c ∷ name) = true

-- xdg_app_proxy_client_get_policy
unfoldable pub client_get_policy : Client → Option Bytes → Policy
client_get_policy c none = talk
client_get_policy c (some source) =
    if is_unique source
    then granted (lookup source c.unique_id_policy)
    else get_policy c.proxy source

-- xdg_app_proxy_client_update_unique_id_policy
unfoldable pub update_unique_id_policy : Client → Bytes → Policy → Client
update_unique_id_policy c unique_id policy =
    let old_policy = granted (lookup unique_id c.unique_id_policy) in
    if policy_lt policy_none policy && policy_lt old_policy policy
    then record c { unique_id_policy = replace unique_id policy c.unique_id_policy }
    else c

-- xdg_app_proxy_client_update_unique_id_policy_from_name
unfoldable pub update_unique_id_policy_from_name : Client → Bytes → Bytes → Client
unfolding update_unique_id_policy
update_unique_id_policy_from_name c unique_id as_name =
    update_unique_id_policy c unique_id (get_policy c.proxy as_name)

-- validate_arg0_name, for the first argument of the message: the result, and the policy that is
-- stored through `has_policy`.
abbrev pub validate_name : Client → Option Bytes → Policy → Bool × Policy
validate_name c none required = (false, policy_none)
validate_name c (some name) required =
    let name_policy = client_get_policy c (some name) in
    (leb (rank required) (rank name_policy), name_policy)

unfoldable pub validate_arg0_name : Platform → Client → Bytes → Policy → Bool × Policy
unfolding get_arg0_string
validate_arg0_name pf c blob required = validate_name c (get_arg0_string pf blob) required

-- The loop over the names.
unfoldable pub visible_names : Client → List Bytes → List Bytes
visible_names c [] = []
visible_names c (name ∷ names) =
    let rest = visible_names c names in
    if leb (rank see) (rank (client_get_policy c (some name))) then name ∷ rest else rest

abbrev pub set_names : DBusMessage → List Bytes → DBusMessage
set_names m names = record m { body = some (tuple (text_array names ∷ [])) }

-- filter_names_list: `none` where the C code returns NULL.
unfoldable pub filter_names_list : Platform → Client → Bytes → Option Buffer
unfolding visible_names message_to_buffer body_arg
filter_names_list pf c blob = elim (pf.from_blob blob) [
  | none ↦ none
  | some m ↦ elim (as_text_array (body_arg pf blob 0)) [
    | none ↦ none
    | some names ↦ some (message_to_buffer pf (set_names m (visible_names c names)))
  ]
]

-- message_is_name_owner_changed, for a header whose strings can be read.
unfoldable pub message_is_name_owner_changed : Header → Bool
message_is_name_owner_changed h =
    h.message_type == signal
    && opt_eq h.sender (codes "org.freedesktop.DBus")
    && opt_eq h.interface (codes "org.freedesktop.DBus")
    && opt_eq h.member (codes "NameOwnerChanged")

abbrev pub update_owner : Client → Bytes → Bytes → Client
update_owner c owner name =
    if is_nonempty owner then update_unique_id_policy_from_name c owner name else c

-- should_filter_name_owner_changed on the three arguments.
unfoldable pub name_owner_changed : Client → Bytes → Bytes → Bytes → Client × Bool
name_owner_changed c name old new =
    if leb (rank see) (rank (client_get_policy c (some name)))
    then (if is_unique name then c else update_owner (update_owner c old name) new name, false)
    else (c, true)

abbrev pub with_owners : Client → Option Bytes → Option Bytes → Option Bytes → Client × Bool
with_owners c (some name) (some old) (some new) = name_owner_changed c name old new
with_owners c _ _ _ = (c, true)

unfoldable pub should_filter_name_owner_changed : Platform → Client → Bytes → Client × Bool
unfolding name_owner_changed body_arg
should_filter_name_owner_changed pf c blob =
    with_owners c (as_text (body_arg pf blob 0)) (as_text (body_arg pf blob 1))
      (as_text (body_arg pf blob 2))
