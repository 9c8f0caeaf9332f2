-- ===== src/Proxy/Policy.antt =====
-- XdgAppPolicy (dbus-proxy/xdg-app-proxy.h) and the policy tables of XdgAppProxy
-- (dbus-proxy/xdg-app-proxy.c). The socket, the bus address and the list of clients of the
-- object are left out.
pub mod Wildcard
use xdg_app.Prelude.{
  Bool, Bytes, Option, Table, [], bytes_eq, codes, direct_eq, false, if◌then◌else◌, leb, lookup,
  ltb, none, replace, some, suc, take, ℕ, ◌==◌, ◌∷◌,
}

-- The enumeration, in its order.
pub data Policy : Type 0 where
  policy_none see talk own : Policy

abbrev pub rank : Policy → ℕ
rank policy_none = 0
rank see = 1
rank talk = 2
rank own = 3

-- The comparisons of the C code go by the numeric value.
abbrev pub policy_lt : Policy → Policy → Bool
policy_lt p q = ltb (rank p) (rank q)

abbrev pub max_policy : Policy → Policy → Policy
max_policy p q = if policy_lt q p then p else q

-- A missing key reads as NULL, that is 0.
abbrev pub granted : Option Policy → Policy
granted none = policy_none
granted (some p) = p

pub record Proxy : Type 0 where
  pub log_messages : Bool
  pub filter : Bool
  pub wildcard_policy : Table Bytes Policy
  pub policy : Table Bytes Policy

-- The index of the last occurrence.
unfoldable pub strrchr : ℕ → Bytes → Option ℕ
strrchr c [] = none
strrchr c (x ∷ s) = elim (strrchr c s) [
  | some i ↦ some (suc i)
  | none ↦ if x == c then some 0 else none
]

unfoldable pub get_wildcard_policy : Proxy → Bytes → Policy
get_wildcard_policy proxy name = elim (strrchr b'.' name) [
  | none ↦ policy_none
  | some dot ↦
      if leb dot 255 then granted (lookup (take dot name) proxy.wildcard_policy) else policy_none
]

unfoldable pub get_policy : Proxy → Bytes → Policy
get_policy proxy name =
    max_policy (granted (lookup name proxy.policy)) (get_wildcard_policy proxy name)

unfoldable pub set_filter : Proxy → Bool → Proxy
set_filter proxy filter = record proxy { filter = filter }

unfoldable pub set_log_messages : Proxy → Bool → Proxy
set_log_messages proxy log = record proxy { log_messages = log }

unfoldable pub add_policy : Proxy → Bytes → Policy → Proxy
add_policy proxy name policy = record proxy { policy = replace name policy proxy.policy }

unfoldable pub add_wildcarded_policy : Proxy → Bytes → Policy → Proxy
add_wildcarded_policy proxy name policy = record proxy {
  wildcard_policy = replace name policy proxy.wildcard_policy;
}

-- xdg_app_proxy_init on a zeroed object.
unfoldable pub init : Proxy
unfolding add_policy
init =
    add_policy (record { log_messages = false; filter = false; wildcard_policy = []; policy = [] })
      (codes "org.freedesktop.DBus") talk
