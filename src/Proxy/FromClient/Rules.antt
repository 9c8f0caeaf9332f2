-- ===== src/Proxy/FromClient/Rules.antt =====
-- The rules for methods of the bus, from the comment at the head of dbus-proxy/xdg-app-proxy.c,
-- and the handlers that get_dbus_method_handler picks for them.
use xdg_app.Prelude.{
  All, Bool, Bool-cases, Bytes, List, Option, Table, [], arith, bytes_eq, codes, direct_eq, false,
  inl, inr, leb, lookup, map, none, not, opt_eq, refl, some, str_eq, str_eq_comm, str_eq_iff, subst,
  sym, true, ◌&&◌, ◌==◌, ◌||◌, ◌∷◌, ◌≡◌, ◌⊎◌,
}
use xdg_app.Proxy.Handler.{
  BusHandler, handle_deny, handle_filter_get_owner_reply, handle_filter_has_owner_reply,
  handle_filter_name_list_reply, handle_pass, handle_validate_own, handle_validate_see,
  handle_validate_talk, is_dbus_method_call, is_one_of, method_handler,
}
use xdg_app.Proxy.Header.{Header, method_call}
use xdg_app.Proxy.Message.{Platform, get_arg0_string}
use xdg_app.Proxy.Names.{client_get_policy}
use xdg_app.Proxy.Policy.{Policy, own, policy_none, rank, see, talk}
use xdg_app.Proxy.State.{Client}

-- The rules for methods of the bus: the policy that the first argument must have, `policy_none`
-- where the method is always allowed. Any other method is refused.
abbrev pub method_rules : Table Bytes Policy
method_rules =
    (codes "Hello", policy_none)
    ∷ (codes "AddMatch", policy_none)
    ∷ (codes "RemoveMatch", policy_none)
    ∷ (codes "GetId", policy_none)
    ∷ (codes "ListNames", policy_none)
    ∷ (codes "ListActivatableNames", policy_none)
    ∷ (codes "RequestName", own)
    ∷ (codes "ReleaseName", own)
    ∷ (codes "ListQueuedOwners", own)
    ∷ (codes "NameHasOwner", see)
    ∷ (codes "GetNameOwner", see)
    ∷ (codes "StartServiceByName", talk)
    ∷ (codes "GetConnectionUnixProcessID", see)
    ∷ (codes "GetConnectionCredentials", see)
    ∷ (codes "GetAdtAuditSessionData", see)
    ∷ (codes "GetConnectionSELinuxSecurityContext", see)
    ∷ (codes "GetConnectionUnixUser", see)
    ∷ []

-- The first argument names something of at least this policy.
abbrev pub name_has : Client → Option Bytes → Policy → Bool
name_has c none required = false
name_has c (some name) required = leb (rank required) (rank (client_get_policy c (some name)))

unfoldable pub arg_has : Platform → Client → Bytes → Policy → Bool
arg_has pf c blob policy_none = true
arg_has pf c blob required = name_has c (get_arg0_string pf blob) required

unfoldable pub rule_allows : Platform → Client → Bytes → Option Policy → Bool
unfolding arg_has
rule_allows pf c blob none = false
rule_allows pf c blob (some required) = arg_has pf c blob required

-- The rule for a method.
abbrev pub rule_of : Option Bytes → Option Policy
rule_of none = none
rule_of (some method) = lookup method method_rules

-- A string of the header is there and is this one.
abbrev reads : Option Bytes → Bytes → Bool
reads none name = false
reads (some s) name = str_eq s name

-- The messages that are judged by their method: those of type 1, a method call, that name the bus
-- as their destination and its interface. The comment in the code speaks of all messages to the
-- bus; a call that names no interface, or another one, goes by the policy of its destination alone.
abbrev pub is_judged : Header → Bool
is_judged h =
    h.message_type == 1
    && (reads h.destination (codes "org.freedesktop.DBus")
        && reads h.interface (codes "org.freedesktop.DBus"))

-- What is allowed of messages that are not replies.
unfoldable pub allows : Platform → Client → Header → Bytes → Bool
unfolding rule_allows
allows pf c h blob =
    leb (rank talk) (rank (client_get_policy c h.destination))
    && (not (is_judged h) || rule_allows pf c blob (rule_of h.member))

-- The handler that the code picks for a method, against its rule.
abbrev pub FitsRule : Option Policy → BusHandler → Type 0
FitsRule none handler = handler ≡ handle_deny
FitsRule (some policy_none) handler =
    (handler ≡ handle_pass) ⊎ (handler ≡ handle_filter_name_list_reply)
FitsRule (some see) handler =
    (handler ≡ handle_validate_see)
    ⊎ (handler ≡ handle_filter_has_owner_reply)
    ⊎ (handler ≡ handle_filter_get_owner_reply)
FitsRule (some talk) handler = handler ≡ handle_validate_talk
FitsRule (some own) handler = handler ≡ handle_validate_own

abbrev IsRight : Bytes → Type 0
IsRight method = FitsRule (lookup method method_rules) (method_handler method)

-- The names that the code knows.
abbrev known_methods : List Bytes
known_methods =
    codes "UpdateActivationEnvironment" ∷ codes "BecomeMonitor" ∷ map (λ r. r.0) method_rules

pub is_judged_lem : (h : Header) → is_dbus_method_call h ≡ is_judged h
unfolding is_dbus_method_call
is_judged_lem h = judged h.destination h.interface
  where
    judged :
        (destination interface : Option Bytes)
        → (h.message_type == method_call
            && opt_eq destination (codes "org.freedesktop.DBus")
            && opt_eq interface (codes "org.freedesktop.DBus"))
          ≡ (h.message_type == 1
              && (reads destination (codes "org.freedesktop.DBus")
                  && reads interface (codes "org.freedesktop.DBus")))
    judged none none = ground arith
    judged none (some i) = ground arith
    judged (some d) none = ground arith
    judged (some d) (some i) = ground arith

known-IsRight : All IsRight known_methods
unfolding method_handler lookup str_eq codes
known-IsRight = (
  refl,
  (
    refl,
    (
      inl refl,
      (
        inl refl,
        (
          inl refl,
          (
            inl refl,
            (
              inr refl,
              (
                inr refl,
                (
                  refl,
                  (
                    refl,
                    (
                      refl,
                      (
                        inr (inl refl),
                        (
                          inr (inr refl),
                          (refl, (inl refl, (inl refl, (inl refl, (inl refl, (inl refl, tt)))))),
                        ),
                      ),
                    ),
                  ),
                ),
              ),
            ),
          ),
        ),
      ),
    ),
  ),
)

All-is_one_of :
    (P : Bytes → Type 0) (names : List Bytes) (method : Bytes)
    → All P names
    → is_one_of method names ≡ true
    → P method
All-is_one_of P [] method h e = cc
All-is_one_of P (name ∷ names) method h e = elim (Bool-cases (str_eq method name)) [
  | inl same ↦ subst P (sym ((str_eq_iff method name).0 same)) h.0
  | inr differ ↦ All-is_one_of P names method h.1 (ground arith)
]

lookup-not_one_of :
    (rules : Table Bytes Policy) (method : Bytes)
    → is_one_of method (map (λ r. r.0) rules) ≡ false
    → lookup method rules ≡ none
unfolding lookup
lookup-not_one_of [] method h = refl
lookup-not_one_of ((name, p) ∷ rules) method h =
    ground (arith, str_eq_comm name method, lookup-not_one_of rules method)

unknown-deny :
    (method : Bytes) → is_one_of method known_methods ≡ false → method_handler method ≡ handle_deny
unfolding method_handler
unknown-deny method h = ground arith

pub method_handler-FitsRule : (method : Bytes) → IsRight method
method_handler-FitsRule method = elim (Bool-cases (is_one_of method known_methods)) [
  | inl known ↦ All-is_one_of IsRight known_methods method known-IsRight known
  | inr unknown ↦
      rw (lookup-not_one_of method_rules method (ground arith)) (unknown-deny method unknown)
]
