-- ===== src/Proxy/CommandLine/Options.antt =====
-- A policy option is read as it is meant (dbus-proxy/dbus-proxy.c).
use xdg_app.Prelude.{
  Bytes, [], ap, arith, codes, drop-length, false, get_elem?, leb, length, length-append, refl,
  str_eq_refl, take, true, ◌++◌, ◌-◌, ◌∷◌, ◌≡◌, ◌≢◌,
}
use xdg_app.Proxy.CommandLine.{Services, after_equals, has_suffix, option_policy, policy_option}
use xdg_app.Proxy.Names.{is_unique}
use xdg_app.Proxy.Policy.{
  Policy, Proxy, add_policy, add_wildcarded_policy, own, policy_none, see, talk,
}
use xdg_app.Proxy.Wire.{ok}

-- The word that asks for a policy.
abbrev pub option_word : Policy → Bytes
option_word policy_none = []
option_word see = codes "--see="
option_word talk = codes "--talk="
option_word own = codes "--own="

word-policy :
    (q : Policy) (name : Bytes)
    → q ≢ policy_none
    → (after_equals (option_word q ++ name) ≡ name)
      × (option_policy (get_elem? (option_word q ++ name) 2) ≡ q)
unfolding codes after_equals
word-policy policy_none name h = absurd (h refl)
word-policy see name h = (refl, refl)
word-policy talk name h = (refl, refl)
word-policy own name h = (refl, refl)

suffix-append : (name suffix : Bytes) → has_suffix (name ++ suffix) suffix ≡ true
suffix-append name suffix =
    let e : length (name ++ suffix) - length suffix ≡ length name =
      omega (arith, length-append name suffix) in
    let f : leb (length suffix) (length (name ++ suffix)) ≡ true =
      ground (arith, length-append name suffix) in
    rw (f, e, drop-length name suffix) (str_eq_refl suffix)

take_name : (name suffix : Bytes) → take (length name) (name ++ suffix) ≡ name
take_name [] suffix = refl
take_name (c ∷ name) suffix = ap (λ t. c ∷ t) (take_name name suffix)

cut_length : (name : Bytes) → length (name ++ codes ".*") - 2 ≡ length name
unfolding codes
cut_length name = omega (arith, length-append name (codes ".*"))

-- An option that asks for SEE, TALK or OWN on a valid name is read as that policy on the name, and
-- one on the name with `.*` behind it as that policy for the wildcard; the name may be no unique id,
-- and may not end in `.*` itself.
pub policy_option_lem :
    (sv : Services) (p : Proxy) (q : Policy) (name : Bytes)
    → q ≢ policy_none
    → is_unique name ≡ false
    → sv.is_name name ≡ true
    → has_suffix name (codes ".*") ≡ false
    → (policy_option sv p (option_word q ++ name) ≡ ok (add_policy p name q))
      × (policy_option sv p (option_word q ++ (name ++ codes ".*"))
          ≡ ok (add_wildcarded_policy p name q))
unfolding policy_option
policy_option_lem sv p q name h unique valid plain_name =
    let (e, f) = word-policy q name h in
    let (e', f') = word-policy q (name ++ codes ".*") h in
    let cut : take (length (name ++ codes ".*") - 2) (name ++ codes ".*") ≡ name =
      rw (cut_length name) (take_name name (codes ".*")) in
    (
      rw (e, f, plain_name, unique, valid) refl,
      rw (e', f', suffix-append name (codes ".*"), cut, unique, valid) refl,
    )
