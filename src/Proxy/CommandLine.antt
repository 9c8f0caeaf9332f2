-- ===== src/Proxy/CommandLine.antt =====
-- The command line of the proxy: parse_generic_args, start_proxy and main of
-- dbus-proxy/dbus-proxy.c.
pub mod Options
pub mod Ending
use xdg_app.Prelude.{
  Bool, Bytes, List, Option, [], codes, drop, false, get_elem?, if◌then◌else◌, leb, length, ltb,
  min, none, not, some, str_eq, suc, take, true, zero, ℕ, ◌%◌, ◌&&◌, ◌*◌, ◌+◌, ◌-◌, ◌==◌, ◌||◌, ◌∷◌,
}
use xdg_app.Proxy.Names.{is_unique}
use xdg_app.Proxy.Policy.{
  Policy, Proxy, add_policy, add_wildcarded_policy, init, own, see, set_filter, set_log_messages,
  talk,
}
use xdg_app.Proxy.State.{is_empty}
use xdg_app.Proxy.Wire.{Parsed, crash, invalid, ok, out_of_fuel, ◌>>=◌}

-- A proxy that listens.
pub record Running : Type 0 where
  pub proxy : Proxy
  pub bus_address : Bytes
  pub socket_path : Bytes

-- The two globals; `sync_fd` is `none` for -1.
pub record Globals : Type 0 where
  pub proxies : List Running
  pub sync_fd : Option ℕ

-- What the program asks of GLib and the system: g_dbus_is_name, and whether it can listen on a
-- path for the proxy of an address.
pub record Services : Type 0 where
  pub is_name : Bytes → Bool
  pub can_start : Bytes → Bytes → Bool

abbrev pub has_prefix : Bytes → Bytes → Bool
has_prefix s prefix = str_eq (take (length prefix) s) prefix

abbrev pub has_suffix : Bytes → Bytes → Bool
has_suffix s suffix =
    leb (length suffix) (length s) && str_eq (drop (length s - length suffix) s) suffix

-- `args[n][0] == '-'`
abbrev pub is_option : Bytes → Bool
is_option [] = false
is_option (c ∷ arg) = c == b'-'

abbrev is_space : ℕ → Bool
is_space c = c == b' ' || (leb 9 c && leb c 13)

abbrev is_digit : ℕ → Bool
is_digit c = leb b'0' c && leb c b'9'

abbrev skip_spaces : Bytes → Bytes
skip_spaces [] = []
skip_spaces (c ∷ s) = let rest = skip_spaces s in if is_space c then rest else c ∷ s

-- The value of the digits at the start, and what follows them.
abbrev digits : ℕ → Bytes → ℕ × Bytes
digits value [] = (value, [])
digits value (c ∷ s) =
    let rest = digits (value * 10 + (c - b'0')) s in if is_digit c then rest else (value, c ∷ s)

-- A number of 32 bits as an int that is not negative.
abbrev int_of : ℕ → Option ℕ
int_of w = if ltb w 2147483648 then some w else none

-- The int that strtol gives for the digits, cut to the range of long.
abbrev fd_of : Bool → ℕ → Option ℕ
fd_of false value = int_of (min value 9223372036854775807 % 4294967296)
fd_of true value = int_of ((18446744073709551616 - min value 9223372036854775808) % 4294967296)

-- The digits after the sign, to the end of the string.
abbrev read_digits : Bool → Bytes → Option ℕ
read_digits negative [] = none
read_digits negative (c ∷ s) =
    let (value, rest) = digits 0 (c ∷ s) in
    if is_digit c && is_empty rest then fd_of negative value else none

abbrev read_sign : Bytes → Option ℕ
read_sign [] = none
read_sign (c ∷ s) =
    if c == b'-'
    then read_digits true s
    else if c == b'+'
    then read_digits false s
    else read_digits false (c ∷ s)

-- The descriptor, if strtol reads one that is not negative and there is nothing behind it.
unfoldable pub read_fd : Bytes → Option ℕ
read_fd s = read_sign (skip_spaces s)

unfoldable pub parse_generic_args : Globals → Bytes → Parsed Globals
unfolding read_fd
parse_generic_args g arg =
    if has_prefix arg (codes "--fd=")
    then elim (read_fd (drop 5 arg)) [
      | none ↦ invalid
      | some fd ↦ ok (record g { sync_fd = some fd })
    ]
    else invalid

-- `strchr (arg, '=') + 1`
unfoldable pub after_equals : Bytes → Bytes
after_equals [] = []
after_equals (c ∷ arg) = let rest = after_equals arg in if c == b'=' then arg else rest

abbrev pub is_policy_option : Bytes → Bool
is_policy_option arg =
    has_prefix arg (codes "--see=")
    || has_prefix arg (codes "--talk=")
    || has_prefix arg (codes "--own=")

-- `args[n][2]`
abbrev pub option_policy : Option ℕ → Policy
option_policy none = see
option_policy (some c) = if c == b't' then talk else if c == b'o' then own else see

-- The branch for a policy.
unfoldable pub policy_option : Services → Proxy → Bytes → Parsed Proxy
unfolding after_equals add_policy add_wildcarded_policy
policy_option sv proxy arg =
    let policy = option_policy (get_elem? arg 2) in
    let name = after_equals arg in
    let wildcard = has_suffix name (codes ".*") in
    let name' = if wildcard then take (length name - 2) name else name in
    if is_unique name' || not (sv.is_name name')
    then invalid
    else ok (
        if wildcard
        then add_wildcarded_policy proxy name' policy
        else add_policy proxy name' policy)

-- The body of the loop over options.
unfoldable pub read_option : Services → Globals → Proxy → Bytes → Parsed (Globals × Proxy)
unfolding policy_option set_filter set_log_messages parse_generic_args
read_option sv g proxy arg =
    if is_policy_option arg
    then policy_option sv proxy arg >>= (λ proxy'. ok (g, proxy'))
    else if str_eq arg (codes "--log")
    then ok (g, set_log_messages proxy true)
    else if str_eq arg (codes "--filter")
    then ok (g, set_filter proxy true)
    else parse_generic_args g arg >>= (λ g'. ok (g', proxy))

-- The loop: what it leaves are the arguments from the first that is no option.
unfoldable pub read_options :
    Services → Globals → Proxy → List Bytes → Parsed (Globals × Proxy × List Bytes)
unfolding read_option
read_options sv g proxy [] = ok (g, proxy, [])
read_options sv g proxy (arg ∷ args) =
    if is_option arg
    then read_option sv g proxy arg >>= (λ (g', proxy'). read_options sv g' proxy' args)
    else ok (g, proxy, arg ∷ args)

-- start_proxy, with the arguments that are left. It crashes if it cannot listen, since
-- xdg_app_proxy_start sets no error and the message of the error is printed.
unfoldable pub start_proxy : Services → Globals → List Bytes → Parsed (Globals × List Bytes)
unfolding read_options init
start_proxy sv g (bus_address ∷ socket_path ∷ args) =
    if is_option bus_address || is_option socket_path
    then invalid
    else read_options sv g init args >>= (λ (g', proxy, rest).
      if sv.can_start bus_address socket_path
      then ok (
        record g' {
          proxies =
              record { proxy = proxy; bus_address = bus_address; socket_path = socket_path }
              ∷ g'.proxies;
        },
        rest,
      )
      else crash)
start_proxy sv g _ = invalid

-- The loop of main.
unfoldable pub run_args : ℕ → Services → Globals → List Bytes → Parsed Globals
unfolding parse_generic_args start_proxy
run_args zero sv g args = out_of_fuel
run_args (suc fuel) sv g [] = ok g
run_args (suc fuel) sv g (arg ∷ args) =
    if is_option arg
    then parse_generic_args g arg >>= (λ g'. run_args fuel sv g' args)
    else start_proxy sv g (arg ∷ args) >>= (λ (g', rest). run_args fuel sv g' rest)

-- main, up to its main loop: the globals, or the exit with status 1.
unfoldable pub main : Services → List Bytes → Parsed Globals
unfolding run_args
main sv args =
    run_args (suc (length args)) sv (record { proxies = []; sync_fd = none }) args
    >>= (λ g. if is_empty g.proxies then invalid else ok g)
