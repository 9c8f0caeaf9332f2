-- ===== src/Proxy/CommandLine/Ending.antt =====
-- The loops over the arguments end (dbus-proxy/dbus-proxy.c).
use xdg_app.Prelude.{
  Bytes, List, [], arith, codes, false, if_both, if_cases, length, none, str_eq, suc, zero, ℕ, ◌+◌,
  ◌<◌, ◌||◌, ◌∷◌, ◌≡◌, ◌≤◌,
}
use xdg_app.Proxy.CommandLine.{
  Globals, Services, is_option, is_policy_option, main, parse_generic_args, policy_option,
  read_option, read_options, run_args, start_proxy,
}
use xdg_app.Proxy.Policy.{Proxy, init}
use xdg_app.Proxy.State.{is_empty}
use xdg_app.Proxy.Wire.{Parsed, crash, invalid, ok, out_of_fuel, ◌>>=◌}
use xdg_app.Proxy.Wire.Ends.{Ends, Ends-bind, Ends-imp}

parse_generic_args-Ends : (g : Globals) (arg : Bytes) → Ends (λ _. Unit) (parse_generic_args g arg)
unfolding parse_generic_args
parse_generic_args-Ends g arg = ground arith

policy_option-Ends :
    (sv : Services) (proxy : Proxy) (arg : Bytes) → Ends (λ _. Unit) (policy_option sv proxy arg)
unfolding policy_option
policy_option-Ends sv proxy arg = ground arith

read_option-Ends :
    (sv : Services) (g : Globals) (proxy : Proxy) (arg : Bytes)
    → Ends (λ _. Unit) (read_option sv g proxy arg)
unfolding read_option
read_option-Ends sv g proxy arg =
    if_both (Ends (λ _. Unit)) (is_policy_option arg)
      (Ends-bind (λ _. Unit) (λ _. Unit) (policy_option sv proxy arg) _
        (policy_option-Ends sv proxy arg) (λ _ _. tt))
      (if_both (Ends (λ _. Unit)) (str_eq arg (codes "--log")) tt (
        if_both (Ends (λ _. Unit)) (str_eq arg (codes "--filter")) tt (
          Ends-bind (λ _. Unit) (λ _. Unit) (parse_generic_args g arg) _
            (parse_generic_args-Ends g arg) (λ _ _. tt))))

-- No more arguments are left than there were.
abbrev Leaves : List Bytes → Globals × Proxy × List Bytes → Type 0
Leaves args (g, proxy, rest) = length rest ≤ length args

read_options-Ends :
    (sv : Services) (g : Globals) (proxy : Proxy) (args : List Bytes)
    → Ends (Leaves args) (read_options sv g proxy args)
unfolding read_options
read_options-Ends sv g proxy [] = omega arith
read_options-Ends sv g proxy (arg ∷ args) =
    if_both (Ends (Leaves (arg ∷ args))) (is_option arg)
      (Ends-bind (λ _. Unit) (Leaves (arg ∷ args)) (read_option sv g proxy arg) _
        (read_option-Ends sv g proxy arg)
        (λ (g', proxy') _.
          Ends-imp (Leaves args) (Leaves (arg ∷ args)) (read_options sv g' proxy' args)
            (read_options-Ends sv g' proxy' args) (λ (g'', proxy'', rest) h. omega (arith, h))))
      (omega arith)

-- The routine ends as `Ends` says, or crashes for the reason given.
abbrev pub EndsOr {ℓ} : {A : Type ℓ} → Type 0 → (A → Type 0) → Parsed A → Type 0
EndsOr U P (ok a) = P a
EndsOr U P invalid = Unit
EndsOr U P crash = U
EndsOr U P out_of_fuel = ⊥

EndsOr-bind {ℓ κ} :
    {A : Type ℓ} {B : Type κ} (U : Type 0) (P : A → Type 0) (Q : B → Type 0) (r : Parsed A)
    (next : A → Parsed B)
    → EndsOr U P r
    → ((a : A) → P a → EndsOr U Q (next a))
    → EndsOr U Q (r >>= next)
EndsOr-bind U P Q (ok a) next h k = k a h
EndsOr-bind U P Q invalid next h k = tt
EndsOr-bind U P Q crash next h k = h
EndsOr-bind U P Q out_of_fuel next h k = h

Ends-or {ℓ} : {A : Type ℓ} (U : Type 0) (P : A → Type 0) (r : Parsed A) → Ends P r → EndsOr U P r
Ends-or U P (ok a) h = h
Ends-or U P invalid h = tt
Ends-or U P crash h = absurd h
Ends-or U P out_of_fuel h = h

-- The program cannot listen on some path.
abbrev pub CannotStart : Services → Type 0
CannotStart sv = (address : Bytes) × (path : Bytes) × (sv.can_start address path ≡ false)

module _ (sv : Services) where
  -- Two arguments at least are used.
  abbrev Uses : List Bytes → Globals × List Bytes → Type 0
  Uses args r = length r.1 + 2 ≤ length args

  start_proxy-EndsOr :
      (g : Globals) (args : List Bytes)
      → EndsOr (CannotStart sv) (Uses args) (start_proxy sv g args)
  unfolding start_proxy
  start_proxy-EndsOr g [] = tt
  start_proxy-EndsOr g (address ∷ []) = tt
  start_proxy-EndsOr g (address ∷ path ∷ args) =
      if_both (EndsOr (CannotStart sv) (Uses (address ∷ path ∷ args)))
        (is_option address || is_option path) tt
        (EndsOr-bind (CannotStart sv) (Leaves args) (Uses (address ∷ path ∷ args))
          (read_options sv g init args) _
          (Ends-or (CannotStart sv) (Leaves args) (read_options sv g init args)
            (read_options-Ends sv g init args))
          (λ (g', proxy, rest) h.
            if_cases (EndsOr (CannotStart sv) (Uses (address ∷ path ∷ args)))
              (sv.can_start address path) (λ started. omega (arith, h))
              (λ closed. (address, path, closed))))

  run_args-EndsOr :
      (fuel : ℕ) (g : Globals) (args : List Bytes)
      → length args < fuel
      → EndsOr (CannotStart sv) (λ _. Unit) (run_args fuel sv g args)
  unfolding run_args
  run_args-EndsOr zero g args enough = ground (arith, enough)
  run_args-EndsOr (suc fuel) g [] enough = tt
  run_args-EndsOr (suc fuel) g (arg ∷ args) enough =
      if_both (EndsOr (CannotStart sv) (λ _. Unit)) (is_option arg)
        (EndsOr-bind (CannotStart sv) (λ _. Unit) (λ _. Unit) (parse_generic_args g arg) _
          (Ends-or (CannotStart sv) (λ _. Unit) (parse_generic_args g arg)
            (parse_generic_args-Ends g arg))
          (λ g' _. run_args-EndsOr fuel g' args (omega (arith, enough))))
        (EndsOr-bind (CannotStart sv) (Uses (arg ∷ args)) (λ _. Unit)
          (start_proxy sv g (arg ∷ args)) _ (start_proxy-EndsOr g (arg ∷ args))
          (λ (g', rest) h. run_args-EndsOr fuel g' rest (omega (arith, h, enough))))

-- For any arguments main ends the loop over them: it exits with an error, goes on to serve one
-- proxy at least, or crashes, and it crashes only where the program cannot listen on some path.
pub main-EndsOr :
    (sv : Services) (args : List Bytes)
    → EndsOr (CannotStart sv) (λ g. is_empty g.proxies ≡ false) (main sv args)
unfolding main
main-EndsOr sv args =
    let begun : Globals = record { proxies = []; sync_fd = none } in
    EndsOr-bind (CannotStart sv) (λ _. Unit) (λ g. is_empty g.proxies ≡ false)
      (run_args (suc (length args)) sv begun args) _
      (run_args-EndsOr sv (suc (length args)) begun args (omega arith))
      (λ g _.
        if_cases (EndsOr (CannotStart sv) (λ g. is_empty g.proxies ≡ false)) (is_empty g.proxies)
          (λ _. tt) (λ some_proxy. some_proxy))
