-- ===== src/Portal/Flags/Parsing.antt =====
-- Printing permissions and reading them (document-portal/xdp-util.c).
use xdg_app.Portal.Flags.{
  Flags, no_flags, parse_loop, parse_one, parse_permissions, unparse_permissions,
}
use xdg_app.Prelude.{Bool, codes, false, refl, str_eq, true, ◌≡◌}

abbrev bits : Bool → Bool → Bool → Bool → Flags
bits r w g d = record { can_read = r; can_write = w; can_grant = g; can_delete = d }

-- Reading the permissions that were printed gives them back, whatever they are.
pub parse_permissions-unparse_permissions :
    (perms : Flags) → parse_permissions (unparse_permissions perms) ≡ perms
unfolding parse_permissions unparse_permissions parse_loop parse_one no_flags str_eq codes
parse_permissions-unparse_permissions perms =
    go perms.can_read perms.can_write perms.can_grant perms.can_delete
  where
    go : (r w g d : Bool) → parse_permissions (unparse_permissions (bits r w g d)) ≡ bits r w g d
    go false false false false = refl
    go false false false true = refl
    go false false true false = refl
    go false false true true = refl
    go false true false false = refl
    go false true false true = refl
    go false true true false = refl
    go false true true true = refl
    go true false false false = refl
    go true false false true = refl
    go true false true false = refl
    go true false true true = refl
    go true true false false = refl
    go true true false true = refl
    go true true true false = refl
    go true true true true = refl
