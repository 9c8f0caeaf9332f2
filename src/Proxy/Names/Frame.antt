-- ===== src/Proxy/Names/Frame.antt =====
-- Learning the owner of a name, and the policies (dbus-proxy/xdg-app-proxy.c).
use xdg_app.Prelude.{Bytes, Option, [], ap, arith, refl, some, ◌∙◌, ◌∷◌, ◌≡◌}
use xdg_app.Proxy.Message.{Platform, as_text, body_arg}
use xdg_app.Proxy.Names.{
  name_owner_changed, should_filter_name_owner_changed, update_owner, update_unique_id_policy,
  update_unique_id_policy_from_name, with_owners,
}
use xdg_app.Proxy.Policy.{Policy, get_policy}
use xdg_app.Proxy.State.{Client}

abbrev pub OnlyPolicies : Client → Client → Type 0
OnlyPolicies c c' = c' ≡ record c { unique_id_policy = c'.unique_id_policy }

pub OnlyPolicies-update :
    (c : Client) (unique_id : Bytes) (policy : Policy)
    → OnlyPolicies c (update_unique_id_policy c unique_id policy)
unfolding update_unique_id_policy
OnlyPolicies-update c unique_id policy = ground arith

pub OnlyPolicies-from_name :
    (c : Client) (unique_id as_name : Bytes)
    → OnlyPolicies c (update_unique_id_policy_from_name c unique_id as_name)
unfolding update_unique_id_policy_from_name
OnlyPolicies-from_name c unique_id as_name =
    OnlyPolicies-update c unique_id (get_policy c.proxy as_name)

OnlyPolicies-trans : (c d e : Client) → OnlyPolicies c d → OnlyPolicies d e → OnlyPolicies c e
OnlyPolicies-trans c d e p q =
    q ∙ ap {A = Client} (λ x. record x { unique_id_policy = e.unique_id_policy }) p

OnlyPolicies-owner : (c : Client) (owner name : Bytes) → OnlyPolicies c (update_owner c owner name)
OnlyPolicies-owner c [] name = refl
OnlyPolicies-owner c (b ∷ owner) name = OnlyPolicies-from_name c (b ∷ owner) name

name_owner_changed-OnlyPolicies :
    (c : Client) (name old new : Bytes) → OnlyPolicies c (name_owner_changed c name old new).0
unfolding name_owner_changed
name_owner_changed-OnlyPolicies c name old new = ground (
  arith,
  OnlyPolicies-trans c (update_owner c old name) (update_owner (update_owner c old name) new name)
      (OnlyPolicies-owner c old name) (OnlyPolicies-owner (update_owner c old name) new name),
)

with_owners-OnlyPolicies :
    (c : Client) (name old new : Option Bytes) → OnlyPolicies c (with_owners c name old new).0
with_owners-OnlyPolicies c (some name) (some old) (some new) =
    name_owner_changed-OnlyPolicies c name old new
with_owners-OnlyPolicies c _ _ _ = refl

pub should_filter_name_owner_changed-OnlyPolicies :
    (pf : Platform) (c : Client) (blob : Bytes)
    → OnlyPolicies c (should_filter_name_owner_changed pf c blob).0
unfolding should_filter_name_owner_changed
should_filter_name_owner_changed-OnlyPolicies pf c blob =
    with_owners-OnlyPolicies c (as_text (body_arg pf blob 0)) (as_text (body_arg pf blob 1))
      (as_text (body_arg pf blob 2))
