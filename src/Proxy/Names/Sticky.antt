-- ===== src/Proxy/Names/Sticky.antt =====
-- The policies of unique ids over time (dbus-proxy/xdg-app-proxy.c).
use xdg_app.Prelude.{
  Bytes, Option, [], arith, bytes_eq, direct_eq, if◌then◌else◌, lookup, lookup-replace, some,
  str_eq, str_eq_iff, ◌∷◌, ◌≡◌, ◌≤◌,
}
use xdg_app.Proxy.Message.{Platform, as_text, body_arg}
use xdg_app.Proxy.Names.{
  name_owner_changed, should_filter_name_owner_changed, update_owner, update_unique_id_policy,
  update_unique_id_policy_from_name, with_owners,
}
use xdg_app.Proxy.Policy.{Policy, get_policy, granted, max_policy, rank}
use xdg_app.Proxy.State.{Client}

-- The policy of a unique id.
abbrev pub id_policy : Client → Bytes → Policy
id_policy c id = granted (lookup id c.unique_id_policy)

-- An update raises the policy of its id to the larger of the two, and leaves every other id alone.
pub id_policy-update_unique_id_policy :
    (c : Client) (unique_id : Bytes) (policy : Policy) (id : Bytes)
    → id_policy (update_unique_id_policy c unique_id policy) id
      ≡ (if str_eq unique_id id then max_policy policy (id_policy c id) else id_policy c id)
unfolding update_unique_id_policy
id_policy-update_unique_id_policy c unique_id policy id =
    ground (arith, lookup-replace unique_id id policy c.unique_id_policy, str_eq_iff unique_id id)

-- No unique id has lost a policy.
abbrev pub Grows : Client → Client → Type 0
Grows c c' = (id : Bytes) → rank (id_policy c id) ≤ rank (id_policy c' id)

pub Grows-refl : (c : Client) → Grows c c
Grows-refl c id = omega arith

pub Grows-trans : (c d e : Client) → Grows c d → Grows d e → Grows c e
Grows-trans c d e f g id = omega (arith, f id, g id)

-- Only the table of policies matters.
pub Grows-same : (c c' : Client) → c'.unique_id_policy ≡ c.unique_id_policy → Grows c c'
Grows-same c c' e id = rw e (omega arith)

rank-max_policy : (p q : Policy) → rank q ≤ rank (max_policy p q)
rank-max_policy p q = ground arith

pub Grows-update :
    (c : Client) (unique_id : Bytes) (policy : Policy)
    → Grows c (update_unique_id_policy c unique_id policy)
Grows-update c unique_id policy id =
    rw (id_policy-update_unique_id_policy c unique_id policy id)
      (ground (arith, rank-max_policy policy (id_policy c id)))

pub Grows-from_name :
    (c : Client) (unique_id as_name : Bytes)
    → Grows c (update_unique_id_policy_from_name c unique_id as_name)
unfolding update_unique_id_policy_from_name
Grows-from_name c unique_id as_name = Grows-update c unique_id (get_policy c.proxy as_name)

Grows-owner : (c : Client) (owner name : Bytes) → Grows c (update_owner c owner name)
Grows-owner c [] name = Grows-refl c
Grows-owner c (b ∷ owner) name = Grows-from_name c (b ∷ owner) name

name_owner_changed-Grows :
    (c : Client) (name old new : Bytes) → Grows c (name_owner_changed c name old new).0
unfolding name_owner_changed
name_owner_changed-Grows c name old new id =
    ground (arith, Grows-owner c old name id, Grows-owner (update_owner c old name) new name id)

with_owners-Grows :
    (c : Client) (name old new : Option Bytes) → Grows c (with_owners c name old new).0
with_owners-Grows c (some name) (some old) (some new) = name_owner_changed-Grows c name old new
with_owners-Grows c _ _ _ = Grows-refl c

pub should_filter_name_owner_changed-Grows :
    (pf : Platform) (c : Client) (blob : Bytes)
    → Grows c (should_filter_name_owner_changed pf c blob).0
unfolding should_filter_name_owner_changed
should_filter_name_owner_changed-Grows pf c blob =
    with_owners-Grows c (as_text (body_arg pf blob 0)) (as_text (body_arg pf blob 1))
      (as_text (body_arg pf blob 2))
