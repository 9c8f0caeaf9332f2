-- ===== src/Proxy/Policy/Wildcard.antt =====
-- Which names a wildcard of the proxy matches, and how the two tables combine
-- (dbus-proxy/xdg-app-proxy.c).
use xdg_app.Prelude.{
  All, Bool-cases, Bytes, Option, [], arith, bytes_eq, direct_eq, if◌then◌else◌, inl, inr, leb,
  leb→le, length, lookup, lookup-replace, none, refl, replace, some, str_eq, take, ℕ, ◌++◌, ◌==◌,
  ◌↔◌, ◌∷◌, ◌≡◌, ◌≢◌, ◌≤◌,
}
use xdg_app.Proxy.Policy.{
  Policy, Proxy, add_policy, add_wildcarded_policy, get_policy, get_wildcard_policy, granted,
  max_policy, policy_none, strrchr,
}

-- A component of a bus name.
abbrev pub NoDot : Bytes → Type 0
NoDot s = All (λ c. c ≢ b'.') s

strrchr-NoDot : (s : Bytes) → NoDot s → strrchr b'.' s ≡ none
unfolding strrchr
strrchr-NoDot [] h = refl
strrchr-NoDot (c ∷ s) h = ground (arith, strrchr-NoDot s h.1)

strrchr-last : (s t : Bytes) → NoDot t → strrchr b'.' (s ++ b'.' ∷ t) ≡ some (length s)
unfolding strrchr
strrchr-last [] t h = ground (arith, strrchr-NoDot t h)
strrchr-last (c ∷ s) t h = ground (arith, strrchr-last s t h)

take-length : (s t : Bytes) → take (length s) (s ++ t) ≡ s
take-length [] t = refl
take-length (c ∷ s) t = ground (arith, take-length s t)

-- Every name is one component, or a parent, a dot and one component.
pub data Split : Bytes → Type 0 where
  single : {s : Bytes} → NoDot s → Split s
  child : (s t : Bytes) {u : Bytes} → NoDot t → u ≡ s ++ b'.' ∷ t → Split u

split_cons : (c : ℕ) (s : Bytes) → Split s → Split (c ∷ s)
split_cons c s (single h) = elim (Bool-cases (c == b'.')) [
  | inl e ↦ child [] s h (ground arith)
  | inr e ↦ single (ground arith, h)
]
split_cons c s (child p t h e) = child (c ∷ p) t h (ground arith)

pub split : (s : Bytes) → Split s
split [] = single tt
split (c ∷ s) = split_cons c s (split s)

-- A name with a parent has the policy of the wildcard on that parent.
pub get_wildcard_policy-child :
    (p : Proxy) (s t : Bytes)
    → NoDot t
    → get_wildcard_policy p (s ++ b'.' ∷ t)
      ≡ (if leb (length s) 255 then granted (lookup s p.wildcard_policy) else policy_none)
unfolding get_wildcard_policy
get_wildcard_policy-child p s t h = ground (arith, strrchr-last s t h, take-length s (b'.' ∷ t))

get_wildcard_policy-single :
    (p : Proxy) (s : Bytes) → NoDot s → get_wildcard_policy p s ≡ policy_none
unfolding get_wildcard_policy
get_wildcard_policy-single p s h = ground (arith, strrchr-NoDot s h)

granted-some : (o : Option Policy) (q : Policy) → q ≢ policy_none → granted o ≡ q → o ≡ some q
granted-some o q h e = ground arith

-- What a wildcard `s` with policy `q` says of a name.
abbrev pub Covers : Proxy → Policy → Bytes → Type 0
Covers p q name =
    (s t : Bytes) × (name ≡ s ++ b'.' ∷ t)
    × NoDot t
    × (length s ≤ 255)
    × (lookup s p.wildcard_policy ≡ some q)

covered :
    (p : Proxy) (name : Bytes) (q : Policy)
    → q ≢ policy_none
    → Split name
    → get_wildcard_policy p name ≡ q
    → Covers p q name
covered p name q h (single n) e = absurd (h (ground (arith, get_wildcard_policy-single p name n)))
covered p name q h (child s t n split_at) e = elim (Bool-cases (leb (length s) 255)) [
  | inl fits ↦ (s, t, split_at, n, leb→le _ _ fits, granted-some _ q h (ground (arith, found)))
  | inr long ↦ absurd (h (ground (arith, found)))
]
  where
    found :
        get_wildcard_policy p name
        ≡ (if leb (length s) 255 then granted (lookup s p.wildcard_policy) else policy_none)
    found = rw split_at (get_wildcard_policy-child p s t n)

-- A wildcard gives a name the policy `q` above NONE exactly when the name is a parent of at most
-- 255 bytes, a dot and one component with no dot, and the wildcard table has `q` at the parent.
pub get_wildcard_policy_iff :
    (p : Proxy) (name : Bytes) (q : Policy)
    → q ≢ policy_none
    → (get_wildcard_policy p name ≡ q) ↔ Covers p q name
get_wildcard_policy_iff p name q h = (
  covered p name q h (split name),
  λ (s, t, e, n, fits, found). rw (e, get_wildcard_policy-child p s t n) (ground arith),
)

-- After `add_policy` the named entry combines with the wildcards as the larger of the two, and
-- the policy of every other name is what it was.
pub get_policy-add_policy :
    (p : Proxy) (name : Bytes) (q : Policy) (other : Bytes)
    → get_policy (add_policy p name q) other ≡ (
        if str_eq name other
        then max_policy q (get_wildcard_policy p other)
        else get_policy p other)
unfolding get_policy add_policy get_wildcard_policy
get_policy-add_policy p name q other = ground (arith, lookup-replace name other q p.policy)

-- After `add_wildcarded_policy` on `s` the names that gain its policy are those one level below
-- `s`; a name one level below another parent keeps its policy. The parent has at most 255 bytes.
pub get_policy-add_wildcarded_policy :
    (p : Proxy) (s : Bytes) (q : Policy) (parent t : Bytes)
    → NoDot t
    → length parent ≤ 255
    → get_policy (add_wildcarded_policy p s q) (parent ++ b'.' ∷ t) ≡ (
        if str_eq s parent
        then max_policy (granted (lookup (parent ++ b'.' ∷ t) p.policy)) q
        else get_policy p (parent ++ b'.' ∷ t))
unfolding get_policy add_wildcarded_policy
get_policy-add_wildcarded_policy p s q parent t h fits = ground (
  arith,
  get_wildcard_policy-child (record p { wildcard_policy = replace s q p.wildcard_policy }) parent t
      h,
  get_wildcard_policy-child p parent t h,
  lookup-replace s parent q p.wildcard_policy,
)
