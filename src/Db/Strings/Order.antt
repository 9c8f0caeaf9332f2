-- ===== src/Db/Strings/Order.antt =====
-- The order of strings is total and strict, and sort_strv sorts (lib/xdg-app-db.c).
use xdg_app.Db.Strings.{insert_sorted, less, sort_strv}
use xdg_app.Prelude.{
  All, Bool-cases, Bytes, List, [], ap, arith, false, inl, inr, refl, str_eq, str_eq_iff, true, ◌∙◌,
  ◌∷◌, ◌≡◌,
}

pub less_irrefl : (s : Bytes) → less s s ≡ false
unfolding less
less_irrefl [] = refl
less_irrefl (a ∷ s) = ground (arith, less_irrefl s)

pub less_trans : (s t u : Bytes) → less s t ≡ true → less t u ≡ true → less s u ≡ true
unfolding less
less_trans s t [] h k = k
less_trans s [] (c ∷ u) h k = ground arith
less_trans [] (b ∷ t) (c ∷ u) h k = refl
less_trans (a ∷ s) (b ∷ t) (c ∷ u) h k = ground (arith, less_trans s t u)

pub less_total : (s t : Bytes) → less s t ≡ false → str_eq s t ≡ false → less t s ≡ true
unfolding less str_eq
less_total [] [] h k = cc
less_total [] (b ∷ t) h k = cc
less_total (a ∷ s) [] h k = refl
less_total (a ∷ s) (b ∷ t) h k = ground (arith, less_total s t)

pub less_asym : (s t : Bytes) → less s t ≡ true → less t s ≡ false
less_asym s t h = elim (Bool-cases (less t s)) [
  | inl k ↦ ground (arith, less_trans s t s h k, less_irrefl s)
  | inr k ↦ k
]

pub less_ne : (s t : Bytes) → less s t ≡ true → str_eq s t ≡ false
less_ne s t h = elim (Bool-cases (str_eq s t)) [
  | inl e ↦ ground (arith, less_irrefl t, ap (λ x. less x t) ((str_eq_iff s t).0 e), h)
  | inr k ↦ k
]

-- Each is below all behind it.
abbrev pub Strict : List Bytes → Type 0
Strict [] = Unit
Strict (x ∷ xs) = All (λ y. less x y ≡ true) xs × Strict xs

pub All-less_trans :
    (x y : Bytes) (ys : List Bytes)
    → less x y ≡ true
    → All (λ z. less y z ≡ true) ys
    → All (λ z. less x z ≡ true) ys
All-less_trans x y [] h all = tt
All-less_trans x y (z ∷ ys) h (k, all) = (less_trans x y z h k, All-less_trans x y ys h all)

insert_sorted-front :
    (x : Bytes) (xs : List Bytes) → All (λ y. less x y ≡ true) xs → insert_sorted x xs ≡ x ∷ xs
unfolding insert_sorted
insert_sorted-front x [] all = refl
insert_sorted-front x (y ∷ xs) all = rw (less_asym x y all.0) refl

pub sort_strv-Strict : (xs : List Bytes) → Strict xs → sort_strv xs ≡ xs
unfolding sort_strv
sort_strv-Strict [] strict = refl
sort_strv-Strict (x ∷ xs) (all, strict) =
    ap (λ k. insert_sorted x k) (sort_strv-Strict xs strict) ∙ insert_sorted-front x xs all
