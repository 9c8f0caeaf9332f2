-- ===== src/Db/Entry/Search.antt =====
-- The search of xdg_app_db_entry_get_permissions_variant ends, and finds what stands in a sorted
-- array (lib/xdg-app-db.c).
use xdg_app.Db.Entry.{AppPermissions, Entry, get_permissions_variant, search_loop}
use xdg_app.Db.Strings.{less}
use xdg_app.Db.Strings.Order.{Strict, less_ne, less_total, less_trans}
use xdg_app.Prelude.{
  All, Bool-cases, Bytes, List, [], ap, arith, bytes_eq, direct_eq, false, get_elem?, get_elem?-lt,
  if_cases, if◌then◌else◌, inl, inr, length, lookup, ltb, ltb→lt, lt→ltb, none, refl, some, str_eq,
  str_eq_comm, str_eq_iff, subst, suc, sym, true, zero, ℕ, ◌+◌, ◌/◌, ◌<◌, ◌==◌, ◌∙◌, ◌∷◌, ◌≡◌, ◌≤◌,
}

abbrev pub keys : AppPermissions → List Bytes
keys [] = []
keys ((app_id, permissions) ∷ l) = app_id ∷ keys l

abbrev pub IsSorted : AppPermissions → Type 0
IsSorted l = Strict (keys l)

All-get :
    (P : Bytes → Type 0) (l : AppPermissions) (i : ℕ) (b : Bytes) (q : List Bytes)
    → All P (keys l)
    → get_elem? l i ≡ some (b, q)
    → P b
All-get P [] i b q all e = cc
All-get P ((a, p) ∷ l) zero b q all e = subst P (ground arith) all.0
All-get P ((a, p) ∷ l) (suc i) b q all e = All-get P l i b q all.1 e

get_elem?-less :
    (l : AppPermissions) (i j : ℕ) (a b : Bytes) (p q : List Bytes)
    → IsSorted l
    → i < j
    → get_elem? l i ≡ some (a, p)
    → get_elem? l j ≡ some (b, q)
    → less a b ≡ true
get_elem?-less [] i j a b p q sorted h e f = cc
get_elem?-less ((c, r) ∷ l) i zero a b p q sorted h e f = absurd (omega arith)
get_elem?-less ((c, r) ∷ l) zero (suc j) a b p q sorted h e f =
    ground (arith, All-get (λ x. less c x ≡ true) l j b q sorted.0 f, e)
get_elem?-less ((c, r) ∷ l) (suc i) (suc j) a b p q sorted h e f =
    get_elem?-less l i j a b p q sorted.1 (omega arith) e f

get_elem?-beyond : (l : AppPermissions) (i : ℕ) → length l ≤ i → get_elem? l i ≡ none
get_elem?-beyond [] i h = refl
get_elem?-beyond (x ∷ l) zero h = absurd (omega arith)
get_elem?-beyond (x ∷ l) (suc i) h = get_elem?-beyond l i (omega arith)

get_elem?-lookup :
    (l : AppPermissions) (i : ℕ) (a : Bytes) (p : List Bytes)
    → IsSorted l
    → get_elem? l i ≡ some (a, p)
    → lookup a l ≡ some p
unfolding lookup
get_elem?-lookup [] i a p sorted e = cc
get_elem?-lookup ((c, r) ∷ l) zero a p sorted e = ground (arith, str_eq_iff c a, e)
get_elem?-lookup ((c, r) ∷ l) (suc i) a p sorted e = ground (
  arith,
  less_ne c a (All-get (λ x. less c x ≡ true) l i a p sorted.0 e),
  get_elem?-lookup l i a p sorted.1 e,
)

no_elem-lookup :
    (l : AppPermissions) (a : Bytes)
    → ((i : ℕ) (b : Bytes) (q : List Bytes) → get_elem? l i ≡ some (b, q) → str_eq b a ≡ false)
    → lookup a l ≡ none
unfolding lookup
no_elem-lookup [] a h = refl
no_elem-lookup ((c, r) ∷ l) a h =
    rw (h 0 c r refl) (no_elem-lookup l a (λ i b q e. h (suc i) b q e))

-- What the loop knows: the id is above all in front of `start`, and below all from `end` on.
record Bounds (l : AppPermissions) (app_id : Bytes) (start end : ℕ) : Type 0 where
  in_range : end ≤ length l
  below :
      (i : ℕ) (b : Bytes) (q : List Bytes)
      → i < start
      → get_elem? l i ≡ some (b, q)
      → less b app_id ≡ true
  above :
      (i : ℕ) (b : Bytes) (q : List Bytes)
      → end ≤ i
      → get_elem? l i ≡ some (b, q)
      → less app_id b ≡ true

Bounds-done :
    (l : AppPermissions) (app_id : Bytes) (start end : ℕ)
    → Bounds l app_id start end
    → ltb start end ≡ false
    → lookup app_id l ≡ none
Bounds-done l app_id start end bounds done = no_elem-lookup l app_id (λ i b q e.
    elim (Bool-cases (ltb i start)) [
      | inl low ↦ less_ne b app_id (bounds.below i b q (ground arith) e)
      | inr high ↦ str_eq_comm b app_id ∙ less_ne app_id b (bounds.above i b q (ground arith) e)
    ])

module _ (l : AppPermissions) (app_id a : Bytes) (p : List Bytes) (m : ℕ) (sorted : IsSorted l)
    (e : get_elem? l m ≡ some (a, p)) where
  same_elem : (i : ℕ) (b : Bytes) (q : List Bytes) → i ≡ m → get_elem? l i ≡ some (b, q) → a ≡ b
  same_elem i b q h f =
      let g : get_elem? l m ≡ some (b, q) = subst (λ k. get_elem? l k ≡ some (b, q)) h f in
      ground (arith, e, g)

  less_from :
      less app_id a ≡ true
      → (i : ℕ) (b : Bytes) (q : List Bytes) → m ≤ i
      → get_elem? l i ≡ some (b, q)
      → less app_id b ≡ true
  less_from h i b q le f = elim (Bool-cases (i == m)) [
    | inl same ↦ subst (λ k. less app_id k ≡ true) (same_elem i b q (ground arith) f) h
    | inr other ↦ less_trans app_id a b h (get_elem?-less l m i a b p q sorted (ground arith) e f)
  ]

  less_upto :
      less a app_id ≡ true
      → (i : ℕ) (b : Bytes) (q : List Bytes) → i ≤ m
      → get_elem? l i ≡ some (b, q)
      → less b app_id ≡ true
  less_upto h i b q le f = elim (Bool-cases (i == m)) [
    | inl same ↦ subst (λ k. less k app_id ≡ true) (same_elem i b q (ground arith) f) h
    | inr other ↦ less_trans b a app_id (get_elem?-less l i m b a q p sorted (ground arith) f e) h
  ]

search_step :
    (fuel : ℕ) (l : AppPermissions) (app_id a : Bytes) (p : List Bytes) (start end : ℕ)
    → start < end
    → get_elem? l ((start + end) / 2) ≡ some (a, p)
    → search_loop (suc fuel) l app_id start end ≡ (
        if str_eq app_id a
        then some (some p)
        else if less app_id a
        then search_loop fuel l app_id start ((start + end) / 2)
        else search_loop fuel l app_id (suc ((start + end) / 2)) end)
unfolding search_loop
search_step fuel l app_id a p start end h e = rw (lt→ltb start end h, e) refl

search_stop :
    (fuel : ℕ) (l : AppPermissions) (app_id : Bytes) (start end : ℕ)
    → ltb start end ≡ false
    → search_loop (suc fuel) l app_id start end ≡ some none
unfolding search_loop
search_stop fuel l app_id start end h = rw h refl

get_elem?-found :
    (l : AppPermissions) (app_id a : Bytes) (p : List Bytes) (m : ℕ)
    → IsSorted l
    → get_elem? l m ≡ some (a, p)
    → str_eq app_id a ≡ true
    → lookup app_id l ≡ some p
get_elem?-found l app_id a p m sorted e found =
    get_elem?-lookup l m app_id p sorted
      (subst (λ k. get_elem? l m ≡ some (k, p)) (sym ((str_eq_iff app_id a).0 found)) e)

middle : (start end : ℕ) → start < end → ((start + end) / 2 < end) × (start ≤ (start + end) / 2)
middle start end h = (omega arith, omega arith)

abbrev Finds : ℕ → AppPermissions → Bytes → Type 0
Finds fuel l app_id =
    (start end : ℕ)
    → Bounds l app_id start end
    → start ≤ end
    → end < start + fuel
    → search_loop fuel l app_id start end ≡ some (lookup app_id l)

search_round :
    (fuel : ℕ) (l : AppPermissions) (app_id a : Bytes) (p : List Bytes) (start end : ℕ)
    → IsSorted l
    → Finds fuel l app_id
    → Bounds l app_id start end
    → start < end
    → end < start + suc fuel
    → get_elem? l ((start + end) / 2) ≡ some (a, p)
    → search_loop (suc fuel) l app_id start end ≡ some (lookup app_id l)
search_round fuel l app_id a p start end sorted finds bounds h enough e =
    let m = (start + end) / 2 in
    let (below_end, from_start) = middle start end h in
    search_step fuel l app_id a p start end h e
    ∙ if_cases (λ r. r ≡ some (lookup app_id l)) (str_eq app_id a)
        (λ found. ap some (sym (get_elem?-found l app_id a p m sorted e found)))
        (λ other.
          if_cases (λ r. r ≡ some (lookup app_id l)) (less app_id a)
            (λ low.
              let lower : Bounds l app_id start m = record {
                in_range = omega (arith, bounds.in_range, below_end);
                below = bounds.below;
                above = less_from l app_id a p m sorted e low;
              } in
              finds start m lower from_start (omega (arith, below_end)))
            (λ high.
              let upper : Bounds l app_id (suc m) end = record {
                in_range = bounds.in_range;
                below = λ i b q k.
                    less_upto l app_id a p m sorted e (less_total app_id a high other) i b q
                      (omega arith);
                above = bounds.above;
              } in
              finds (suc m) end upper below_end (omega (arith, from_start))))

search_loop-lookup :
    (fuel : ℕ) (l : AppPermissions) (app_id : Bytes) → IsSorted l → Finds fuel l app_id
search_loop-lookup zero l app_id sorted start end bounds le enough = absurd (omega arith)
search_loop-lookup (suc fuel) l app_id sorted start end bounds le enough =
    elim (Bool-cases (ltb start end)) [
      | inl more ↦
          let h = ltb→lt start end more in
          let ((a, p), e) =
            get_elem?-lt l ((start + end) / 2)
              (omega (arith, bounds.in_range, (middle start end h).0)) in
          search_round fuel l app_id a p start end sorted (search_loop-lookup fuel l app_id sorted)
            bounds h enough e
      | inr done ↦
          search_stop fuel l app_id start end done
          ∙ ap some (sym (Bounds-done l app_id start end bounds done))
    ]

-- In an entry whose applications are sorted, the search ends, finds the permissions of an
-- application that stands there, and finds nothing for any other.
pub get_permissions_variant-lookup :
    {V : Type 0} (entry : Entry V) (app : Bytes)
    → IsSorted entry.app_permissions
    → get_permissions_variant entry app ≡ some (lookup app entry.app_permissions)
unfolding get_permissions_variant
get_permissions_variant-lookup entry app sorted =
    let l = entry.app_permissions in
    search_loop-lookup (suc (length l)) l app sorted 0 (length l)
      (record {
        in_range = omega arith;
        below = λ i b q h e. absurd (omega arith);
        above = λ i b q h e. ground (arith, get_elem?-beyond l i h);
      })
      (omega arith) (omega arith)
