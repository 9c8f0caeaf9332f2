-- ===== src/Db/Strings/Arrays.antt =====
-- Finding, adding and removing in an array of strings (lib/xdg-app-db.c).
use xdg_app.Db.Strings.{
  add_string, behind_first, insert_sorted, last_first, less, remove_index_fast, remove_string,
  sort_strv, str_ptr_array_contains, str_ptr_array_find,
}
use xdg_app.Db.Strings.Order.{less_ne}
use xdg_app.Prelude.{
  All, Bytes, List, [], arith, false, if_cases, if◌then◌else◌, refl, str_eq, str_eq_comm,
  str_eq_iff, subst, sym, true, ◌++◌, ◌||◌, ◌∷◌, ◌≡◌,
}

pub contains-nil : (s : Bytes) → str_ptr_array_contains [] s ≡ false
unfolding str_ptr_array_contains str_ptr_array_find
contains-nil s = refl

pub contains-cons :
    (x : Bytes) (xs : List Bytes) (s : Bytes)
    → str_ptr_array_contains (x ∷ xs) s ≡ (str_eq x s || str_ptr_array_contains xs s)
unfolding str_ptr_array_contains str_ptr_array_find
contains-cons x xs s = ground arith

pub contains-append :
    (xs ys : List Bytes) (s : Bytes)
    → str_ptr_array_contains (xs ++ ys) s
      ≡ (str_ptr_array_contains xs s || str_ptr_array_contains ys s)
contains-append [] ys s = rw (contains-nil s) refl
contains-append (x ∷ xs) ys s =
    ground (arith, contains-cons x (xs ++ ys) s, contains-cons x xs s, contains-append xs ys s)

contains-insert_sorted :
    (x : Bytes) (xs : List Bytes) (s : Bytes)
    → str_ptr_array_contains (insert_sorted x xs) s ≡ (str_eq x s || str_ptr_array_contains xs s)
unfolding insert_sorted
contains-insert_sorted x [] s = contains-cons x [] s
contains-insert_sorted x (y ∷ ys) s = ground (
  arith,
  contains-cons y (insert_sorted x ys) s,
  contains-cons x (y ∷ ys) s,
  contains-cons y ys s,
  contains-insert_sorted x ys s,
)

pub contains-sort_strv :
    (xs : List Bytes) (s : Bytes)
    → str_ptr_array_contains (sort_strv xs) s ≡ str_ptr_array_contains xs s
unfolding sort_strv
contains-sort_strv [] s = refl
contains-sort_strv (x ∷ xs) s = ground (
  arith,
  contains-insert_sorted x (sort_strv xs) s,
  contains-cons x xs s,
  contains-sort_strv xs s,
)

-- No string stands in it twice.
abbrev pub Distinct : List Bytes → Type 0
Distinct [] = Unit
Distinct (x ∷ xs) = (str_ptr_array_contains xs x ≡ false) × Distinct xs

-- The same strings, each as often.
pub record Rotated (xs ys : List Bytes) : Type 0 where
  pub same : (s : Bytes) → str_ptr_array_contains ys s ≡ str_ptr_array_contains xs s
  pub distinct : Distinct xs → Distinct ys

module _ (x : Bytes) (xs : List Bytes) where
  behind_first-same :
      (ys : List Bytes)
      → ((s : Bytes) → str_ptr_array_contains ys s ≡ str_ptr_array_contains xs s)
      → (s : Bytes)
      → str_ptr_array_contains (behind_first x ys) s ≡ str_ptr_array_contains (x ∷ xs) s
  unfolding behind_first
  behind_first-same [] h s =
      ground (arith, contains-cons x [] s, contains-cons x xs s, h s, contains-nil s)
  behind_first-same (l ∷ ys) h s = ground (
    arith,
    contains-cons l (x ∷ ys) s,
    contains-cons x ys s,
    contains-cons l ys s,
    contains-cons x xs s,
    h s,
  )

  behind_first-Distinct :
      (ys : List Bytes)
      → ((s : Bytes) → str_ptr_array_contains ys s ≡ str_ptr_array_contains xs s)
      → str_ptr_array_contains xs x ≡ false
      → Distinct ys
      → Distinct (behind_first x ys)
  unfolding behind_first
  behind_first-Distinct [] h new all = (contains-nil x, tt)
  behind_first-Distinct (l ∷ ys) h new (fresh, all) = (
    ground (arith, contains-cons x ys l, contains-cons l ys x, h x, new, fresh, str_eq_comm x l),
    (ground (arith, contains-cons l ys x, h x, new), all),
  )

last_first-Rotated : (xs : List Bytes) → Rotated xs (last_first xs)
unfolding last_first
last_first-Rotated [] = record { same = λ s. refl; distinct = λ d. d }
last_first-Rotated (x ∷ xs) =
    let rest = last_first-Rotated xs in
    record {
      same = behind_first-same x xs (last_first xs) rest.same;
      distinct = λ d. behind_first-Distinct x xs (last_first xs) rest.same d.0 (rest.distinct d.1);
    }

remove_string-cons :
    (str x : Bytes) (xs : List Bytes)
    → remove_string str (x ∷ xs)
      ≡ (if str_eq x str then last_first xs else x ∷ remove_string str xs)
unfolding remove_string str_ptr_array_find remove_index_fast
remove_string-cons str x xs = ground arith

-- What is left when one string is taken out.
pub record Removed (str : Bytes) (xs ys : List Bytes) : Type 0 where
  pub rest :
      (s : Bytes)
      → str_ptr_array_contains ys s ≡ (if str_eq str s then false else str_ptr_array_contains xs s)
  pub distinct : Distinct ys

Removed-here :
    (str x : Bytes) (xs : List Bytes)
    → Distinct (x ∷ xs)
    → str_eq x str ≡ true
    → Removed str (x ∷ xs) (last_first xs)
Removed-here str x xs d found =
    let last = last_first-Rotated xs in
    record {
      rest = λ s. ground (
        arith,
        contains-cons x xs s,
        last.same s,
        str_eq_iff x str,
        str_eq_iff str s,
        str_eq_iff x s,
        d.0,
        found,
      );
      distinct = last.distinct d.1;
    }

Removed-later :
    (str x : Bytes) (xs ys : List Bytes)
    → Distinct (x ∷ xs)
    → str_eq x str ≡ false
    → Removed str xs ys
    → Removed str (x ∷ xs) (x ∷ ys)
Removed-later str x xs ys d other r = record {
  rest = λ s. ground (
    arith,
    contains-cons x xs s,
    contains-cons x ys s,
    r.rest s,
    str_eq_iff x str,
    str_eq_iff str s,
    str_eq_iff x s,
    other,
  );
  distinct = (ground (arith, r.rest x, d.0), r.distinct);
}

pub remove_string-Removed :
    (str : Bytes) (xs : List Bytes) → Distinct xs → Removed str xs (remove_string str xs)
unfolding remove_string str_ptr_array_find
remove_string-Removed str [] d = record {
  rest = λ s. ground (arith, contains-nil s);
  distinct = tt;
}
remove_string-Removed str (x ∷ xs) d =
    subst (λ k. Removed str (x ∷ xs) k) (sym (remove_string-cons str x xs))
      (if_cases (λ k. Removed str (x ∷ xs) k) (str_eq x str)
        (λ found. Removed-here str x xs d found)
        (λ other.
          Removed-later str x xs (remove_string str xs) d other (remove_string-Removed str xs d.1)))

-- What is there when one string is put in.
pub record Added (str : Bytes) (xs ys : List Bytes) : Type 0 where
  pub rest :
      (s : Bytes) → str_ptr_array_contains ys s ≡ (str_eq str s || str_ptr_array_contains xs s)
  pub distinct : Distinct ys

Distinct-snoc :
    (str : Bytes) (xs : List Bytes)
    → Distinct xs
    → str_ptr_array_contains xs str ≡ false
    → Distinct (xs ++ str ∷ [])
Distinct-snoc str [] d new = (contains-nil str, tt)
Distinct-snoc str (x ∷ xs) (fresh, d) new = (
  ground (
    arith,
    contains-append xs (str ∷ []) x,
    contains-cons str [] x,
    contains-nil x,
    contains-cons x xs str,
    str_eq_comm x str,
    new,
    fresh,
  ),
  Distinct-snoc str xs d (ground (arith, contains-cons x xs str, new)),
)

pub add_string-Added :
    (str : Bytes) (xs : List Bytes) → Distinct xs → Added str xs (add_string str xs)
unfolding add_string
add_string-Added str xs d =
    if_cases (λ k. Added str xs k) (str_ptr_array_contains xs str)
      (λ old. record { rest = λ s. ground (arith, str_eq_iff str s, old); distinct = d })
      (λ new. record {
        rest = λ s.
            ground (arith, contains-append xs (str ∷ []) s, contains-cons str [] s, contains-nil s);
        distinct = Distinct-snoc str xs d new;
      })

pub above-contains :
    (x : Bytes) (xs : List Bytes)
    → All (λ y. less x y ≡ true) xs
    → str_ptr_array_contains xs x ≡ false
above-contains x [] all = contains-nil x
above-contains x (y ∷ xs) all =
    ground
      (arith, contains-cons y xs x, less_ne x y all.0, str_eq_comm x y, above-contains x xs all.1)
