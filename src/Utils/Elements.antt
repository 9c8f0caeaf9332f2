-- ===== src/Utils/Elements.antt =====
-- A valid name is a list of elements (lib/xdg-app-utils.c).
use xdg_app.Prelude.{
  ==_iff, All, Bool-cases, Bytes, List, [], ap, arith, false, inl, inr, length, refl, subst, suc,
  sym, true, ℕ, ◌++◌, ◌+◌, ◌==◌, ◌↔◌, ◌∙◌, ◌∷◌, ◌≡◌, ◌≤◌,
}
use xdg_app.Utils.{
  is_valid_initial_name_character, is_valid_name, is_valid_name_character, name_loop,
}

abbrev pub IsElement : Bytes → Type 0
IsElement [] = ⊥
IsElement (c ∷ s) =
    (is_valid_initial_name_character c ≡ true) × All (λ d. is_valid_name_character d ≡ true) s

-- The elements, each with a dot in front of it.
abbrev pub dotted : List Bytes → Bytes
dotted [] = []
dotted (e ∷ es) = b'.' ∷ (e ++ dotted es)

abbrev IsTail : Bytes → Type 0
IsTail = All (λ d. is_valid_name_character d ≡ true)

-- What the loop accepts: the rest of an element, and elements with enough dots.
abbrev Rest : ℕ → Bytes → Type 0
Rest n s =
    (tail : Bytes) × (es : List Bytes) × (s ≡ tail ++ dotted es)
    × IsTail tail
    × All IsElement es
    × (2 ≤ n + length es)

Rest-char : (n c : ℕ) (s : Bytes) → is_valid_name_character c ≡ true → Rest n s → Rest n (c ∷ s)
Rest-char n c s valid (tail, es, e, t, all, many) =
    (c ∷ tail, es, ap (λ x. c ∷ x) e, (valid, t), all, many)

Rest-dot :
    (n d : ℕ) (s : Bytes)
    → is_valid_initial_name_character d ≡ true
    → Rest (suc n) s
    → Rest n (b'.' ∷ d ∷ s)
Rest-dot n d s first (tail, es, e, t, all, many) =
    ([], (d ∷ tail) ∷ es, ap (λ x. b'.' ∷ d ∷ x) e, tt, ((first, t), all), omega (arith, many))

name_loop-Rest : (n : ℕ) (s : Bytes) → name_loop n s ≡ true → Rest n s
unfolding name_loop
name_loop-Rest n [] h = ([], [], refl, tt, tt, ground (arith, h))
name_loop-Rest n (c ∷ []) h = elim (Bool-cases (c == b'.')) [
  | inl dot ↦ ground (arith, h, dot)
  | inr other ↦ (c ∷ [], [], refl, (ground (arith, h, other), tt), tt, ground (arith, h, other))
]
name_loop-Rest n (c ∷ d ∷ s) h = elim (Bool-cases (c == b'.')) [
  | inl dot ↦
      subst (λ k. Rest n (k ∷ d ∷ s)) (sym ((==_iff c b'.').0 dot))
        (Rest-dot n d s (ground (arith, h, dot))
          (name_loop-Rest (suc n) s (ground (arith, h, dot))))
  | inr other ↦
      Rest-char n c (d ∷ s) (ground (arith, h, other))
        (name_loop-Rest n (d ∷ s) (ground (arith, h, other)))
]

no_dot : (c : ℕ) → is_valid_name_character c ≡ true → (c == b'.') ≡ false
unfolding is_valid_name_character is_valid_initial_name_character
no_dot c h = ground (arith, h)

step_valid :
    (n c : ℕ) (s : Bytes) → is_valid_name_character c ≡ true → name_loop n (c ∷ s) ≡ name_loop n s
unfolding name_loop
step_valid n c [] h = ground (arith, h, no_dot c h)
step_valid n c (d ∷ s) h = ground (arith, h, no_dot c h)

step_dot :
    (n d : ℕ) (s : Bytes)
    → is_valid_initial_name_character d ≡ true
    → name_loop n (b'.' ∷ d ∷ s) ≡ name_loop (suc n) s
unfolding name_loop
step_dot n d s h = rw h refl

tail-loop : (n : ℕ) (tail s : Bytes) → IsTail tail → name_loop n (tail ++ s) ≡ name_loop n s
tail-loop n [] s t = refl
tail-loop n (c ∷ tail) s t = step_valid n c (tail ++ s) t.0 ∙ tail-loop n tail s t.1

dotted-loop :
    (n : ℕ) (es : List Bytes)
    → All IsElement es
    → 2 ≤ n + length es
    → name_loop n (dotted es) ≡ true
unfolding name_loop
dotted-loop n [] all many = ground (arith, many)
dotted-loop n ([] ∷ es) all many = elim all.0 [ ]
dotted-loop n ((d ∷ tail) ∷ es) all many =
    step_dot n d (tail ++ dotted es) all.0.0
    ∙ (tail-loop (suc n) tail (dotted es) all.0.1
        ∙ dotted-loop (suc n) es all.1 (omega (arith, many)))

-- What the comment above xdg_app_is_valid_name asks of a name.
abbrev pub IsName : Bytes → Type 0
IsName name =
    (e : Bytes) × (es : List Bytes) × (name ≡ e ++ dotted es)
    × IsElement e
    × All IsElement es
    × (2 ≤ length es)
    × (length name ≤ 255)

valid-IsName : (name : Bytes) → is_valid_name name ≡ true → IsName name
unfolding is_valid_name
valid-IsName [] h = cc
valid-IsName (c ∷ s) h =
    let (tail, es, eq, t, all, many) = name_loop-Rest 0 s (ground (arith, h)) in
    let first : is_valid_initial_name_character c ≡ true = ground (arith, h) in
    (c ∷ tail, es, ap (λ x. c ∷ x) eq, (first, t), all, omega (arith, many), ground (arith, h))

valid_dotted :
    (e : Bytes) (es : List Bytes)
    → IsElement e
    → All IsElement es
    → 2 ≤ length es
    → length (e ++ dotted es) ≤ 255
    → is_valid_name (e ++ dotted es) ≡ true
unfolding is_valid_name
valid_dotted [] es first all many fits = elim first [ ]
valid_dotted (c ∷ tail) es first all many fits =
    let loop : name_loop 0 (tail ++ dotted es) ≡ true =
      tail-loop 0 tail (dotted es) first.1 ∙ dotted-loop 0 es all (omega (arith, many)) in
    rw (first.0, loop) (ground (arith, fits))

-- A name is valid exactly if it has at most 255 bytes and is three or more elements with dots
-- between them, where an element is a letter or `_` and then letters, digits and `_`.
pub is_valid_name_iff : (name : Bytes) → (is_valid_name name ≡ true) ↔ IsName name
is_valid_name_iff name = (
  valid-IsName name,
  λ (e, es, eq, first, all, many, fits).
      subst (λ x. is_valid_name x ≡ true) (sym eq)
        (valid_dotted e es first all many (subst (λ x. length x ≤ 255) eq fits)),
)
