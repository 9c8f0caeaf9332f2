-- ===== src/Portal/Fuse/Names.antt =====
-- Names of documents and their ids (document-portal/xdp-util.c, document-portal/xdp-fuse.c).
use xdg_app.Portal.Flags.{hex_digit, id_from_name, name_from_id, print_hex}
use xdg_app.Portal.Fuse.{id_loop, is_lower_hex, name_looks_like_id, starts_with_zero}
use xdg_app.Prelude.{
  All, Bytes, [], ap, append-nil, append_assoc, arith, false, if_cases, if◌then◌else◌, leb, length,
  length-append, ltb, refl, suc, true, zero, ℕ, ◌%◌, ◌*◌, ◌++◌, ◌+◌, ◌-◌, ◌/◌, ◌<◌, ◌^◌, ◌∙◌, ◌∷◌,
  ◌≡◌, ◌≤◌,
}

abbrev digit_value : ℕ → ℕ
digit_value c = if leb c b'9' then c - b'0' else c - b'a' + 10

-- The number that hexadecimal digits stand for, behind others.
unfoldable pub hex_value : ℕ → Bytes → ℕ
hex_value front [] = front
hex_value front (c ∷ s) = hex_value (front * 16 + digit_value c) s

-- g_ascii_strtoull reads lower case digits, if they are few enough for 64 bits.
abbrev pub ReadsHex : (Bytes → ℕ) → Type 0
ReadsHex strtoull =
    (name : Bytes)
    → All (λ c. is_lower_hex c ≡ true) name
    → length name ≤ 16
    → strtoull name ≡ hex_value 0 name

abbrev pow16 : ℕ → ℕ
pow16 zero = 1
pow16 (suc k) = 16 * pow16 k

digit-value : (d : ℕ) → d < 16 → digit_value (hex_digit d) ≡ d
unfolding hex_digit
digit-value d h = ground arith

digit-lower : (d : ℕ) → d < 16 → is_lower_hex (hex_digit d) ≡ true
unfolding hex_digit is_lower_hex
digit-lower d h = ground arith

hex_value-snoc :
    (front : ℕ) (xs : Bytes) (d : ℕ)
    → hex_value front (xs ++ d ∷ []) ≡ hex_value front xs * 16 + digit_value d
unfolding hex_value
hex_value-snoc front [] d = refl
hex_value-snoc front (c ∷ xs) d = hex_value-snoc (front * 16 + digit_value c) xs d

-- What is known of the digits of a number.
record Digits (k n : ℕ) (name : Bytes) : Type 0 where
  value : hex_value 0 name ≡ n
  lower : All (λ c. is_lower_hex c ≡ true) name
  short : length name ≤ k
  no_zero : 0 < n → (rest : Bytes) → starts_with_zero (name ++ rest) ≡ false

All-snoc : (P : ℕ → Type 0) (xs : Bytes) (d : ℕ) → All P xs → P d → All P (xs ++ d ∷ [])
All-snoc P [] d all p = (p, tt)
All-snoc P (x ∷ xs) d all p = (all.0, All-snoc P xs d all.1 p)

one_digit : (k n : ℕ) → n < 16 → Digits (suc k) n (hex_digit n ∷ [])
unfolding hex_value starts_with_zero hex_digit
one_digit k n h = record {
  value = ground (arith, digit-value n h);
  lower = (digit-lower n h, tt);
  short = omega arith;
  no_zero = λ pos rest. ground arith;
}

snoc-Digits :
    (k n : ℕ) (front : Bytes)
    → 16 ≤ n
    → Digits k (n / 16) front
    → Digits (suc k) n (front ++ hex_digit (n % 16) ∷ [])
snoc-Digits k n front h d = record {
  value =
      hex_value-snoc 0 front (hex_digit (n % 16))
      ∙ omega (arith, d.value, digit-value (n % 16) (omega arith));
  lower = All-snoc _ front (hex_digit (n % 16)) d.lower (digit-lower (n % 16) (omega arith));
  short = omega (arith, length-append front (hex_digit (n % 16) ∷ []), d.short);
  no_zero = λ pos rest.
      ap starts_with_zero (append_assoc front (hex_digit (n % 16) ∷ []) rest)
      ∙ d.no_zero (omega arith) (hex_digit (n % 16) ∷ rest);
}

print_hex-Digits : (k n : ℕ) → n < pow16 k → Digits k n (print_hex k n)
unfolding print_hex hex_value
print_hex-Digits zero n h = record {
  value = omega arith;
  lower = tt;
  short = omega arith;
  no_zero = λ pos rest. absurd (omega arith);
}
print_hex-Digits (suc k) n h =
    if_cases (Digits (suc k) n) (ltb n 16) (λ low. one_digit k n (ground (arith, low)))
      (λ high.
        snoc-Digits k n (print_hex k (n / 16)) (ground (arith, high))
          (print_hex-Digits k (n / 16) (omega (arith, h))))

id_loop-lower :
    (left : ℕ) (name : Bytes)
    → All (λ c. is_lower_hex c ≡ true) name
    → length name ≤ left
    → id_loop left name ≡ true
unfolding id_loop
id_loop-lower left [] all h = refl
id_loop-lower zero (c ∷ name) all h = absurd (omega arith)
id_loop-lower (suc left) (c ∷ name) all h =
    ground (arith, all.0, id_loop-lower left name all.1 (omega arith))

-- Where g_ascii_strtoull reads hexadecimal digits, the name that is made for the id of a document,
-- a number of 32 bits other than 0, looks like the name of a document, and the id is read back from
-- it.
pub name_from_id-id_from_name :
    (strtoull : Bytes → ℕ) (doc_id : ℕ)
    → ReadsHex strtoull
    → 0 < doc_id
    → doc_id < 2 ^ 32
    → (name_looks_like_id (name_from_id doc_id) ≡ true)
      × (id_from_name strtoull (name_from_id doc_id) ≡ doc_id)
unfolding name_from_id id_from_name name_looks_like_id
name_from_id-id_from_name strtoull doc_id reads pos small =
    let same : doc_id % 2 ^ 32 ≡ doc_id = omega arith in
    let d = print_hex-Digits 8 (doc_id % 2 ^ 32) (omega arith) in
    let name = print_hex 8 (doc_id % 2 ^ 32) in
    (
      ground (
        arith,
        ap starts_with_zero (append-nil name),
        d.no_zero (omega arith) [],
        id_loop-lower 8 name d.lower d.short,
      ),
      ap (λ k. k % 2 ^ 32) (reads name d.lower (omega (arith, d.short)) ∙ d.value) ∙ omega arith,
    )
