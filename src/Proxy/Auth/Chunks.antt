-- ===== src/Proxy/Auth/Chunks.antt =====
-- A BEGIN line that comes in pieces (find_auth_end of dbus-proxy/xdg-app-proxy.c).
use mathlib.Core.Option
use xdg_app.Prelude.{
  Bool-cases, Bytes, List, Option, [], ap, arith, drop, drop-append_le, drop-drop, drop-length,
  false, inl, inr, leb, length, length-append, length-drop, min, none, refl, some, str_eq_refl, sym,
  take, take-append_le, true, ℕ, ◌++◌, ◌+◌, ◌-◌, ◌<◌, ◌==◌, ◌∙◌, ◌∷◌, ◌≡◌, ◌≤◌,
}
use xdg_app.Proxy.Auth.{auth_end_string, find_auth_end, match_leftover, memcmp_eq}
use xdg_app.Proxy.State.{Buffer, Client, buffer_new}

-- What one read leaves in the buffer: the bytes that came, and what stands behind them.
abbrev pub Read : Type 0
Read = Bytes × Bytes

abbrev pub read_buffer : Read → Buffer
read_buffer (chunk, behind) = record (buffer_new 64) { pos = length chunk; bytes = chunk ++ behind }

abbrev pub stream : List Read → Bytes
stream [] = []
stream (r ∷ reads) = r.0 ++ stream reads

abbrev pub or_later : Option ℕ → ℕ → Option ℕ → Option ℕ
or_later (some found) size later = some found
or_later none size later = Option.map (λ n. size + n) later

-- The reads, one after the other, until the end is found: how many bytes stand before it.
unfoldable pub find_in_reads : Bytes → Client → List Read → Option ℕ
unfolding find_auth_end
find_in_reads fields c [] = none
find_in_reads fields c (r ∷ reads) =
    let (offset, found) = find_auth_end fields c (read_buffer r) in
    or_later found (length r.0) (find_in_reads fields (record c { auth_end_offset = offset }) reads)

module _ (tail : Bytes) (k : ℕ) (small : k < 9) (chunk behind rest : Bytes)
    (comes : chunk ++ rest ≡ drop k auth_end_string ++ tail) where
  left : length (drop k auth_end_string) ≡ 9 - k
  left = length-drop k auth_end_string

  same_start :
      (m : ℕ)
      → m ≤ length chunk
      → m ≤ 9 - k
      → take m (chunk ++ behind) ≡ take m (drop k auth_end_string)
  same_start m in_chunk in_line =
      take-append_le m chunk behind in_chunk
      ∙ (sym (take-append_le m chunk rest in_chunk)
          ∙ (ap (take m) comes
              ∙ take-append_le m (drop k auth_end_string) tail (omega (arith, left, in_line))))

  leftover_matches :
      memcmp_eq (chunk ++ behind) (drop k auth_end_string) (min (9 - k) (length chunk)) ≡ true
  leftover_matches =
      rw (same_start (min (9 - k) (length chunk)) (omega arith) (omega arith)) (str_eq_refl _)

  after_chunk : length chunk < 9 - k → rest ≡ drop (k + length chunk) auth_end_string ++ tail
  after_chunk short =
      sym (drop-length chunk rest)
      ∙ (ap (drop (length chunk)) comes
          ∙ (drop-append_le (length chunk) (drop k auth_end_string) tail
                (omega (arith, left, short))
              ∙ ap (λ t. t ++ tail) (drop-drop k (length chunk) auth_end_string)))

  -- The line ends in this read.
  last_read :
      (fields : Bytes)
      → 9 - k ≤ length chunk
      → match_leftover fields k (read_buffer (chunk, behind)) ≡ (some 9, some (9 - k))
  unfolding match_leftover
  last_read fields whole =
      let e : min (9 - k) (length chunk) ≡ 9 - k = omega (arith, whole) in
      let f : k + (9 - k) ≡ 9 = omega arith in rw (leftover_matches, e, f) refl

  -- The line goes on after this read.
  some_read :
      (fields : Bytes)
      → length chunk < 9 - k
      → match_leftover fields k (read_buffer (chunk, behind)) ≡ (some (k + length chunk), none)
  unfolding match_leftover
  some_read fields part =
      let e : min (9 - k) (length chunk) ≡ length chunk = omega (arith, part) in
      let f : (k + length chunk == 9) ≡ false = ground (arith, part) in
      rw (leftover_matches, e, f) refl

-- When the string has been matched up to some place before its end and the rest of it comes next,
-- then however that and what follows is cut into reads, and whatever stands behind them in the
-- buffers, the end is found, after exactly the rest of the string.
pub find_in_reads_lem :
    (fields : Bytes) (c : Client) (tail : Bytes) (k : ℕ) (reads : List Read)
    → k < 9
    → c.auth_end_offset ≡ some k
    → stream reads ≡ drop k auth_end_string ++ tail
    → find_in_reads fields c reads ≡ some (9 - k)
unfolding find_in_reads find_auth_end
find_in_reads_lem fields c tail k [] small offset comes = ground (
  arith,
  length-append (drop k auth_end_string) tail,
  length-drop k auth_end_string,
  ap length comes,
)
find_in_reads_lem fields c tail k ((chunk, behind) ∷ reads) small offset comes =
    elim (Bool-cases (leb (9 - k) (length chunk))) [
      | inl whole ↦
          rw
            (offset, last_read tail k small chunk behind (stream reads) comes fields (ground arith))
            refl
      | inr part ↦
          let short : length chunk < 9 - k = ground arith in
          let c' = record c { auth_end_offset = some (k + length chunk) } in
          rw (offset, some_read tail k small chunk behind (stream reads) comes fields short)
            (rw
              (find_in_reads_lem fields c' tail (k + length chunk) reads (omega (arith, short)) refl
                (after_chunk tail k small chunk behind (stream reads) comes short))
              (ap some (omega (arith, short))))
    ]
