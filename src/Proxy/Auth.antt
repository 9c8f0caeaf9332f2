-- ===== src/Proxy/Auth.antt =====
-- The end of the authentication: find_auth_end of dbus-proxy/xdg-app-proxy.c.
pub mod Chunks
pub mod Blind
pub mod Bounds
use mathlib.Core.Option
use xdg_app.Prelude.{
  Bool, Bytes, Option, [], drop, if◌then◌else◌, leb, length, min, none, some, str_eq, suc, take,
  zero, ℕ, ◌&&◌, ◌++◌, ◌+◌, ◌-◌, ◌==◌, ◌∷◌,
}
use xdg_app.Proxy.State.{Buffer, Client}

-- AUTH_END_STRING
abbrev pub auth_end_string : Bytes
auth_end_string = 13 ∷ 10 ∷ 66 ∷ 69 ∷ 71 ∷ 73 ∷ 78 ∷ 13 ∷ 10 ∷ []

-- `memcmp (s, t, n) == 0`
abbrev pub memcmp_eq : Bytes → Bytes → ℕ → Bool
memcmp_eq s t n = str_eq (take n s) (take n t)

-- memmem, for a needle that is not empty: where the first match starts.
unfoldable pub memmem : Bytes → Bytes → Option ℕ
memmem [] needle = none
memmem (b ∷ hay) needle =
    let rest = memmem hay needle in
    if leb (length needle) (length (b ∷ hay)) && memcmp_eq (b ∷ hay) needle (length needle)
    then some 0
    else Option.map suc rest

-- The loop for the longest prefix at the end of the buffer: the `i` that it breaks at.
unfoldable pub prefix_at_end : Bytes → ℕ → ℕ → Option ℕ
prefix_at_end bytes pos zero = none
prefix_at_end bytes pos (suc i) =
    let rest = prefix_at_end bytes pos i in
    if memcmp_eq (drop (pos - suc i) bytes) auth_end_string (suc i) then some (suc i) else rest

-- The offset that is kept if the loop finds nothing.
abbrev pub or_offset : Option ℕ → Option ℕ → Option ℕ
or_offset none offset = offset
or_offset (some i) offset = some i

-- `match - buffer->data + strlen (AUTH_END_STRING)` for a match at `m` from the start of the
-- structure, whose `data` stands at offset 32. A negative result is `none`.
abbrev pub match_end : ℕ → Option ℕ
match_end m = if leb 32 (m + 9) then some (m + 9 - 32) else none

-- From the look inside the buffer on. memmem starts at the structure, not at its data: `fields`
-- are the 32 bytes in front of the data.
unfoldable pub look_inside : Bytes → Option ℕ → Buffer → Option ℕ × Option ℕ
unfolding memmem prefix_at_end
look_inside fields offset buffer =
    elim (memmem (take buffer.pos (fields ++ buffer.bytes)) auth_end_string) [
      | some m ↦ (offset, match_end m)
      | none ↦ (or_offset (prefix_at_end buffer.bytes buffer.pos (min 8 buffer.pos)) offset, none)
    ]

-- The leftover of the string from `k` on at the start.
unfoldable pub match_leftover : Bytes → ℕ → Buffer → Option ℕ × Option ℕ
unfolding look_inside
match_leftover fields k buffer =
    let to_match = min (9 - k) buffer.pos in
    if memcmp_eq buffer.bytes (drop k auth_end_string) to_match
    then (some (k + to_match), if k + to_match == 9 then some to_match else none)
    else look_inside fields none buffer

-- The new auth_end_offset, `none` for -1, and the result, `none` where it is negative.
unfoldable pub find_auth_end : Bytes → Client → Buffer → Option ℕ × Option ℕ
unfolding match_leftover
find_auth_end fields c buffer = elim c.auth_end_offset [
  | some k ↦ match_leftover fields k buffer
  | none ↦ look_inside fields none buffer
]
