-- ===== src/Proxy/Auth/Bounds.antt =====
-- The end that find_auth_end of dbus-proxy/xdg-app-proxy.c finds lies in what was read.
use xdg_app.Prelude.{
  Bytes, Option, Option-cases, [], arith, inl, inr, length, length-take_le, none, some, take, ℕ,
  ◌++◌, ◌+◌, ◌∷◌, ◌≡◌, ◌≤◌,
}
use xdg_app.Proxy.Auth.{auth_end_string, find_auth_end, look_inside, match_leftover, memmem}
use xdg_app.Proxy.State.{Buffer, Client}

memmem-bound :
    (hay needle : Bytes) (m : ℕ) → memmem hay needle ≡ some m → m + length needle ≤ length hay
unfolding memmem
memmem-bound [] needle m h = cc
memmem-bound (b ∷ hay) needle m h = elim (Option-cases (memmem hay needle)) [
  | inl gone ↦ ground (arith, gone)
  | inr (k, there) ↦ ground (arith, there, memmem-bound hay needle k there)
]

look_inside-bound :
    (fields : Bytes) (offset : Option ℕ) (buffer : Buffer) (n : ℕ)
    → (look_inside fields offset buffer).1 ≡ some n
    → n ≤ buffer.pos
unfolding look_inside
look_inside-bound fields offset buffer n h =
    let hay = take buffer.pos (fields ++ buffer.bytes) in
    elim (Option-cases (memmem hay auth_end_string)) [
      | inl gone ↦ ground (arith, gone)
      | inr (m, there) ↦ ground (
        arith,
        there,
        memmem-bound hay auth_end_string m there,
        length-take_le buffer.pos (fields ++ buffer.bytes),
      )
    ]

match_leftover-bound :
    (fields : Bytes) (k : ℕ) (buffer : Buffer) (n : ℕ)
    → (match_leftover fields k buffer).1 ≡ some n
    → n ≤ buffer.pos
unfolding match_leftover
match_leftover-bound fields k buffer n h = ground (arith, look_inside-bound fields none buffer n)

-- The end that is found is no further than the bytes that were read.
pub find_auth_end-bound :
    (fields : Bytes) (c : Client) (buffer : Buffer) (n : ℕ)
    → (find_auth_end fields c buffer).1 ≡ some n
    → n ≤ buffer.pos
unfolding find_auth_end
find_auth_end-bound fields c buffer n h = elim (Option-cases c.auth_end_offset) [
  | inl gone ↦ ground (arith, gone, look_inside-bound fields none buffer n)
  | inr (k, there) ↦ ground (arith, there, match_leftover-bound fields k buffer n)
]
