-- ===== src/Proxy/Output/Writes.antt =====
-- One call of buffer_write loses no byte (dbus-proxy/xdg-app-proxy.c).
use xdg_app.Prelude.{
  Bool, Bytes, List, Option, [], ap, arith, drop, drop-drop, drop-take, false, if_both, if_cases,
  if◌then◌else◌, inl, inr, min, none, refl, some, sym, take, take-drop, take-take, true, ℕ, ◌&&◌,
  ◌++◌, ◌+◌, ◌-◌, ◌==◌, ◌∙◌, ◌∷◌, ◌≡◌, ◌≤◌, ◌⊎◌,
}
use xdg_app.Proxy.Output.{
  Sent, Written, buffer_write, send_failed, send_would_block, sent, write_credentials, write_data,
}
use xdg_app.Proxy.State.{Buffer, Client, End}

-- What a buffer has still to send: for credentials one NUL byte.
abbrev pub unsent : Bool → Buffer → Bytes
unsent unix b =
    if b.send_credentials && unix
    then take (1 - b.pos) (0 ∷ [])
    else drop b.pos (take b.size b.bytes)

abbrev pub unsent_all : Bool → List Buffer → Bytes
unsent_all unix [] = []
unsent_all unix (b ∷ bs) = unsent unix b ++ unsent_all unix bs

-- Credentials that will be sent have a buffer of one byte, which has not been sent.
abbrev pub IsQueued : Bool → Buffer → Type 0
IsQueued unix b = b.send_credentials && unix ≡ true → (b.size ≡ 1) × (b.pos ≡ 0)

-- A buffer that has been sent.
abbrev pub IsSpent : Bool → Buffer → Type 0
IsSpent unix b = (b.pos ≡ b.size) × (unsent unix b ≡ [])

-- A buffer after a write: nothing is lost, and it has been sent or can be written again.
abbrev pub Wrote : Bool → Buffer → Option Written → Type 0
Wrote unix b none = ⊥
Wrote unix b (some w) =
    (w.output ++ unsent unix w.buffer ≡ unsent unix b)
    × (IsQueued unix w.buffer ⊎ (IsSpent unix w.buffer × (w.success ≡ true)))

slice :
    (res pos size : ℕ) (bytes : Bytes)
    → res ≤ size - pos
    → take res (drop pos bytes) ++ drop (pos + res) (take size bytes) ≡ drop pos (take size bytes)
slice res pos size bytes h =
    ap (λ t. take res (drop pos bytes) ++ t) (sym (drop-drop pos res (take size bytes)))
    ∙ (ap (λ t. t ++ drop res (drop pos (take size bytes)))
          (sym (
            ap (take res) (drop-take pos size bytes)
            ∙ take-take res (size - pos) (drop pos bytes) h))
        ∙ take-drop res (drop pos (take size bytes)))

write_data-Wrote :
    (unix : Bool) (e : End) (r : Sent) (c : Client) (b : Buffer)
    → b.send_credentials && unix ≡ false
    → Wrote unix b (some (write_data e r c b))
unfolding write_data
write_data-Wrote unix e send_would_block c b other = (refl, inl (λ f. cc))
write_data-Wrote unix e send_failed c b other = (refl, inl (λ f. cc))
write_data-Wrote unix e (sent n) c b other =
    if_both (λ w. Wrote unix b (some w)) (min n (b.size - b.pos) == 0) (refl, inl (λ f. cc))
      (rw other (slice (min n (b.size - b.pos)) b.pos b.size b.bytes (omega arith)), inl (λ f. cc))

write_credentials-Wrote :
    (unix : Bool) (e : End) (r : Sent) (c : Client) (b : Buffer)
    → b.send_credentials && unix ≡ true
    → b.size ≡ 1
    → b.pos ≡ 0
    → Wrote unix b (write_credentials e r c b)
unfolding write_credentials
write_credentials-Wrote unix e (sent n) c b creds size pos =
    rw size (rw (creds, pos) refl, inr ((refl, rw creds refl), refl))
write_credentials-Wrote unix e send_would_block c b creds size pos =
    rw size (refl, inl (λ _. (refl, pos)))
write_credentials-Wrote unix e send_failed c b creds size pos =
    rw size (refl, inl (λ _. (refl, pos)))

pub buffer_write-Wrote :
    (unix : Bool) (e : End) (r : Sent) (c : Client) (b : Buffer)
    → IsQueued unix b
    → Wrote unix b (buffer_write unix e r c b)
unfolding buffer_write
buffer_write-Wrote unix e r c b queued =
    if_cases (Wrote unix b) (b.send_credentials && unix)
      (λ creds. write_credentials-Wrote unix e r c b creds (queued creds).0 (queued creds).1)
      (λ other. write_data-Wrote unix e r c b other)
