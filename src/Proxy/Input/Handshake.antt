-- ===== src/Proxy/Input/Handshake.antt =====
-- What the proxy passes on before the client is authenticated (side_in_cb and
-- got_buffer_from_client of dbus-proxy/xdg-app-proxy.c).
use mathlib.Core.Option
use xdg_app.Prelude.{
  Bool, Bool-cases, Bytes, Option, [], ap, append-nil, arith, drop, false, if_both, inl, inr, ltb,
  none, not, refl, some, sym, take, take-drop, take-take, true, ℕ, ◌++◌, ◌-◌, ◌<◌, ◌∙◌, ◌∷◌, ◌≡◌,
  ◌≤◌,
}
use xdg_app.Proxy.Auth.{find_auth_end}
use xdg_app.Proxy.Auth.Bounds.{find_auth_end-bound}
use xdg_app.Proxy.FromClient.{got_buffer_from_client, send_to_bus}
use xdg_app.Proxy.Input.{
  cut_buffer, got_buffer_from_side, handshake, in_handshake, look_for_end, set_authenticated,
}
use xdg_app.Proxy.Message.{Platform}
use xdg_app.Proxy.State.{Buffer, Client, ProxySide, client_end, queue_outgoing_buffer}

-- What a buffer will send.
abbrev pub payload : Buffer → Bytes
payload b = take b.size b.bytes

abbrev pub or_nil : Option Bytes → Bytes
or_nil none = []
or_nil (some bytes) = bytes

-- The bytes of the buffer are in what will be sent and what is left over, and nothing else of the
-- client that matters for the handing over has changed.
abbrev Cuts : Client → Buffer → Client × Buffer × Bool → Type 0
Cuts c buffer (c', buffer', found) =
    (payload buffer' ++ or_nil c'.client_side.extra_input_data ≡ take buffer.pos buffer.bytes)
    × (c'.bus_side ≡ c.bus_side)
    × (c'.authenticated ≡ c.authenticated)
    × (found ≡ false → c'.client_side.extra_input_data ≡ none)

module _ (c : Client) (buffer : Buffer) (none_left : c.client_side.extra_input_data ≡ none) where
  uncut :
      take buffer.pos buffer.bytes ++ or_nil c.client_side.extra_input_data
      ≡ take buffer.pos buffer.bytes
  uncut = rw none_left (append-nil (take buffer.pos buffer.bytes))

  cut_buffer-Cuts :
      (offset : Option ℕ) (end : Option ℕ)
      → ((n : ℕ) → end ≡ some n → n ≤ buffer.pos)
      → Cuts c buffer (
          cut_buffer
            (record c { auth_end_offset = offset })
            (record buffer { size = buffer.pos })
            end)
  cut_buffer-Cuts offset none bound = (uncut, refl, refl, λ _. none_left)
  cut_buffer-Cuts offset (some n) bound =
      let within = take-take n buffer.pos buffer.bytes (bound n refl) in
      elim (Bool-cases (ltb 0 (buffer.pos - n))) [
        | inl more ↦ rw more (
          ap (λ t. t ++ drop n (take buffer.pos buffer.bytes)) (sym within)
              ∙ take-drop n (take buffer.pos buffer.bytes),
          refl,
          refl,
          λ e. cc,
        )
        | inr all ↦
            let e : n ≡ buffer.pos = ground (arith, bound n refl) in
            rw all (rw e uncut, refl, refl, λ e. cc)
      ]

  handshake-Cuts : (fields : Bytes) → Cuts c buffer (handshake fields client_end c buffer)
  unfolding handshake look_for_end
  handshake-Cuts fields =
      let whole = record buffer { size = buffer.pos } in
      if_both (Cuts c buffer) (not c.client_side.got_first_byte) (uncut, refl, refl, λ _. none_left)
        (cut_buffer-Cuts (find_auth_end fields c whole).0 (find_auth_end fields c whole).1
          (find_auth_end-bound fields c whole))

-- Without authentication there is no filter.
unfiltered :
    (pf : Platform) (d : Client) (b : Buffer)
    → d.authenticated ≡ false
    → got_buffer_from_side pf client_end d b
      ≡ some (record d { bus_side = queue_outgoing_buffer d.bus_side b })
unfolding got_buffer_from_side got_buffer_from_client send_to_bus
unfiltered pf d b unauth = rw unauth refl

-- The outcome for a buffer.
abbrev pub PassesOn : Client → Buffer → Option Client → Type 0
PassesOn c buffer none = ⊥
PassesOn c buffer (some c') =
    (b : Buffer) × (c'.bus_side.buffers ≡ c.bus_side.buffers ++ b ∷ [])
    × (payload b ++ or_nil c'.client_side.extra_input_data ≡ take buffer.pos buffer.bytes)
    × (c'.authenticated ≡ false → c'.client_side.extra_input_data ≡ none)

handed_over :
    (pf : Platform) (c : Client) (buffer : Buffer) (d : Client) (b : Buffer) (found : Bool)
    → c.authenticated ≡ false
    → Cuts c buffer (d, b, found)
    → PassesOn c buffer
        (Option.map (set_authenticated found) (got_buffer_from_side pf client_end d b))
unfolding queue_outgoing_buffer
handed_over pf c buffer d b true unauth (e, same, auth, later) =
    rw (unfiltered pf d b (auth ∙ unauth)) (
      record b { pos = 0 },
      ap (λ (s : ProxySide). s.buffers ++ record b { pos = 0 } ∷ []) same,
      e,
      λ f. cc,
    )
handed_over pf c buffer d b false unauth (e, same, auth, later) =
    rw (unfiltered pf d b (auth ∙ unauth)) (
      record b { pos = 0 },
      ap (λ (s : ProxySide). s.buffers ++ record b { pos = 0 } ∷ []) same,
      e,
      λ f. later refl,
    )

-- Bytes that are read before the client is authenticated go on to the bus unfiltered, behind what
-- was queued: the new buffer on the queue and the data that is kept for the next turn are together
-- just what was read, if no data was kept before. Data is kept only if the client is authenticated
-- by it.
pub in_handshake-PassesOn :
    (pf : Platform) (fields : Bytes) (c : Client) (buffer : Buffer)
    → c.authenticated ≡ false
    → 0 < buffer.pos
    → c.client_side.extra_input_data ≡ none
    → PassesOn c buffer (in_handshake pf fields client_end c buffer)
unfolding in_handshake
in_handshake-PassesOn pf fields c buffer unauth some_bytes none_left =
    let (d, b, found) = handshake fields client_end c buffer in
    let pass : ltb 0 buffer.pos ≡ true = ground (arith, some_bytes) in
    rw pass (handed_over pf c buffer d b found unauth (handshake-Cuts c buffer none_left fields))
