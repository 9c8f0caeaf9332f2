-- ===== src/Proxy/Fds/Frame.antt =====
-- Attaching descriptors changes no table of the client (dbus-proxy/xdg-app-proxy.c).
use xdg_app.Prelude.{List, Option, [], arith, if_both, ltb, none, refl, some, ◌++◌, ◌∙◌, ◌≡◌}
use xdg_app.Proxy.Fds.{attach_fds, get_n_unix_fds, set_control, update_socket_messages}
use xdg_app.Proxy.Header.{Header}
use xdg_app.Proxy.State.{Buffer, Client, Control, End, bus_end, client_end, get_side, side_closed}
use xdg_app.Proxy.State.Closing.{side_closed-records, side_closed-replies}

-- The tables that decide what passes are the same.
abbrev pub SameTables : Client → Client → Type 0
SameTables c c' =
    (c'.client_side.expected_replies ≡ c.client_side.expected_replies)
    × (c'.rewrite_reply ≡ c.rewrite_reply)
    × (c'.get_owner_reply ≡ c.get_owner_reply)
    × (c'.unique_id_policy ≡ c.unique_id_policy)

set_control-SameTables :
    (e : End) (msgs : List Control) (c : Client) → SameTables c (set_control e msgs c)
set_control-SameTables client_end msgs c = (refl, refl, refl, refl)
set_control-SameTables bus_end msgs c = (refl, refl, refl, refl)

SameTables-trans : (c d e : Client) → SameTables c d → SameTables d e → SameTables c e
SameTables-trans c d e (a, b, r, p) (a', b', r', p') = (a' ∙ a, b' ∙ b, r' ∙ r, p' ∙ p)

side_closed-SameTables : (e : End) (c : Client) → SameTables c (side_closed e c)
side_closed-SameTables e c =
    let (r, o, p) = side_closed-records e c in (side_closed-replies e c, r, o, p)

attach_fds-SameTables :
    (e : End) (c : Client) (buffer : Buffer) (o : List Control × Option Control)
    → SameTables c (attach_fds e c buffer o).0
unfolding attach_fds
attach_fds-SameTables e c buffer (rest, none) =
    SameTables-trans c (set_control e rest c) (side_closed e (set_control e rest c))
      (set_control-SameTables e rest c) (side_closed-SameTables e (set_control e rest c))
attach_fds-SameTables e c buffer (rest, some message) = set_control-SameTables e rest c

pub update_socket_messages-SameTables :
    (e : End) (c : Client) (buffer : Buffer) (h : Header)
    → SameTables c (update_socket_messages e c buffer h).0
unfolding update_socket_messages
update_socket_messages-SameTables e c buffer h =
    let msgs = (get_side e c).control_messages ++ buffer.control_messages in
    if_both (λ (t : Client × Option Buffer). SameTables c t.0) (ltb 0 h.unix_fds)
      (attach_fds-SameTables e c (record buffer { control_messages = [] })
        (get_n_unix_fds msgs h.unix_fds))
      (set_control-SameTables e msgs c)

attach_fds-bytes :
    (e : End) (c : Client) (buffer : Buffer) (o : List Control × Option Control) (b : Buffer)
    → (attach_fds e c buffer o).1 ≡ some b
    → b.bytes ≡ buffer.bytes
unfolding attach_fds
attach_fds-bytes e c buffer (rest, none) b h = cc
attach_fds-bytes e c buffer (rest, some message) b h = ground (arith, h)

-- The bytes of the buffer are not touched.
pub update_socket_messages-bytes :
    (e : End) (c : Client) (buffer : Buffer) (h : Header) (b : Buffer)
    → (update_socket_messages e c buffer h).1 ≡ some b
    → b.bytes ≡ buffer.bytes
unfolding update_socket_messages
update_socket_messages-bytes e c buffer h b =
    let msgs = (get_side e c).control_messages ++ buffer.control_messages in
    if_both (λ (t : Client × Option Buffer). t.1 ≡ some b → b.bytes ≡ buffer.bytes)
      (ltb 0 h.unix_fds)
      (attach_fds-bytes e c (record buffer { control_messages = [] })
        (get_n_unix_fds msgs h.unix_fds) b)
      (λ same. ground (arith, same))
