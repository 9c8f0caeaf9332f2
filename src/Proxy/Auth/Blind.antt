-- ===== src/Proxy/Auth/Blind.antt =====
-- The bytes that find_auth_end of dbus-proxy/xdg-app-proxy.c looks at.
use xdg_app.Prelude.{Bytes, ap, arith, length, none, take, take-append_le, ◌++◌, ◌∙◌, ◌≡◌, ◌≤◌}
use xdg_app.Proxy.Auth.{auth_end_string, find_auth_end, look_inside, memmem}
use xdg_app.Proxy.State.{Buffer, Client}

-- When the last read left no part of the string open and no more bytes are read now than the
-- structure has in front of its data, the end is not found, whatever was read, provided the
-- string does not stand in those fields.
pub find_auth_end_blind :
    (fields : Bytes) (c : Client) (buffer : Buffer)
    → c.auth_end_offset ≡ none
    → buffer.pos ≤ length fields
    → memmem (take buffer.pos fields) auth_end_string ≡ none
    → (find_auth_end fields c buffer).1 ≡ none
unfolding find_auth_end look_inside
find_auth_end_blind fields c buffer offset short absent =
    let e : memmem (take buffer.pos (fields ++ buffer.bytes)) auth_end_string ≡ none =
      ap (λ t. memmem t auth_end_string) (take-append_le buffer.pos fields buffer.bytes short)
      ∙ absent in
    ground (arith, e, offset)
