-- ===== src/Proxy/Fds.antt =====
-- File descriptors on their way through the proxy: side_get_n_unix_fds and
-- update_socket_messages of dbus-proxy/xdg-app-proxy.c.
pub mod Frame
use xdg_app.Prelude.{List, Option, [], if◌then◌else◌, length, ltb, none, some, ℕ, ◌++◌, ◌==◌, ◌∷◌}
use xdg_app.Proxy.Header.{Header}
use xdg_app.Proxy.State.{
  Buffer, Client, Control, End, fd_message, get_side, other_control, set_side, side_closed,
}

-- The loop of side_get_n_unix_fds: the control messages that are left, and the one that carries
-- the descriptors, `none` where the C code returns NULL.
unfoldable pub get_n_unix_fds : List Control → ℕ → List Control × Option Control
get_n_unix_fds [] n_fds = ([], none)
get_n_unix_fds (other_control ∷ rest) n_fds = get_n_unix_fds rest n_fds
get_n_unix_fds (fd_message fds ∷ rest) n_fds =
    if length fds == n_fds then (rest, some (fd_message fds)) else (fd_message fds ∷ rest, none)

abbrev pub set_control : End → List Control → Client → Client
set_control e msgs c = set_side e (record (get_side e c) { control_messages = msgs }) c

-- The second half of update_socket_messages.
unfoldable pub attach_fds :
    End → Client → Buffer → List Control × Option Control → Client × Option Buffer
unfolding side_closed
attach_fds e c buffer (rest, none) = (side_closed e (set_control e rest c), none)
attach_fds e c buffer (rest, some message) =
    (set_control e rest c, some (record buffer { control_messages = message ∷ [] }))

-- `none` beside the state where the C code returns FALSE, with the buffer freed.
unfoldable pub update_socket_messages : End → Client → Buffer → Header → Client × Option Buffer
unfolding get_n_unix_fds attach_fds
update_socket_messages e c buffer h =
    let msgs = (get_side e c).control_messages ++ buffer.control_messages in
    if ltb 0 h.unix_fds
    then attach_fds e c (record buffer { control_messages = [] }) (get_n_unix_fds msgs h.unix_fds)
    else (set_control e msgs c, some (record buffer { control_messages = [] }))
