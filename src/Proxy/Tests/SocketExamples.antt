-- ===== src/Proxy/Tests/SocketExamples.antt =====
-- Sockets at work.
use xdg_app.Prelude.{Bytes, [], arith, false, none, refl, some, str_eq, true, ◌∷◌, ◌≡◌}
use xdg_app.Proxy.Auth.{find_auth_end, memmem}
use xdg_app.Proxy.Auth.Blind.{find_auth_end_blind}
use xdg_app.Proxy.Auth.Chunks.{find_in_reads, find_in_reads_lem}
use xdg_app.Proxy.Input.{in_handshake}
use xdg_app.Proxy.Input.Handshake.{PassesOn, in_handshake-PassesOn}
use xdg_app.Proxy.Output.{out_loop, sent}
use xdg_app.Proxy.Output.Conserves.{Conserves, out_loop-Conserves}
use xdg_app.Proxy.State.{Buffer, Client, buffer_new, bus_end, client_end, init_side, zeros}
use xdg_app.Proxy.Tests.{test_buffer, test_client, toy}

abbrev field_bytes : Bytes
field_bytes = zeros 32

abbrev half_read : Client
half_read = record test_client { client_side = record (init_side false) { got_first_byte = true } }

abbrev begin_line : Bytes
begin_line = 66 ∷ 69 ∷ 71 ∷ 73 ∷ 78 ∷ 13 ∷ 10 ∷ []

in_handshake-PassesOn_example :
    PassesOn half_read test_buffer (in_handshake toy field_bytes client_end half_read test_buffer)
in_handshake-PassesOn_example =
    in_handshake-PassesOn toy field_bytes half_read test_buffer refl (omega arith) refl

find_in_reads_lem_example :
    find_in_reads field_bytes half_read
      ((66 ∷ 69 ∷ 71 ∷ [], []) ∷ (73 ∷ 78 ∷ 13 ∷ 10 ∷ [], []) ∷ [])
    ≡ some 7
find_in_reads_lem_example =
    find_in_reads_lem field_bytes half_read [] 2
      ((66 ∷ 69 ∷ 71 ∷ [], []) ∷ (73 ∷ 78 ∷ 13 ∷ 10 ∷ [], []) ∷ []) (omega arith) refl refl

-- The end of the authentication in one read, behind other bytes: it is not found.
abbrev one_packet : Buffer
one_packet = record (buffer_new 64) { pos = 10; bytes = 75 ∷ 13 ∷ 10 ∷ begin_line }

abbrev no_leftover : Client
no_leftover = record half_read { auth_end_offset = none }

find_auth_end_blind_example : (find_auth_end field_bytes no_leftover one_packet).1 ≡ none
unfolding memmem str_eq
find_auth_end_blind_example =
    find_auth_end_blind field_bytes no_leftover one_packet refl (omega arith) refl

abbrev full_client : Client
full_client = record test_client {
  bus_side = record (init_side true) { buffers = record test_buffer { pos = 0 } ∷ [] };
}

out_loop-Conserves_example :
    Conserves true bus_end full_client.bus_side.buffers
      (out_loop true bus_end (sent 2 ∷ sent 5 ∷ []) full_client)
out_loop-Conserves_example =
    out_loop-Conserves true bus_end (sent 2 ∷ sent 5 ∷ []) full_client (λ e. cc, tt)
