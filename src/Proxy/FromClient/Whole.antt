-- ===== src/Proxy/FromClient/Whole.antt =====
-- A whole message of the client, from its bytes on (got_buffer_from_client of
-- dbus-proxy/xdg-app-proxy.c).
use xdg_app.Prelude.{Option, if_both, none, some, ◌&&◌, ◌∙◌}
use xdg_app.Proxy.Fds.{update_socket_messages}
use xdg_app.Proxy.Fds.Frame.{SameTables, update_socket_messages-SameTables}
use xdg_app.Proxy.FromClient.{after_fds, got_buffer_from_client}
use xdg_app.Proxy.FromClient.Keeps.{Keeps, filter_from_client-Keeps, send_to_bus-Keeps}
use xdg_app.Proxy.Header.{Header, Message, parse_header}
use xdg_app.Proxy.Header.Accepted.{IsFramed}
use xdg_app.Proxy.Header.Serials.{Accepted, parse_header-Ends}
use xdg_app.Proxy.Message.{Platform}
use xdg_app.Proxy.State.{Buffer, Client, client_end, expect_none, side_closed}
use xdg_app.Proxy.State.Closing.{side_closed-IsConsistent, side_closed-records}
use xdg_app.Proxy.State.Consistent.{IsConsistent, IsConsistent-same}
use xdg_app.Proxy.Wire.{Parsed, crash, invalid, ok, out_of_fuel}
use xdg_app.Proxy.Wire.Ends.{Ends}

-- The step ended, and kept what is to be kept.
abbrev pub EndsKept : Client → Option Client → Type 0
EndsKept c none = ⊥
EndsKept c (some c') = Keeps c c'

kept_after_fds :
    (pf : Platform) (c : Client) (h : Header) (t : Client × Option Buffer)
    → IsConsistent c
    → SameTables c t.0
    → Keeps c (after_fds pf h t)
kept_after_fds pf c h (c', none) i (e, r, o, p) = (IsConsistent-same c c' e r o i, p)
kept_after_fds pf c h (c', some buffer) i (e, r, o, p) =
    let (j, q) = filter_from_client-Keeps pf c' h buffer (IsConsistent-same c c' e r o i) in
    (j, q ∙ p)

kept_if_parsed :
    (pf : Platform) (c : Client) (buffer : Buffer) (P : Message → Type 0) (r : Parsed Message)
    → IsConsistent c
    → Ends P r
    → EndsKept c (elim r [
      | ok (h, bytes) ↦
          some (
            after_fds pf h
              (update_socket_messages client_end c (record buffer { bytes = bytes }) h))
      | invalid ↦ some (side_closed client_end c)
      | crash ↦ none
      | out_of_fuel ↦ none
    ])
kept_if_parsed pf c buffer P (ok (h, bytes)) i ends =
    kept_after_fds pf c h _ i
      (update_socket_messages-SameTables client_end c (record buffer { bytes = bytes }) h)
kept_if_parsed pf c buffer P invalid i ends =
    (side_closed-IsConsistent client_end c i, (side_closed-records client_end c).2)
kept_if_parsed pf c buffer P crash i ends = ends
kept_if_parsed pf c buffer P out_of_fuel i ends = ends

-- Whatever bytes the client sends as a message, if they are as many as
-- g_dbus_message_bytes_needed asked for, handling them does not crash the proxy, leaves its records
-- complete, and changes the policy of no unique id.
pub got_buffer_from_client-EndsKept :
    (pf : Platform) (c : Client) (buffer : Buffer)
    → IsFramed buffer.bytes buffer.size
    → IsConsistent c
    → EndsKept c (got_buffer_from_client pf c buffer)
unfolding got_buffer_from_client
got_buffer_from_client-EndsKept pf c buffer framed i =
    if_both (EndsKept c) (c.authenticated && c.proxy.filter)
      (kept_if_parsed pf c buffer (Accepted buffer.bytes buffer.size framed c.serial_offset 0 0)
        (parse_header buffer.bytes buffer.size c.serial_offset 0 0) i
        (parse_header-Ends buffer.bytes buffer.size framed c.serial_offset 0 0))
      (send_to_bus-Keeps pf c buffer expect_none i)
