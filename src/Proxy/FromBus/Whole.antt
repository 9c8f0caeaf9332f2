-- ===== src/Proxy/FromBus/Whole.antt =====
-- A whole message of the bus, from its bytes on (got_buffer_from_bus of
-- dbus-proxy/xdg-app-proxy.c).
use xdg_app.Prelude.{Bytes, Option, if_both, none, refl, some, ◌&&◌, ◌≡◌}
use xdg_app.Proxy.Fds.{update_socket_messages}
use xdg_app.Proxy.Fds.Frame.{
  SameTables, update_socket_messages-SameTables, update_socket_messages-bytes,
}
use xdg_app.Proxy.FromBus.{filter_attached, filter_from_bus, got_buffer_from_bus}
use xdg_app.Proxy.FromBus.Deliver.{Goes}
use xdg_app.Proxy.FromBus.Safety.{IsTrusted, RefusesHello, filter_from_bus-Goes}
use xdg_app.Proxy.Header.{Header, Message, parse_header}
use xdg_app.Proxy.Header.Accepted.{IsFramed}
use xdg_app.Proxy.Header.Serials.{Accepted, parse_header-Ends}
use xdg_app.Proxy.Message.{Platform}
use xdg_app.Proxy.Names.Sticky.{Grows-same, Grows-trans}
use xdg_app.Proxy.State.{Buffer, Client, bus_end, queue_outgoing_buffer, side_closed}
use xdg_app.Proxy.State.Closing.{side_closed-IsConsistent, side_closed-records}
use xdg_app.Proxy.State.Consistent.{IsConsistent, IsConsistent-same}
use xdg_app.Proxy.Wire.{Parsed, crash, invalid, ok, out_of_fuel}
use xdg_app.Proxy.Wire.Ends.{Ends}

IsTrusted-same :
    (pf : Platform) (c c' : Client) (h : Header) (blob blob' : Bytes)
    → c'.client_side.expected_replies ≡ c.client_side.expected_replies
    → blob' ≡ blob
    → IsTrusted pf c h blob
    → IsTrusted pf c' h blob'
IsTrusted-same pf c c' h blob blob' e b t = record {
  hello = λ x y. rw b (t.hello (rw (← e) x) y);
  owner = λ x y. rw b (t.owner (rw (← e) x) y);
}

Goes-same :
    (reason reason' : Type 0) (c c' : Client) (o : Option Client)
    → c'.unique_id_policy ≡ c.unique_id_policy
    → (reason → reason')
    → Goes reason c' o
    → Goes reason' c o
Goes-same reason reason' c c' none e f g = f g
Goes-same reason reason' c c' (some d) e f (i, g) = (i, Grows-trans c c' d (Grows-same c c' e) g)

Goes-after_fds :
    (pf : Platform) (c : Client) (h : Header) (bytes : Bytes) (t : Client × Option Buffer)
    → IsConsistent c
    → SameTables c t.0
    → ((b : Buffer) → t.1 ≡ some b → b.bytes ≡ bytes)
    → IsTrusted pf c h bytes
    → Goes (RefusesHello c h) c (filter_attached pf h t)
Goes-after_fds pf c h bytes (c', none) i (e, r, o, p) same trust =
    (IsConsistent-same c c' e r o i, Grows-same c c' p)
Goes-after_fds pf c h bytes (c', some b) i (e, r, o, p) same trust =
    Goes-same (RefusesHello c' h) (RefusesHello c h) c c' (filter_from_bus pf c' h b) p
      (λ (reply, hello, error). (reply, rw (← e) hello, error))
      (filter_from_bus-Goes pf c' h b (IsConsistent-same c c' e r o i)
        (IsTrusted-same pf c c' h bytes b.bytes e (same b refl) trust))

-- The message that was read answers a Hello with something that is no method return.
abbrev pub ReadsRefusal : Client → Parsed Message → Type 0
ReadsRefusal c (ok (h, bytes)) = RefusesHello c h
ReadsRefusal c _ = ⊥

Goes-if_parsed :
    (pf : Platform) (c : Client) (buffer : Buffer) (P : Message → Type 0) (r : Parsed Message)
    → IsConsistent c
    → Ends P r
    → ((h : Header) (bytes : Bytes) → r ≡ ok (h, bytes) → IsTrusted pf c h bytes)
    → Goes (ReadsRefusal c r) c (elim r [
      | ok (h, bytes) ↦
          filter_attached pf h
            (update_socket_messages bus_end c (record buffer { bytes = bytes }) h)
      | invalid ↦ some (side_closed bus_end c)
      | crash ↦ none
      | out_of_fuel ↦ none
    ])
Goes-if_parsed pf c buffer P (ok (h, bytes)) i ends trust =
    let whole = record buffer { bytes = bytes } in
    Goes-after_fds pf c h bytes (update_socket_messages bus_end c whole h) i
      (update_socket_messages-SameTables bus_end c whole h)
      (update_socket_messages-bytes bus_end c whole h) (trust h bytes refl)
Goes-if_parsed pf c buffer P invalid i ends trust = (
  side_closed-IsConsistent bus_end c i,
  Grows-same c (side_closed bus_end c) (side_closed-records bus_end c).2,
)
Goes-if_parsed pf c buffer P crash i ends trust = ends
Goes-if_parsed pf c buffer P out_of_fuel i ends trust = ends

-- Whatever bytes come from the bus as a message, if they are as many as
-- g_dbus_message_bytes_needed asked for and a method return to Hello or GetNameOwner carries a
-- string, handling them leaves the records complete and lowers the policy of no unique id. It
-- crashes the proxy only if the message is an answer to Hello that is no method return.
pub got_buffer_from_bus-Goes :
    (pf : Platform) (c : Client) (buffer : Buffer)
    → IsFramed buffer.bytes buffer.size
    → IsConsistent c
    → ((h : Header) (bytes : Bytes)
        → parse_header buffer.bytes buffer.size 0 c.serial_offset c.hello_serial ≡ ok (h, bytes)
        → IsTrusted pf c h bytes)
    → Goes
        (ReadsRefusal c (parse_header buffer.bytes buffer.size 0 c.serial_offset c.hello_serial))
        c
        (got_buffer_from_bus pf c buffer)
unfolding got_buffer_from_bus queue_outgoing_buffer
got_buffer_from_bus-Goes pf c buffer framed i trust =
    let passed = record c { client_side = queue_outgoing_buffer c.client_side buffer } in
    let read = parse_header buffer.bytes buffer.size 0 c.serial_offset c.hello_serial in
    if_both (Goes (ReadsRefusal c read) c) (c.authenticated && c.proxy.filter)
      (Goes-if_parsed pf c buffer
        (Accepted buffer.bytes buffer.size framed 0 c.serial_offset c.hello_serial) read i
        (parse_header-Ends buffer.bytes buffer.size framed 0 c.serial_offset c.hello_serial) trust)
      (IsConsistent-same c passed refl refl refl i, Grows-same c passed refl)
