-- ===== src/Proxy/State/Closing.antt =====
-- The end of a connection: side_closed of dbus-proxy/xdg-app-proxy.c.
use xdg_app.Prelude.{arith, if◌then◌else◌, not, true, ◌&&◌, ◌||◌, ◌≡◌}
use xdg_app.Proxy.State.{
  Client, End, bus_end, client_end, close_other, get_side, is_empty, other_end, side_closed,
}
use xdg_app.Proxy.State.Consistent.{IsConsistent, IsConsistent-same}

-- Closing leaves what is expected and on record alone.
pub side_closed-replies :
    (e : End) (c : Client)
    → (side_closed e c).client_side.expected_replies ≡ c.client_side.expected_replies
unfolding side_closed close_other
side_closed-replies client_end c = ground arith
side_closed-replies bus_end c = ground arith

pub side_closed-records :
    (e : End) (c : Client)
    → ((side_closed e c).rewrite_reply ≡ c.rewrite_reply)
      × ((side_closed e c).get_owner_reply ≡ c.get_owner_reply)
      × ((side_closed e c).unique_id_policy ≡ c.unique_id_policy)
unfolding side_closed close_other
side_closed-records client_end c = (ground arith, ground arith, ground arith)
side_closed-records bus_end c = (ground arith, ground arith, ground arith)

pub side_closed-IsConsistent :
    (e : End) (c : Client) → IsConsistent c → IsConsistent (side_closed e c)
side_closed-IsConsistent e c i =
    let (r, o, p) = side_closed-records e c in
    IsConsistent-same c (side_closed e c) (side_closed-replies e c) r o i

-- A client holds its reference as long as one of its sides is open.
abbrev pub HoldsRef : Client → Type 0
HoldsRef c = c.refs ≡ (if c.client_side.closed && c.bus_side.closed then 0 else 1)

-- Let the client hold its reference exactly while one of its sides is open. Then after side_closed
-- the side is closed and the client holds its reference exactly while the other side is open. The
-- other side has closed with it if it was open and had nothing to write, and else is as before. To
-- close the side again changes nothing.
pub side_closed_lem :
    (e : End) (c : Client)
    → HoldsRef c
    → let c' = side_closed e c in
      ((get_side e c').closed ≡ true)
      × HoldsRef c'
      × ((get_side (other_end e) c').closed
          ≡ (get_side (other_end e) c).closed
            || (not (get_side e c).closed && is_empty (get_side (other_end e) c).buffers))
      × (side_closed e c' ≡ c')
unfolding side_closed close_other
side_closed_lem client_end c holds = (ground arith, ground arith, ground arith, ground arith)
side_closed_lem bus_end c holds = (ground arith, ground arith, ground arith, ground arith)
