-- ===== src/Proxy/State/Expected.antt =====
-- The replies that one side waits for (dbus-proxy/xdg-app-proxy.c).
use xdg_app.Prelude.{
  ==_iff, Bool-cases, arith, bytes_eq, direct_eq, if◌then◌else◌, inl, inr, lookup, lookup-remove,
  lookup-replace, refl, subst, ℕ, ◌==◌, ◌≡◌,
}
use xdg_app.Proxy.State.{
  ExpectedReplyType, ProxySide, expect_none, forget_expected, or_none, queue_expected_reply,
  steal_expected_reply,
}

-- The type of the reply that is expected for a serial.
abbrev pub expected : ProxySide → ℕ → ExpectedReplyType
expected side serial = or_none (lookup serial side.expected_replies)

forget-expected :
    (side : ProxySide) (serial n : ℕ) (type : ExpectedReplyType)
    → expected side serial ≡ type
    → expected (forget_expected side serial type) n
      ≡ (if serial == n then expect_none else expected side n)
unfolding forget_expected
forget-expected side serial n expect_none e = elim (Bool-cases (serial == n)) [
  | inl same ↦ rw same (subst (λ k. expected side k ≡ expect_none) ((==_iff serial n).0 same) e)
  | inr differ ↦ rw differ
]
forget-expected side serial n _ e = ground (arith, lookup-remove serial n side.expected_replies)

-- A stolen reply is the one that was expected, and is expected no more; all others still are.
pub steal_expected_reply_lem :
    (side : ProxySide) (serial : ℕ)
    → ((steal_expected_reply side serial).1 ≡ expected side serial)
      × ((n : ℕ)
          → expected (steal_expected_reply side serial).0 n
            ≡ (if serial == n then expect_none else expected side n))
unfolding steal_expected_reply
steal_expected_reply_lem side serial =
    (refl, λ n. forget-expected side serial n (expected side serial) refl)

pub queue_expected_reply_lem :
    (side : ProxySide) (serial n : ℕ) (type : ExpectedReplyType)
    → expected (queue_expected_reply side serial type) n
      ≡ (if serial == n then type else expected side n)
unfolding queue_expected_reply
queue_expected_reply_lem side serial n type =
    ground (arith, lookup-replace serial n type side.expected_replies)
