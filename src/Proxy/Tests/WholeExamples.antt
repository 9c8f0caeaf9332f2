-- ===== src/Proxy/Tests/WholeExamples.antt =====
-- Whole messages at work.
use xdg_app.Prelude.{
  Bool, Bytes, [], arith, bytes_eq, direct_eq, if_both, is_some, lookup, refl, true, ℕ, ◌*◌, ◌+◌,
  ◌/◌, ◌==◌, ◌∷◌, ◌≡◌, ◌≤◌,
}
use xdg_app.Proxy.FromBus.{got_buffer_from_bus}
use xdg_app.Proxy.FromBus.Deliver.{Goes}
use xdg_app.Proxy.FromBus.Safety.{IsTrusted}
use xdg_app.Proxy.FromBus.Whole.{ReadsRefusal, got_buffer_from_bus-Goes}
use xdg_app.Proxy.FromClient.{got_buffer_from_client}
use xdg_app.Proxy.FromClient.Whole.{EndsKept, got_buffer_from_client-EndsKept}
use xdg_app.Proxy.Header.{Header, byte_order, parse_header}
use xdg_app.Proxy.Header.Accepted.{IsFramed}
use xdg_app.Proxy.Message.{body_arg, get_arg0_string}
use xdg_app.Proxy.State.{
  Buffer, Client, buffer_new, expect_fake_get_name_owner, expect_hello, expect_rewrite, or_none,
}
use xdg_app.Proxy.State.Consistent.{IsConsistent}
use xdg_app.Proxy.Tests.{test_client, toy}
use xdg_app.Proxy.Tests.BytesExamples.{call-IsFramed, call_bytes, small-AreBytes}
use xdg_app.Proxy.Wire.{ok, read_byte, read_uint32, word}

abbrev started : Client
started = record test_client { authenticated = true }

abbrev whole_call : Buffer
whole_call = record (buffer_new 48) { pos = 48; bytes = call_bytes }

started-IsConsistent : IsConsistent started
unfolding lookup
started-IsConsistent = record { rewrites = λ n e. cc; owners = λ n e. cc }

got_buffer_from_client-EndsKept_example :
    EndsKept started (got_buffer_from_client toy started whole_call)
got_buffer_from_client-EndsKept_example =
    got_buffer_from_client-EndsKept toy started whole_call call-IsFramed started-IsConsistent

-- The answer of the bus to the Hello with serial 4.
abbrev reply_bytes : Bytes
reply_bytes =
    108 ∷ 2 ∷ 0 ∷ 1 ∷ 0 ∷ 0 ∷ 0 ∷ 0 ∷ 1 ∷ 0 ∷ 0 ∷ 0 ∷ 8 ∷ 0 ∷ 0 ∷ 0 ∷ 5 ∷ 1 ∷ 117 ∷ 0 ∷ 4 ∷ 0 ∷ 0
    ∷ 0 ∷ []

reply_room :
    (c : ℕ) (big_endian : Bool) (array_len : ℕ)
    → read_byte reply_bytes 0 ≡ ok c
    → byte_order c ≡ ok big_endian
    → read_uint32 big_endian reply_bytes 12 ≡ ok array_len
    → 8 * ((16 + array_len + 7) / 8) ≤ 24
unfolding read_byte byte_order read_uint32 word
reply_room c big_endian array_len first order len = ground arith

reply-IsFramed : IsFramed reply_bytes 24
reply-IsFramed = record {
  are_bytes = small-AreBytes reply_bytes refl;
  whole = refl;
  small = omega arith;
  room = reply_room;
}

abbrev whole_reply : Buffer
whole_reply = record (buffer_new 24) { pos = 24; bytes = reply_bytes }

abbrev greeting : Client
greeting = record started {
  client_side = record started.client_side { expected_replies = (4, expect_hello) ∷ [] };
}

greeting-IsTrusted : (h : Header) (bytes : Bytes) → IsTrusted toy greeting h bytes
unfolding get_arg0_string body_arg
greeting-IsTrusted h bytes = record { hello = λ e f. refl; owner = λ e f. refl }

greeting-IsConsistent : IsConsistent greeting
unfolding lookup
greeting-IsConsistent = record {
  rewrites = λ n.
      if_both (λ o. or_none o ≡ expect_rewrite → is_some (lookup n greeting.rewrite_reply) ≡ true)
        (4 == n) (λ e. cc) (λ e. cc);
  owners = λ n.
      if_both
        (λ o.
          or_none o ≡ expect_fake_get_name_owner
          → is_some (lookup n greeting.get_owner_reply) ≡ true)
        (4 == n) (λ e. cc) (λ e. cc);
}

got_buffer_from_bus-Goes_example :
    Goes
      (ReadsRefusal greeting (parse_header reply_bytes 24 0 0 0))
      greeting
      (got_buffer_from_bus toy greeting whole_reply)
got_buffer_from_bus-Goes_example =
    got_buffer_from_bus-Goes toy greeting whole_reply reply-IsFramed greeting-IsConsistent
      (λ h bytes parsed. greeting-IsTrusted h bytes)
