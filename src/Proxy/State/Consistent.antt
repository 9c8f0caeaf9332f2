-- ===== src/Proxy/State/Consistent.antt =====
-- Every reply that the proxy means to rewrite, and every owner that it asked for, is on record
-- (dbus-proxy/xdg-app-proxy.c).
use xdg_app.Prelude.{
  ==_iff, Bytes, arith, bytes_eq, direct_eq, is_some, lookup, lookup-remove, lookup-replace, remove,
  replace, true, ℕ, ◌≡◌, ◌≢◌,
}
use xdg_app.Proxy.Message.{DBusMessage}
use xdg_app.Proxy.State.{
  Client, ExpectedReplyType, ProxySide, expect_fake_get_name_owner, expect_none, expect_rewrite,
  queue_expected_reply, steal_expected_reply,
}
use xdg_app.Proxy.State.Expected.{expected, queue_expected_reply_lem, steal_expected_reply_lem}

pub record IsConsistent (c : Client) : Type 0 where
  pub rewrites :
      (n : ℕ)
      → expected c.client_side n ≡ expect_rewrite
      → is_some (lookup n c.rewrite_reply) ≡ true
  pub owners :
      (n : ℕ)
      → expected c.client_side n ≡ expect_fake_get_name_owner
      → is_some (lookup n c.get_owner_reply) ≡ true

-- Only three tables matter.
pub IsConsistent-same :
    (c c' : Client)
    → c'.client_side.expected_replies ≡ c.client_side.expected_replies
    → c'.rewrite_reply ≡ c.rewrite_reply
    → c'.get_owner_reply ≡ c.get_owner_reply
    → IsConsistent c
    → IsConsistent c'
IsConsistent-same c c' e r o i = record {
  rewrites = λ n h. rw r (i.rewrites n (rw (← e) h));
  owners = λ n h. rw o (i.owners n (rw (← e) h));
}

-- A reply of a kind that needs no record.
abbrev pub NeedsNone : ExpectedReplyType → Type 0
NeedsNone type = (type ≢ expect_rewrite) × (type ≢ expect_fake_get_name_owner)

pub IsConsistent-queue :
    (c : Client) (serial : ℕ) (type : ExpectedReplyType)
    → NeedsNone type
    → IsConsistent c
    → IsConsistent (record c { client_side = queue_expected_reply c.client_side serial type })
IsConsistent-queue c serial type needs i = record {
  rewrites =
      λ n e. ground (arith, queue_expected_reply_lem c.client_side serial n type, i.rewrites n);
  owners = λ n e. ground (arith, queue_expected_reply_lem c.client_side serial n type, i.owners n);
}

module _ (c : Client) (serial : ℕ) (i : IsConsistent c) where
  -- A Ping whose reply will be replaced.
  pub IsConsistent-rewrite :
      (m : DBusMessage)
      → IsConsistent (record c {
        client_side = queue_expected_reply c.client_side serial expect_rewrite;
        rewrite_reply = replace serial m c.rewrite_reply;
      })
  IsConsistent-rewrite m = record {
    rewrites = λ n e. ground (
      arith,
      queue_expected_reply_lem c.client_side serial n expect_rewrite,
      i.rewrites n,
      lookup-replace serial n m c.rewrite_reply,
    );
    owners = λ n e.
        ground (arith, queue_expected_reply_lem c.client_side serial n expect_rewrite, i.owners n);
  }

  -- A question for the owner of a name.
  pub IsConsistent-get_owner :
      (side : ProxySide) (name : Bytes)
      → IsConsistent (record c {
        client_side = queue_expected_reply c.client_side serial expect_fake_get_name_owner;
        get_owner_reply = replace serial name c.get_owner_reply;
        bus_side = side;
      })
  IsConsistent-get_owner side name = record {
    rewrites = λ n e. ground (
      arith,
      queue_expected_reply_lem c.client_side serial n expect_fake_get_name_owner,
      i.rewrites n,
    );
    owners = λ n e. ground (
      arith,
      queue_expected_reply_lem c.client_side serial n expect_fake_get_name_owner,
      i.owners n,
      lookup-replace serial n name c.get_owner_reply,
    );
  }

  -- A reply that has come: no other record is lost.
  pub IsConsistent-steal :
      IsConsistent (record c { client_side = (steal_expected_reply c.client_side serial).0 })
  IsConsistent-steal = record {
    rewrites =
        λ n e. ground (arith, (steal_expected_reply_lem c.client_side serial).1 n, i.rewrites n);
    owners = λ n e. ground (arith, (steal_expected_reply_lem c.client_side serial).1 n, i.owners n);
  }

  -- The record of a reply that is expected no more can go.
  pub IsConsistent-remove_rewrite :
      expected c.client_side serial ≡ expect_none
      → IsConsistent (record c { rewrite_reply = remove serial c.rewrite_reply })
  IsConsistent-remove_rewrite gone = record {
    rewrites = λ n e.
        ground (arith, i.rewrites n, lookup-remove serial n c.rewrite_reply, ==_iff serial n);
    owners = i.owners;
  }

  pub IsConsistent-remove_owner :
      expected c.client_side serial ≡ expect_none
      → IsConsistent (record c { get_owner_reply = remove serial c.get_owner_reply })
  IsConsistent-remove_owner gone = record {
    rewrites = i.rewrites;
    owners = λ n e.
        ground (arith, i.owners n, lookup-remove serial n c.get_owner_reply, ==_iff serial n);
  }
