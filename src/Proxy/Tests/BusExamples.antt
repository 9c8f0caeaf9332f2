-- ===== src/Proxy/Tests/BusExamples.antt =====
-- Messages of the bus at work.
use xdg_app.Prelude.{
  [], bytes_eq, codes, direct_eq, false, if_both, lookup, not, refl, remove, some, str_eq, true,
  ◌&&◌, ◌==◌, ◌||◌, ◌∷◌, ◌≡◌, ◌≢◌,
}
use xdg_app.Proxy.FromBus.{
  deliver_other, deliver_reply, filter_broadcast, filter_from_bus, filter_reply,
}
use xdg_app.Proxy.FromBus.Listing.{Lists, listing_of, reply_listing}
use xdg_app.Proxy.FromBus.Mediation.{Queue, is_hidden, message_mediation, queue_if}
use xdg_app.Proxy.FromBus.Replay.{NoListing, bus_messages, no_replay}
use xdg_app.Proxy.Header.{Header, message_error, method_return}
use xdg_app.Proxy.Message.{DBusMessage, Platform, new_message}
use xdg_app.Proxy.Names.{client_get_policy, message_is_name_owner_changed}
use xdg_app.Proxy.State.{
  Client, client_end, expect_fake_list_names, expect_filter, expect_list_names, forget_expected,
  init_side, is_empty, or_none, side_closed, steal_expected_reply,
}
use xdg_app.Proxy.State.Closing.{HoldsRef, side_closed_lem}
use xdg_app.Proxy.Tests.{test_buffer, test_client, test_name, test_reply, test_signal, toy}

message_mediation_example : Queue (filter_from_bus toy test_client test_signal test_buffer) (
    queue_if
      (not (test_signal.message_type == method_return || test_signal.message_type == message_error)
        && not (is_hidden test_client test_signal))
      []
      test_buffer)
unfolding message_is_name_owner_changed str_eq codes
message_mediation_example = message_mediation toy test_client test_signal test_buffer refl refl

abbrev waiting : Client
waiting = record test_client {
  client_side = record (init_side false) { expected_replies = (4, expect_filter) ∷ [] };
}

first_reply : filter_from_bus toy waiting test_reply test_buffer ≡ some test_client
unfolding filter_from_bus filter_reply steal_expected_reply forget_expected deliver_reply
    filter_broadcast lookup remove
first_reply = refl

waiting-NoListing : NoListing waiting
unfolding lookup
waiting-NoListing n = if_both (λ o. or_none o ≢ expect_fake_list_names) (4 == n) (λ e. cc) (λ e. cc)

-- A signal comes between.
between_signal : bus_messages toy ((test_signal, test_buffer) ∷ []) test_client ≡ some test_client
unfolding bus_messages filter_from_bus deliver_other filter_broadcast message_is_name_owner_changed
    client_get_policy lookup str_eq codes
between_signal = refl

no_replay_example : filter_from_bus toy test_client test_reply test_buffer ≡ some test_client
unfolding lookup
no_replay_example =
    no_replay toy waiting test_reply test_buffer test_client test_client
      ((test_signal, test_buffer) ∷ []) test_reply test_buffer waiting-NoListing refl first_reply
      between_signal refl refl

-- A bus with two names, of which the client may see the first.
abbrev names_message : DBusMessage
names_message = listing_of new_message (test_name ∷ (122 ∷ []) ∷ [])

abbrev lister : Platform
lister = record toy { from_blob = λ blob. some names_message }

abbrev listing_client : Client
listing_client = record test_client {
  client_side = record (init_side false) { expected_replies = (4, expect_list_names) ∷ [] };
}

abbrev names_reply : Header
names_reply = record test_reply { message_type = method_return }

reply_listing_example :
    (c' : Client) × (filter_from_bus lister listing_client names_reply test_buffer ≡ some c')
    × Lists lister listing_client names_reply test_buffer names_message
        (test_name ∷ (122 ∷ []) ∷ [])
        c'
unfolding lookup
reply_listing_example =
    reply_listing lister listing_client names_reply test_buffer names_message
      (test_name ∷ (122 ∷ []) ∷ []) [] refl refl refl refl refl

side_closed_lem_example :
    let c' = side_closed client_end test_client in
    (c'.client_side.closed ≡ true)
    × HoldsRef c'
    × (c'.bus_side.closed ≡ false || (not false && is_empty test_client.bus_side.buffers))
    × (side_closed client_end c' ≡ c')
side_closed_lem_example = side_closed_lem client_end test_client refl
