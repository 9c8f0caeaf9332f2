-- ===== src/Proxy/Tests/ClientExamples.antt =====
-- Messages of the client at work.
use xdg_app.Prelude.{if◌then◌else◌, not, refl, true, ℕ, ◌==◌, ◌↔◌, ◌≡◌}
use xdg_app.Proxy.FromClient.{is_expect_none, route}
use xdg_app.Proxy.FromClient.Mediation.{call_mediation, reply_mediation}
use xdg_app.Proxy.FromClient.Rules.{allows}
use xdg_app.Proxy.FromClient.Switch.{Follows}
use xdg_app.Proxy.Handler.{get_dbus_method_handler}
use xdg_app.Proxy.NameOps.{queue_initial_name_ops}
use xdg_app.Proxy.NameOps.Counts.{Queues, initial_name_ops, queue_initial_name_ops-Queues}
use xdg_app.Proxy.Policy.{get_wildcard_policy, talk}
use xdg_app.Proxy.Policy.Wildcard.{Covers, get_wildcard_policy_iff}
use xdg_app.Proxy.State.{expect_none, init_side, steal_expected_reply}
use xdg_app.Proxy.State.Expected.{expected, steal_expected_reply_lem}
use xdg_app.Proxy.Tests.{
  test_buffer, test_call, test_client, test_name, test_proxy, test_reply, toy,
}

call_mediation_example :
    let (c', handler) = get_dbus_method_handler test_client test_call in
    (c' ≡ test_client)
    × Follows toy test_client test_call test_buffer expect_none
        (allows toy test_client test_call test_name)
        (route toy test_client test_call test_buffer expect_none handler)
call_mediation_example = call_mediation toy test_client test_call test_buffer expect_none refl

reply_mediation_example :
    let (c', handler) = get_dbus_method_handler test_client test_reply in
    (expected c'.bus_side 4 ≡ expect_none)
    × Follows toy c' test_reply test_buffer expect_none
        (not (is_expect_none (expected test_client.bus_side 4)))
        (route toy c' test_reply test_buffer expect_none handler)
reply_mediation_example = reply_mediation toy test_client test_reply test_buffer expect_none refl

queue_initial_name_ops-Queues_example :
    Queues test_client (queue_initial_name_ops toy test_client) (initial_name_ops test_proxy)
queue_initial_name_ops-Queues_example = queue_initial_name_ops-Queues toy test_client

get_wildcard_policy_iff_example :
    (get_wildcard_policy test_proxy test_name ≡ talk) ↔ Covers test_proxy talk test_name
get_wildcard_policy_iff_example = get_wildcard_policy_iff test_proxy test_name talk (λ e. cc)

steal_expected_reply_lem_example :
    ((steal_expected_reply (init_side true) 4).1 ≡ expected (init_side true) 4)
    × ((n : ℕ)
        → expected (steal_expected_reply (init_side true) 4).0 n
          ≡ (if 4 == n then expect_none else expected (init_side true) n))
steal_expected_reply_lem_example = steal_expected_reply_lem (init_side true) 4
