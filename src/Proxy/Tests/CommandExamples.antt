-- ===== src/Proxy/Tests/CommandExamples.antt =====
-- Command lines at work.
use xdg_app.Prelude.{Bytes, List, [], codes, false, str_eq, true, ◌∷◌, ◌≡◌}
use xdg_app.Proxy.CommandLine.{Services, main}
use xdg_app.Proxy.CommandLine.Ending.{CannotStart, EndsOr, main-EndsOr}
use xdg_app.Proxy.State.{is_empty}

-- Only the path /s can be listened on.
abbrev services : Services
services = record { is_name = λ name. true; can_start = λ address path. str_eq path (codes "/s") }

abbrev test_args : List Bytes
test_args = codes "--fd=3" ∷ codes "unix:a" ∷ codes "/s" ∷ codes "--talk=a.b" ∷ []

main-EndsOr_example :
    EndsOr (CannotStart services) (λ g. is_empty g.proxies ≡ false) (main services test_args)
main-EndsOr_example = main-EndsOr services test_args
