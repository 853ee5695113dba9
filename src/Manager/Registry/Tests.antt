-- ===== src/Manager/Registry/Tests.antt =====
-- Runs for requests that are handled at the same time.
use lierc.Base.{List, [], ◌∷◌, some, text, ◌≡◌, text_eq, insert, lookup, length, ap, ◌∙◌}
use lierc.Unicode.Ascii.{ascii}
use lierc.Irc.Fixture.{fixture}
use lierc.Connection.Steps.{take_out}
use lierc.Manager.{get_client}
use lierc.Manager.Requests.{add_new}
use lierc.Manager.Tasks.{Server, Op, creates, continues, run, step, begin_create, go_on}
use lierc.Manager.Tests.{outside, config}
use lierc.Manager.Registry.Actions.{add_new_lem}

-- Two requests to make one client find none, and both make it: the first one is alive and not listed.
abbrev race : List Op
race =
    creates (text "a") (some config)
    ∷ creates (text "a") (some config)
    ∷ continues 0 0 []
    ∷ continues 0 0 []
    ∷ []

abbrev idle : Server
idle = record { manager = record { clients = []; objects = []; queue = [] }; tasks = [] }

lost_run : (run race idle).manager.clients ≡ (text "a", 1) ∷ []
unfolding run step begin_create go_on take_out get_client lookup text_eq insert
lost_run =
    let made = add_new 0 (text "a") config idle.manager in
    let first = add_new_lem 0 (text "a") config idle.manager in
    (add_new_lem 0 (text "a") config made).0
    ∙ ap (insert (text "a") (length made.objects)) first.0
    ∙ ap (λ os. insert (text "a") (length os) (insert (text "a") 0 [])) first.1
