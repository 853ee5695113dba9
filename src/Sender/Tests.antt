-- ===== src/Sender/Tests.antt =====
-- Runs and instances for pkg/lierc/sender.go.
use lierc.Base.{true, false, List, [], ◌∷◌, ◌≡◌, refl, text}
use lierc.Sender.{new_sender, send, take, pass, stop}
use lierc.Sender.Order.{Op, sends, takes, passes, stops, new_history, run, step, IsFifo, run-IsFifo}

abbrev ops : List Op
ops =
    sends (text "a")
    ∷ sends (text "b")
    ∷ takes true
    ∷ passes true true false
    ∷ takes true
    ∷ stops
    ∷ sends (text "c")
    ∷ passes false true false
    ∷ []

run-ops : (run ops new_history).sender.sent ≡ text "a" ∷ []
unfolding run step send take pass stop new_history new_sender
run-ops = refl

run-IsFifo_example : IsFifo (run ops new_history)
run-IsFifo_example = run-IsFifo ops
