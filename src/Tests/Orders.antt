-- ===== src/Tests/Orders.antt =====
-- dawn_kestrel/core/commands.py
use dawn_kestrel.Prelude.{
  ℕ, ◌≡◌, refl, List, [], ◌∷◌, ◌++◌, Outcome, returns, raises, text, lookup, insert, none,
}
use dawn_kestrel.Core.Result.{ok}
use dawn_kestrel.Core.Mediator.{
  application, Event, Handler, EventMediator, new_mediator, subscribe, publish,
}
use dawn_kestrel.Core.Commands.{
  Command, CommandQueue, Announcement, command_started, new_queue, process_next,
}
use dawn_kestrel.Core.Commands.Order.{
  Op, enqueues, processes, run, run-history, process_all, carry_out_each,
  process_all-carry_out_each,
}

-- The world is what was announced.
abbrev World : Type 0
World = List (Announcement ℕ)

abbrev handle : Handler → Event (Announcement ℕ) → World → Outcome (Unit {0}) × World
handle h event w = (returns tt, w ++ event.payload ∷ [])

abbrev mediator : EventMediator
mediator = (subscribe application 1 none new_mediator).1

abbrev succeeds : Command ℕ World
succeeds = record { name = "read"; execute = λ w. (returns (ok 5), w) }

abbrev breaks : Command ℕ World
breaks = record { name = "base"; execute = λ w. (raises (text "no execute"), w) }

abbrev ops : List (Op ℕ World)
ops = enqueues succeeds ∷ enqueues breaks ∷ processes ∷ enqueues succeeds ∷ []

run-history_example :
    (run handle mediator ops (new_queue, [])).1.history
    ≡ (run handle mediator ops (new_queue, [])).0
      ++ (run handle mediator ops (new_queue, [])).1.queue
run-history_example = run-history handle mediator ops []

abbrev waiting : CommandQueue ℕ World
waiting = record { queue = succeeds ∷ breaks ∷ []; history = succeeds ∷ breaks ∷ [] }

process_all-carry_out_each_example :
    ((process_all handle mediator waiting.queue (waiting, [])).0
      ≡ (carry_out_each handle mediator waiting.queue []).0)
    × ((process_all handle mediator waiting.queue (waiting, [])).1.queue ≡ [])
    × ((process_all handle mediator waiting.queue (waiting, [])).2
        ≡ (carry_out_each handle mediator waiting.queue []).1)
process_all-carry_out_each_example = process_all-carry_out_each handle mediator waiting []

-- a command that raises is announced as started, and never as failed
unannounced :
    (process_next handle mediator (record waiting { queue = breaks ∷ [] }, [])).2
    ≡ command_started "base" ∷ []
unfolding process_next publish subscribe new_mediator lookup insert
unannounced = refl
