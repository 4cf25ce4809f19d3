-- ===== src/Core/Commands.antt =====
-- dawn_kestrel/core/commands.py: `CommandQueue`, with the mediator to which it announces what it does.
-- A command acts on a world of which nothing is assumed, and can raise.
pub mod Order
use dawn_kestrel.Prelude.{
  String, Bool, true, false, Option, none, some, List, [], ◌∷◌, ◌++◌, Message, text, Outcome,
  returns, raises, if◌then◌else◌,
}
use dawn_kestrel.Core.Result.{Result, ok, err_code, is_ok}
use dawn_kestrel.Core.Mediator.{application, Event, Handler, EventMediator, publish}

module _ (A W : Type 0) where
  pub record Command : Type 0 where
    pub name : String
    pub execute : W → Outcome (Result A) × W

  pub record CommandQueue : Type 0 where
    pub queue : List Command
    pub history : List Command

-- the data of an event: its action and the command, with the result that failed
pub data Announcement (A : Type 0) : Type 0 where
  command_enqueued command_started command_completed : String → Announcement A
  command_failed : String → Result A → Announcement A

module _ {A W : Type 0} where
  unfoldable pub new_queue : CommandQueue A W
  new_queue = record { queue = []; history = [] }

module _ {A W : Type 0} (handle : Handler → Event (Announcement A) → W → Outcome (Unit {0}) × W)
    (mediator : EventMediator) where
  -- The answer of the mediator is not looked at.
  unfoldable pub announce : Announcement A → W → W
  announce a w =
      (publish handle
        (record { event_type = application; source = "command_queue"; target = none; payload = a })
        mediator w).1

  -- Nothing in it raises, since the mediator answers with what its handlers raise.
  unfoldable pub enqueue :
      Command A W → CommandQueue A W × W → Result (Unit {0}) × CommandQueue A W × W
  unfolding announce
  enqueue c (q, w) = (
    ok tt,
    record { queue = q.queue ++ c ∷ []; history = q.history ++ c ∷ [] },
    announce (command_enqueued c.name) w,
  )

  -- the announcement of a result
  unfoldable pub announce_end : Command A W → Outcome (Result A) → W → W
  unfolding announce
  announce_end c (raises m) w = w
  announce_end c (returns r) w =
      announce (if is_ok r then command_completed c.name else command_failed c.name r) w

  -- a command between its announcements
  unfoldable pub carry_out : Command A W → W → Outcome (Result A) × W
  unfolding announce announce_end
  carry_out c w =
      let (outcome, w') = c.execute (announce (command_started c.name) w) in
      (outcome, announce_end c outcome w')

  unfoldable pub process_next : CommandQueue A W × W → Outcome (Result A) × CommandQueue A W × W
  unfolding carry_out
  process_next (q, w) = elim q.queue [
    | [] ↦ (returns (err_code (text "No commands in queue") "QUEUE_EMPTY"), q, w)
    | c ∷ commands ↦
        let (outcome, w') = carry_out c w in (outcome, record q { queue = commands }, w')
  ]
