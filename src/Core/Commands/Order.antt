-- ===== src/Core/Commands/Order.antt =====
-- In which order the queue of commands.py carries commands out.
use mathlib.Core.List.{append_assoc, append-nil}
use dawn_kestrel.Prelude.{
  ◌≡◌, refl, sym, ap, ◌∙◌, List, [], ◌∷◌, ◌++◌, String, none, Outcome, returns, raises,
}
use dawn_kestrel.Core.Result.{Result, ok, err, pass}
use dawn_kestrel.Core.Mediator.{application, Event, Handler, EventMediator, publish}
use dawn_kestrel.Core.Commands.{
  Command, CommandQueue, Announcement, command_started, command_completed, command_failed,
  new_queue, announce, announce_end, enqueue, carry_out, process_next,
}

pub data Op (A W : Type 0) : Type 0 where
  enqueues : Command A W → Op A W
  processes : Op A W

module _ {A W : Type 0} where
  -- the first of the queue, which a call of process_next takes
  abbrev taken : List (Command A W) → List (Command A W)
  taken [] = []
  taken (c ∷ cs) = c ∷ []

  taken_rest : List (Command A W) → List (Command A W)
  taken_rest [] = []
  taken_rest (c ∷ cs) = cs

  taken-rest : (cs : List (Command A W)) → taken cs ++ taken_rest cs ≡ cs
  unfolding taken_rest
  taken-rest [] = refl
  taken-rest (c ∷ cs) = refl

module _ {A W : Type 0} (handle : Handler → Event (Announcement A) → W → Outcome (Unit {0}) × W)
    (mediator : EventMediator) where
  -- the queue and the world after some calls, with the commands that were taken
  unfoldable pub run :
      List (Op A W) → CommandQueue A W × W → List (Command A W) × CommandQueue A W × W
  run [] (q, w) = ([], q, w)
  run (enqueues c ∷ ops) (q, w) =
      let (r, q', w') = enqueue handle mediator c (q, w) in run ops (q', w')
  run (processes ∷ ops) (q, w) =
      let (r, q', w') = process_next handle mediator (q, w) in
      let (done, q'', w'') = run ops (q', w') in (taken q.queue ++ done, q'', w'')

  -- an event of the queue, published
  pub tell : Announcement A → W → W
  tell payload w =
      (publish handle
        (record {
          event_type = application;
          source = "command_queue";
          target = none;
          payload = payload;
        })
        mediator w).1

  -- what is told of a command at its end
  pub tell_end : String → Outcome (Result A) → W → W
  tell_end name (returns (ok a)) w = tell (command_completed name) w
  tell_end name (returns (err e)) w = tell (command_failed name (err e)) w
  tell_end name (returns (pass m)) w = tell (command_failed name (pass m)) w
  tell_end name (raises m) w = w

  -- The commands one after the other, with their answers: each is told to have started, executed, and
  -- told to be completed when its result is ok, to have failed when it is not.
  pub carry_out_each : List (Command A W) → W → List (Outcome (Result A)) × W
  carry_out_each [] w = ([], w)
  carry_out_each (c ∷ cs) w =
      let (outcome, w') = c.execute (tell (command_started c.name) w) in
      let (outcomes, last) = carry_out_each cs (tell_end c.name outcome w') in
      (outcome ∷ outcomes, last)

  announce_end-tell_end :
      (c : Command A W) (outcome : Outcome (Result A)) (w : W)
      → announce_end handle mediator c outcome w ≡ tell_end c.name outcome w
  unfolding announce_end tell_end tell
  announce_end-tell_end c (returns (ok a)) w = refl
  announce_end-tell_end c (returns (err e)) w = refl
  announce_end-tell_end c (returns (pass m)) w = refl
  announce_end-tell_end c (raises m) w = refl

  next_queue :
      (q : CommandQueue A W) (w : W) (cs : List (Command A W))
      → q.queue ≡ cs
      → ((process_next handle mediator (q, w)).1.queue ≡ taken_rest cs)
        × ((process_next handle mediator (q, w)).1.history ≡ q.history)
  unfolding process_next taken_rest
  next_queue q w [] e = (rw e refl, rw e refl)
  next_queue q w (c ∷ cs) e = (rw e refl, rw e refl)

  run_from :
      (ops : List (Op A W)) (q : CommandQueue A W) (w : W) (done : List (Command A W))
      → q.history ≡ done ++ q.queue
      → (run ops (q, w)).1.history ≡ (done ++ (run ops (q, w)).0) ++ (run ops (q, w)).1.queue
  unfolding run
  run_from [] q w done h = h ∙ ap (λ l. l ++ q.queue) (sym (append-nil done))
  run_from (enqueues c ∷ ops) q w done h =
      run_from ops _ _ done (unfold enqueue in rw h (append_assoc done q.queue (c ∷ [])))
  run_from (processes ∷ ops) q w done h =
      let (left, same) = next_queue q w q.queue refl in
      let last : CommandQueue A W × W =
        ((process_next handle mediator (q, w)).1, (process_next handle mediator (q, w)).2) in
      let moved : done ++ q.queue ≡ (done ++ taken q.queue) ++ taken_rest q.queue =
        ap (λ l. done ++ l) (sym (taken-rest q.queue))
        ∙ sym (append_assoc done (taken q.queue) (taken_rest q.queue)) in
      let after : (process_next handle mediator (q, w)).1.history
          ≡ (done ++ taken q.queue) ++ (process_next handle mediator (q, w)).1.queue =
        same ∙ h ∙ moved ∙ ap (λ l. (done ++ taken q.queue) ++ l) (sym left) in
      run_from ops _ _ (done ++ taken q.queue) after
      ∙ ap (λ l. l ++ (run ops last).1.queue) (append_assoc done (taken q.queue) (run ops last).0)

  -- After any calls of enqueue and process_next on a new queue, the history is the commands that were
  -- taken followed by those that still wait: commands are taken in the order in which they were
  -- enqueued, each once, and none is lost.
  pub run-history :
      (ops : List (Op A W)) (w : W)
      → (run ops (new_queue, w)).1.history
        ≡ (run ops (new_queue, w)).0 ++ (run ops (new_queue, w)).1.queue
  run-history ops w = run_from ops new_queue w [] (unfold new_queue in refl)

  -- as many calls of process_next, with their answers
  pub process_all :
      List (Command A W) → CommandQueue A W × W → List (Outcome (Result A)) × CommandQueue A W × W
  process_all [] (q, w) = ([], q, w)
  process_all (c ∷ cs) (q, w) =
      let (outcome, q', w') = process_next handle mediator (q, w) in
      let (outcomes, q'', w'') = process_all cs (q', w') in (outcome ∷ outcomes, q'', w'')

  -- what a command that starts in a world comes to
  abbrev executed : Command A W → W → Outcome (Result A) × W
  executed c w = c.execute (tell (command_started c.name) w)

  carry_out-executed :
      (c : Command A W) (w : W)
      → ((carry_out handle mediator c w).0 ≡ (executed c w).0)
        × ((carry_out handle mediator c w).1 ≡ tell_end c.name (executed c w).0 (executed c w).1)
  unfolding carry_out announce tell
  carry_out-executed c w = (refl, announce_end-tell_end c (executed c w).0 (executed c w).1)

  first_next :
      (q : CommandQueue A W) (w : W) (c : Command A W) (cs : List (Command A W))
      → q.queue ≡ c ∷ cs
      → ((process_next handle mediator (q, w)).0 ≡ (carry_out handle mediator c w).0)
        × ((process_next handle mediator (q, w)).1.queue ≡ cs)
        × ((process_next handle mediator (q, w)).2 ≡ (carry_out handle mediator c w).1)
  unfolding process_next
  first_next q w c cs e = (rw e refl, rw e refl, rw e refl)

  process_all_from :
      (cs : List (Command A W)) (q : CommandQueue A W) (w : W)
      → q.queue ≡ cs
      → ((process_all cs (q, w)).0 ≡ (carry_out_each cs w).0)
        × ((process_all cs (q, w)).1.queue ≡ [])
        × ((process_all cs (q, w)).2 ≡ (carry_out_each cs w).1)
  unfolding process_all carry_out_each
  process_all_from [] q w e = (refl, e, refl)
  process_all_from (c ∷ cs) q w e =
      let next = process_next handle mediator (q, w) in
      let (answer, queue, world) = first_next q w c cs e in
      let (own, end) = carry_out-executed c w in
      let (answers, empty, last) = process_all_from cs next.1 next.2 queue in
      let moved = world ∙ end in
      (
        ap (λ o. o ∷ (process_all cs (next.1, next.2)).0) (answer ∙ own)
            ∙ ap (λ os. (executed c w).0 ∷ os) (answers ∙ ap (λ v. (carry_out_each cs v).0) moved),
        empty,
        last ∙ ap (λ v. (carry_out_each cs v).1) moved,
      )

  pub process_all-carry_out_each :
      (q : CommandQueue A W) (w : W)
      → ((process_all q.queue (q, w)).0 ≡ (carry_out_each q.queue w).0)
        × ((process_all q.queue (q, w)).1.queue ≡ [])
        × ((process_all q.queue (q, w)).2 ≡ (carry_out_each q.queue w).1)
  process_all-carry_out_each q w = process_all_from q.queue q w refl
