-- ===== src/Core/Mediator/Routing.antt =====
-- Which handlers an event reaches, after any calls of subscribe and unsubscribe.
use dawn_kestrel.Prelude.{
  ◌≡◌, refl, ap, ◌∙◌, String, Bool, true, false, not, ◌||◌, ◌&&◌, Option, none, some, List, [], ◌∷◌,
  ◌++◌, Dict, lookup, lookup-insert, insert, Outcome, returns, raises, text, ◌&◌, option_eq,
  if◌then◌else◌, Bool-cases, inl, inr, string_eq, nat_eq, ◌==◌, arith,
}
use dawn_kestrel.Core.Result.{Result, ok, err_code}
use dawn_kestrel.Core.Mediator.{
  EventType, type_eq, Event, Handler, EventMediator, new_mediator, handlers_of, subscribe, kept,
  pop, popped, unsubscribe, is_routed, after_handler, deliver, publish,
}

pub data Op : Type 0 where
  subscribes : EventType → Handler → Option String → Op
  unsubscribes : EventType → Handler → Op

unfoldable pub apply_all : List Op → EventMediator → EventMediator
apply_all [] m = m
apply_all (subscribes t h source ∷ ops) m = apply_all ops (subscribe t h source m).1
apply_all (unsubscribes t h ∷ ops) m = apply_all ops (unsubscribe t h m).1

-- the list, without the first of a handler
pub without : Handler → List (Handler × Option String) → List (Handler × Option String)
without h [] = []
without h ((g, source) ∷ hs) = let rest = without h hs in if g == h then hs else (g, source) ∷ rest

-- what is left of the subscriptions to one type
pub active : EventType → List Op → List (Handler × Option String) → List (Handler × Option String)
active t [] hs = hs
active t (subscribes u h source ∷ ops) hs =
    active t ops (if u == t then hs ++ (h, source) ∷ [] else hs)
active t (unsubscribes u h ∷ ops) hs = active t ops (if u == t then without h hs else hs)

-- Whether a subscription is meant: with a target, those whose filter is that target; without one, or
-- with an empty one, those without a filter and those whose filter is the source.
pub fits : Option String → String → Option String → Bool
fits none source filter = filter == none || filter == some source
fits (some target) source filter =
    (filter == some target && not (target == ""))
    || (target == "" && (filter == none || filter == some source))

-- the handlers of the subscriptions that are meant
pub recipients : {Data : Type 0} → Event Data → List (Handler × Option String) → List Handler
recipients event [] = []
recipients event ((h, filter) ∷ hs) =
    let rest = recipients event hs in
    if fits event.target event.source filter then h ∷ rest else rest

is_routed-fits :
    (target : Option String) (source : String) (filter : Option String)
    → is_routed target source filter ≡ fits target source filter
unfolding is_routed fits
is_routed-fits none source none = ground arith
is_routed-fits none source (some s) = ground arith
is_routed-fits (some target) source none = ground arith
is_routed-fits (some target) source (some s) = ground arith

without-pop :
    (h : Handler) (hs : List (Handler × Option String)) → without h hs ≡ kept (pop h hs) hs
unfolding pop without
without-pop h [] = refl
without-pop h ((g, source) ∷ hs) = ground (arith, without-pop h hs)

handlers_of-insert :
    (t u : EventType) (hs : List (Handler × Option String))
    (d : Dict EventType (List (Handler × Option String)))
    → handlers_of t (record { handlers = insert u hs d })
      ≡ (if u == t then hs else handlers_of t (record { handlers = d }))
unfolding handlers_of
handlers_of-insert t u hs d = ap (λ o. kept o []) (lookup-insert u t hs d) ∙ chosen (u == t)
  where
    chosen :
        (b : Bool)
        → kept (if b then some hs else lookup t d) [] ≡ (if b then hs else kept (lookup t d) [])
    chosen true = refl
    chosen false = refl

handlers_of-subscribe :
    (t u : EventType) (h : Handler) (source : Option String) (m : EventMediator)
    → handlers_of t (subscribe u h source m).1
      ≡ (if u == t then handlers_of t m ++ (h, source) ∷ [] else handlers_of t m)
unfolding subscribe
handlers_of-subscribe t u h source m = ground (
  arith,
  handlers_of-insert t u (handlers_of u m ++ (h, source) ∷ []) m.handlers,
  type_eq.same_iff u t,
)

handlers_of-popped :
    (t u : EventType) (m : EventMediator) (o : Option (List (Handler × Option String)))
    → handlers_of t (popped u m o).1
      ≡ (if u == t then kept o (handlers_of t m) else handlers_of t m)
unfolding popped
handlers_of-popped t u m none = ground arith
handlers_of-popped t u m (some others) = handlers_of-insert t u others m.handlers

handlers_of-unsubscribe :
    (t u : EventType) (h : Handler) (m : EventMediator)
    → handlers_of t (unsubscribe u h m).1
      ≡ (if u == t then without h (handlers_of t m) else handlers_of t m)
unfolding unsubscribe
handlers_of-unsubscribe t u h m = ground (
  arith,
  handlers_of-popped t u m (pop h (handlers_of u m)),
  without-pop h (handlers_of u m),
  type_eq.same_iff u t,
)

handlers_of-apply_all :
    (t : EventType) (ops : List Op) (m : EventMediator)
    → handlers_of t (apply_all ops m) ≡ active t ops (handlers_of t m)
unfolding apply_all active
handlers_of-apply_all t [] m = refl
handlers_of-apply_all t (subscribes u h source ∷ ops) m =
    handlers_of-apply_all t ops _ ∙ ap (active t ops) (handlers_of-subscribe t u h source m)
handlers_of-apply_all t (unsubscribes u h ∷ ops) m =
    handlers_of-apply_all t ops _ ∙ ap (active t ops) (handlers_of-unsubscribe t u h m)

module _ {Data W : Type 0} (handle : Handler → Event Data → W → Outcome (Unit {0}) × W) where
  -- The handlers one after the other. The first that raises ends it: its message is the answer, its
  -- world the last one.
  pub call_each : List Handler → Event Data → W → Result (Unit {0}) × W
  call_each [] event w = (ok tt, w)
  call_each (h ∷ hs) event w =
      let (outcome, w') = handle h event w in
      let rest = call_each hs event w' in
      elim outcome [
        | returns _ ↦ rest
        | raises m ↦ (err_code (text "Failed to publish event: " & m) "MEDIATOR_ERROR", w')
      ]

  after_handler-elim :
      (outcome : Outcome (Unit {0})) (w : W) (rest : Result (Unit {0}) × W)
      → after_handler outcome w rest ≡ (elim outcome [
        | returns _ ↦ rest
        | raises m ↦ (err_code (text "Failed to publish event: " & m) "MEDIATOR_ERROR", w)
      ])
  unfolding after_handler
  after_handler-elim (returns t) w rest = refl
  after_handler-elim (raises m) w rest = refl

  deliver-call_each :
      (hs : List (Handler × Option String)) (event : Event Data) (w : W)
      → deliver handle hs event w ≡ call_each (recipients event hs) event w
  unfolding deliver recipients call_each
  deliver-call_each [] event w = refl
  deliver-call_each ((h, filter) ∷ hs) event w =
      let same = is_routed-fits event.target event.source filter in
      elim (Bool-cases (fits event.target event.source filter)) [
        | inl meant ↦
            rw (same, meant)
              (ap (after_handler (handle h event w).0 (handle h event w).1)
                  (deliver-call_each hs event (handle h event w).1)
                ∙ after_handler-elim (handle h event w).0 (handle h event w).1 _)
        | inr other ↦ rw (same, other) (deliver-call_each hs event w)
      ]

  pub publish-call_each :
      (ops : List Op) (event : Event Data) (w : W)
      → publish handle event (apply_all ops new_mediator) w
        ≡ call_each (recipients event (active event.event_type ops [])) event w
  unfolding publish
  publish-call_each ops event w =
      let none_yet : handlers_of event.event_type new_mediator ≡ [] =
        unfold new_mediator handlers_of lookup in refl in
      ap (λ hs. deliver handle hs event w)
        (handlers_of-apply_all event.event_type ops new_mediator
          ∙ ap (active event.event_type ops) none_yet)
      ∙ deliver-call_each _ event w
