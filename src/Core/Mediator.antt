-- ===== src/Core/Mediator.antt =====
-- dawn_kestrel/core/mediator.py: `EventMediatorImpl`. Handlers have identities, by which they are
-- compared; what one does is a parameter that acts on a world.
pub mod Routing
use dawn_kestrel.Prelude.{
  ℕ, suc, String, Bool, true, false, ◌||◌, Option, none, some, List, [], ◌∷◌, ◌++◌, length, Dict,
  lookup, insert, Eq, ◌≡◌, ◌↔◌, Message, text, ◌&◌, Outcome, returns, raises, if◌then◌else◌,
  string_eq, nat_eq, ◌==◌, arith,
}
use dawn_kestrel.Core.Result.{Result, ok, err_code}

pub data EventType : Type 0 where
  domain application system llm : EventType

abbrev pub type_beq : EventType → EventType → Bool
type_beq domain domain = true
type_beq application application = true
type_beq system system = true
type_beq llm llm = true
type_beq _ _ = false

pub type_beq_iff : (a b : EventType) → (type_beq a b ≡ true) ↔ (a ≡ b)
type_beq_iff a b = (λ h. ground arith, λ h. ground arith)

instance abbrev pub type_eq : Eq EventType
type_eq = record { same = type_beq; same_iff = type_beq_iff }

pub record Event (Data : Type 0) : Type 0 where
  pub event_type : EventType
  pub source : String
  pub target : Option String
  pub payload : Data

abbrev pub Handler : Type 0
Handler = ℕ

-- `_handlers`, with the handlers of a type in the order in which they subscribed
pub record EventMediator : Type 0 where
  pub handlers : Dict EventType (List (Handler × Option String))

unfoldable pub new_mediator : EventMediator
new_mediator = record { handlers = [] }

-- a value that may be missing, or a default
abbrev pub kept {ℓ} : {A : Type ℓ} → Option A → A → A
kept none default = default
kept (some a) default = a

-- `self._handlers.get(event_type, [])`
unfoldable pub handlers_of : EventType → EventMediator → List (Handler × Option String)
handlers_of t m = kept (lookup t m.handlers) []

unfoldable pub subscribe :
    EventType → Handler → Option String → EventMediator → Result (Unit {0}) × EventMediator
unfolding handlers_of
subscribe t h source m =
    (ok tt, record { handlers = insert t (handlers_of t m ++ (h, source) ∷ []) m.handlers })

-- the handlers without the first that is equal, if there is one
unfoldable pub pop :
    Handler → List (Handler × Option String) → Option (List (Handler × Option String))
pop h [] = none
pop h ((g, source) ∷ hs) =
    let rest = pop h hs in
    if g == h
    then some hs
    else elim rest [ none ↦ none | some others ↦ some ((g, source) ∷ others) ]

unfoldable pub popped :
    EventType
    → EventMediator
    → Option (List (Handler × Option String))
    → Result (Unit {0}) × EventMediator
popped t m none = (err_code (text "Handler not found for unsubscribe") "HANDLER_NOT_FOUND", m)
popped t m (some others) = (ok tt, record { handlers = insert t others m.handlers })

unfoldable pub unsubscribe : EventType → Handler → EventMediator → Result (Unit {0}) × EventMediator
unfolding handlers_of pop popped
unsubscribe t h m = popped t m (pop h (handlers_of t m))

unfoldable pub get_handler_count : EventType → EventMediator → Result ℕ
unfolding handlers_of
get_handler_count t m = ok (length (handlers_of t m))

-- `source_filter == target`, and `source_filter is None or source_filter == source`
abbrev pub is_for : String → Option String → Bool
is_for target none = false
is_for target (some s) = s == target

abbrev pub accepts : String → Option String → Bool
accepts source none = true
accepts source (some s) = s == source

-- a target that is empty is none
unfoldable pub is_routed : Option String → String → Option String → Bool
is_routed none source filter = accepts source filter
is_routed (some target) source filter =
    if target == "" then accepts source filter else is_for target filter

module _ {W : Type 0} where
  -- what is raised ends the loop
  unfoldable pub after_handler :
      Outcome (Unit {0}) → W → Result (Unit {0}) × W → Result (Unit {0}) × W
  after_handler (returns t) w rest = rest
  after_handler (raises m) w rest =
      (err_code (text "Failed to publish event: " & m) "MEDIATOR_ERROR", w)

module _ {Data W : Type 0} (handle : Handler → Event Data → W → Outcome (Unit {0}) × W) where
  -- the loop over the handlers
  unfoldable pub deliver : List (Handler × Option String) → Event Data → W → Result (Unit {0}) × W
  unfolding is_routed after_handler
  deliver [] event w = (ok tt, w)
  deliver ((h, filter) ∷ hs) event w =
      let (outcome, w') = handle h event w in
      let handled = after_handler outcome w' (deliver hs event w') in
      let skipped = deliver hs event w in
      if is_routed event.target event.source filter then handled else skipped

  unfoldable pub publish : Event Data → EventMediator → W → Result (Unit {0}) × W
  unfolding handlers_of deliver
  publish event m w = deliver (handlers_of event.event_type m) event w
