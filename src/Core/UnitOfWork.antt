-- ===== src/Core/UnitOfWork.antt =====
-- dawn_kestrel/core/unit_of_work.py: `UnitOfWorkImpl`. The repositories act on a world of which nothing
-- is assumed.
pub mod Commit
use dawn_kestrel.Prelude.{String, Bool, true, false, List, [], ◌∷◌, ◌++◌, text, if◌then◌else◌}
use dawn_kestrel.Core.Result.{Result, ok, err, pass, err_code}

unfoldable pub no_transaction : {A : Type 0} → Result A
no_transaction = err_code (text "No transaction in progress") "TRANSACTION_ERROR"

-- `S`, `M` and `P` are sessions, messages and parts.
module _ (S M P : Type 0) where
  pub record UnitOfWork : Type 0 where
    pub in_transaction : Bool
    pub pending_sessions : List S
    pub pending_messages : List M
    pub pending_parts : List (String × P)

  -- the method `create` of each repository
  pub record Repositories (W : Type 0) : Type 0 where
    pub create_session : S → W → Result S × W
    pub create_message : M → W → Result M × W
    pub create_part : String → P → W → Result P × W

module _ {S M P : Type 0} where
  unfoldable pub new_unit : UnitOfWork S M P
  new_unit = record {
    in_transaction = false;
    pending_sessions = [];
    pending_messages = [];
    pending_parts = [];
  }

  unfoldable pub begin : UnitOfWork S M P → Result (Unit {0}) × UnitOfWork S M P
  begin u =
      if u.in_transaction
      then (err_code (text "Transaction already in progress") "TRANSACTION_ERROR", u)
      else (
        ok tt,
        record {
          in_transaction = true;
          pending_sessions = [];
          pending_messages = [];
          pending_parts = [];
        },
      )

  unfoldable pub rollback : UnitOfWork S M P → Result (Unit {0}) × UnitOfWork S M P
  unfolding no_transaction new_unit
  rollback u = if u.in_transaction then (ok tt, new_unit) else (no_transaction, u)

  unfoldable pub register_session : S → UnitOfWork S M P → Result S × UnitOfWork S M P
  unfolding no_transaction
  register_session s u =
      if u.in_transaction
      then (ok s, record u { pending_sessions = u.pending_sessions ++ s ∷ [] })
      else (no_transaction, u)

  unfoldable pub register_message : M → UnitOfWork S M P → Result M × UnitOfWork S M P
  unfolding no_transaction
  register_message m u =
      if u.in_transaction
      then (ok m, record u { pending_messages = u.pending_messages ++ m ∷ [] })
      else (no_transaction, u)

  unfoldable pub register_part : String → P → UnitOfWork S M P → Result P × UnitOfWork S M P
  unfolding no_transaction
  register_part message_id p u =
      if u.in_transaction
      then (ok p, record u { pending_parts = u.pending_parts ++ (message_id, p) ∷ [] })
      else (no_transaction, u)

module _ {W : Type 0} where
  -- the next loop, unless the last one has returned
  unfoldable pub then_next :
      Result (Unit {0}) × W → (W → Result (Unit {0}) × W) → Result (Unit {0}) × W
  then_next (err e, w) next = (err e, w)
  then_next (r, w) next = next w

  -- a result that passes is no error
  unfoldable pub after_create :
      {B : Type 0} → Result B → W → Result (Unit {0}) × W → Result (Unit {0}) × W
  after_create (ok b) w rest = rest
  after_create (err e) w rest = (err e, w)
  after_create (pass m) w rest = rest

module _ {S M P W : Type 0} where
  -- the end of `commit`, after its loops
  unfoldable pub ended :
      UnitOfWork S M P → Result (Unit {0}) × W → Result (Unit {0}) × UnitOfWork S M P × W
  unfolding new_unit
  ended u (err e, w) = (err e, u, w)
  ended u (r, w) = (ok tt, new_unit, w)

-- One of the loops of `commit`: it goes on unless a result is an error.
module _ {A B W : Type 0} where
  unfoldable pub create_all : (A → W → Result B × W) → List A → W → Result (Unit {0}) × W
  unfolding after_create
  create_all create [] w = (ok tt, w)
  create_all create (a ∷ others) w =
      let (r, w') = create a w in let rest = create_all create others w' in after_create r w' rest

module _ {S M P W : Type 0} (repos : Repositories S M P W) where
  unfoldable pub create_pending : UnitOfWork S M P → W → Result (Unit {0}) × W
  unfolding then_next create_all
  create_pending u w = then_next (create_all repos.create_session u.pending_sessions w) λ w'.
      then_next (create_all repos.create_message u.pending_messages w')
        λ w''. create_all (λ p. repos.create_part p.0 p.1) u.pending_parts w''

  unfoldable pub commit : UnitOfWork S M P → W → Result (Unit {0}) × UnitOfWork S M P × W
  unfolding no_transaction create_pending ended
  commit u w = if u.in_transaction then ended u (create_pending u w) else (no_transaction, u, w)
