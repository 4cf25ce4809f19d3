-- ===== src/Core.antt =====
-- dawn_kestrel/core
pub mod Result
pub mod Fsm
pub mod UnitOfWork
pub mod Strategies
pub mod Mediator
pub mod Commands
