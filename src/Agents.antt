-- ===== src/Agents.antt =====
-- dawn_kestrel/agents
pub mod State
