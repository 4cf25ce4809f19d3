-- ===== src/Tools.antt =====
-- dawn_kestrel/tools: what decides about tools without running them.
pub mod Cache
pub mod Permissions
pub mod Rulesets
