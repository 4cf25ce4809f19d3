-- ===== src/Llm.antt =====
-- dawn_kestrel/llm: the wrappers that make calls of a provider reliable
pub mod RateLimiter
pub mod CircuitBreaker
pub mod Retry
pub mod Bulkhead
pub mod ProviderLimits
