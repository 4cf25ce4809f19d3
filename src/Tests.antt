-- ===== src/Tests.antt =====
-- Witnesses of the theorems and tests of the definitions, by part of the program.
mod Results
mod Caches
mod Orders
mod Delegating
mod Providers
mod Permission
mod Units
mod Policies
mod Agents
mod Machines
mod Workflows
mod Limits
mod Retries
mod Queues
mod Delegations
