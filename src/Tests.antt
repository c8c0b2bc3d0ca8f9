-- ===== src/Tests.antt =====
-- Runs of the modelled code on concrete inputs, and the theorems at such inputs.
mod Fixed
mod Scenario
mod Store
mod Session
mod Risk
mod Combine
mod Capital
mod Lifecycle
mod Pricing
mod Reconcile
mod Stale
mod Engine
mod Audit
mod Restore
mod Policy
mod Execution
