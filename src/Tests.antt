-- ===== src/Tests.antt =====
-- Concrete runs of the components, at which the theorems are applied.
mod Bundles
mod Runs
mod Stores
mod Migrations
mod Contracts
mod Histories
mod Plans
mod Targets
mod Gateways
mod Streams
mod Images
mod Keys
