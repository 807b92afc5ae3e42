-- ===== src/Paper.antt =====
-- The paper-trading experiment: internal/datahub/paper_types.go, paper_engine.go, paper_store.go
-- and paper_funding.go.
pub mod Decimal
pub mod Types
pub mod Trading
pub mod Funding
pub mod Settlement
pub mod Store
pub mod Admission
pub mod Gap
pub mod Intakes
pub mod Quotes
pub mod Heartbeat
pub mod Audit
pub mod Scenarios
