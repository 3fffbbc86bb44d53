-- ===== src/Research.antt =====
-- Research: the strategy router, the experiment registry, the canonical accounting and the qualification gates.
pub mod Router
pub mod Registry
pub mod Accounting
pub mod Gates
pub mod Integrity
pub mod Admission
