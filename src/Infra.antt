-- ===== src/Infra.antt =====
-- The call infrastructure of runner/src/common_cpu_infra.c: the table of unresolved sites, the
-- shadow call stack with its auditor, non-local returns and tail calls.
pub mod Snapshots
pub mod Abandon
pub mod Stack
pub mod Balance
