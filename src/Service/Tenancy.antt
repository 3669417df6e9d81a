-- ===== src/Service/Tenancy.antt =====
-- Tenant isolation of the methods of services/memory_service.py, behind the filter of
-- repositories/base.py.
pub mod Tables
pub mod Steps
pub mod Orgs
pub mod Writing
pub mod Isolation
pub mod Folding
