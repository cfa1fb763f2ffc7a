-- ===== src/Compliance.antt =====
-- Compliance services: the inventory of components (app/compliance/inventory), and the audit of the
-- controls (app/compliance/fisma_audit).
pub mod Inventory
pub mod SelfAudit
