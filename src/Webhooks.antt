-- ===== src/Webhooks.antt =====
-- The webhooks that report on telephone calls: backend/app/webhooks/superfone.
pub mod Superfone
pub mod Kept
pub mod Once
