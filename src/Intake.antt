-- ===== src/Intake.antt =====
-- The public intake of enquiries.
pub mod RateLimit
pub mod Quota
pub mod Repository
pub mod Service
pub mod Enquiry
