-- ===== src/Scenarios.antt =====
-- The theorems at concrete inputs: one small town of customers and properties, and telephone frames.
mod Town
mod Roles
mod Lifecycle
mod Frames
mod Access
mod Endpoints
mod Phone
mod Desk
mod Worker
mod Enquirer
mod Enquiry
mod Visitors
mod Webhook
