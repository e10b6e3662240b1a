-- ===== src/Contacts.antt =====
-- Customers: how a contact's telephone number is written.
pub mod Phone
pub mod Numbers
pub mod Resolver
pub mod Unique
pub mod Again
pub mod Leads
