-- ===== src/Agent/Gateway.antt =====
-- backend/app/agent/gateway.py, class AgentGateway: preparing, starting and finishing a call. What is
-- not in the database is in a record: the settings, and what Superfone answers to a dialling.
mod Finish
mod Start
unfoldable pub use Finish.*
unfoldable pub use Start.*
