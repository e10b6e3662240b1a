-- ===== src/Voice.antt =====
-- backend/app/voice: the audio codec of the media bridge.
pub mod Audio
