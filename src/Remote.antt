-- ===== src/Remote.antt =====
-- remote_verifier.py with remote_response.py, stores/session_document.py and stores/upstream.py: what the
-- server's get-session answers, down to a record, and the verifier that asks it.
pub mod Document
pub mod Response
pub mod Probe
pub mod Rungs
pub mod Verifier
