-- ===== src/CallApi.antt =====
-- backend/app/api/v1/app/call.py: dialing, accepting, rejecting, cancelling and ending a call. A
-- handler maps the tables to the tables and a reply; it runs as one step, at one reading of the
-- clock. What it pushes over WebSocket and traces is not part of the state.
pub mod Reply
pub mod Dialing
pub mod Answer
pub mod End
pub mod Edits
pub mod Lifecycle
