-- ===== src/Scripted.antt =====
-- src/uboot_tftp/scripted.py: the provider that answers read requests, from the static files or
-- with the scripts of a session.
pub mod Setting
pub mod Texts
pub mod Handle
pub mod Running
pub mod Answers
pub mod Dispatch
pub mod Refusals
pub mod Untouched
pub mod Frames
pub mod Isolation
pub mod Requests
pub mod Paths
pub mod Silent
pub mod Receives
pub mod Lifecycle
pub mod Overrides
pub mod Tests
