-- ===== src/Tracker.antt =====
-- server/post_tracker.go: what the plugin remembers of posts and of uploaded files.
pub mod Posts
pub mod Files
mod Tests
