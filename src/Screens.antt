-- ===== src/Screens.antt =====
-- The state machines behind the screens (web/src/routes): a thread, the reply box, the controls of
-- posts and comments, and the guard of rotation jobs.
pub mod Distinct
pub mod Comments
pub mod CommentLaws
pub mod Posts
pub mod PostLaws
pub mod Reply
pub mod ReplyLaws
pub mod Thread
pub mod ThreadSound
pub mod TakenBack
pub mod Guard
pub mod GuardLaws
pub mod Jobs
pub mod Members
pub mod Guards
pub mod SavedEdits
