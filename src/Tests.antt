-- ===== src/Tests.antt =====
-- Concrete inputs: each theorem with conditions, applied where they hold.
mod Toy
mod Wire
mod Chain
mod Circular
mod History
mod Checks
mod Removal
mod Screens
mod Forms
mod KeyBundle
mod Recovery
mod Pin
mod Admission
mod Succession
