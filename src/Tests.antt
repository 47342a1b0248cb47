-- ===== src/Tests.antt =====
-- Runs of the definitions and uses of the theorems at concrete inputs.
mod Dispatch
mod Matching
mod Networks
mod Wire
mod Scopes
mod Regroup
mod Playing
mod Documents
mod Renumbering
mod Tracking
