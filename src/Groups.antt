-- ===== src/Groups.antt =====
-- src/modules/groups: the tables, the permission rules, and the handlers of `GroupsService`.
pub mod Store
pub mod Rules
pub mod Service
pub mod Invites
pub mod Reads
pub mod Rows
pub mod Valid
pub mod Keeps
pub mod Adds
pub mod Invariant
pub mod Access
pub mod Roster
mod Tests
