-- ===== src/Group.antt =====
-- The group service, internal/rpc/group/group.go, over pkg/common/db/controller/group.go.
pub mod Rows
pub mod Tables
pub mod Calls
pub mod Store
pub mod Create
pub mod Join
pub mod Respond
pub mod Members
pub mod Admin
pub mod SetMember
pub mod Serve
pub mod Owners
pub mod Authority
pub mod Transfers
pub mod Memory
pub mod Creation
pub mod Roles
pub mod Tests
