-- ===== src/Registry.antt =====
-- remote_robot/registry.py: the nodes and identities of a server, the checks on the graph of nodes, and
-- the resolution of a role path to a group.
pub mod Model
pub mod Nodes
pub mod Graph
pub mod Scopes
pub mod Manifest
pub mod Describe
pub mod Parse
pub mod ParseNode
pub mod Load
pub mod Loaded
mod Distinct
pub mod Ends
pub mod Acyclic
pub mod Complete
mod Dots
pub mod Paths
pub mod Aliases
pub mod Sample
mod Tests
mod LoadTests
