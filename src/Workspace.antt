-- ===== src/Workspace.antt =====
-- components/workspace: the parts of the workspace checks that are modelled.
pub mod Sha256
mod Tests
