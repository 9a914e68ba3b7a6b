-- ===== src/Core.antt =====
-- The Core program: programs/core.
pub mod Examples
pub mod Lifecycle
pub mod Constants
pub mod Program
pub mod Error
pub mod State
pub mod Events
pub mod Runtime
pub mod Math
pub mod Validation
pub mod Constraints
pub mod Deposit
pub mod Execute
pub mod Initialize
