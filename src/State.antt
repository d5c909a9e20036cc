-- ===== src/State.antt =====
-- The state of the framework: the data types of gtf/test_state.h, and the parameters that stand
-- for the kernel's headers.
mod Enums
mod DriverStructs
mod Objects
mod Headers
pub use Enums.*
pub use DriverStructs.*
pub use Objects.*
pub use Headers.*
