-- ===== src/Bits.antt =====
-- Laws of the bit operations.
mod Step
mod Split
mod Algebra
mod Fields
pub use Step.*
pub use Split.*
pub use Algebra.*
pub use Fields.*
