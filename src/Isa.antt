-- ===== src/Isa.antt =====
-- src/isa/source: the callbacks, one for each mnemonic.
pub mod Range
pub mod Safety
pub mod Shapes
pub mod Effects
pub mod Arith
pub mod Control
pub mod LoadStore
pub mod MulDiv
pub mod Zbb
pub mod Zicsr
pub mod Float
pub mod Syscall
