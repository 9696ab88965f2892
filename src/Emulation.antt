-- ===== src/Emulation.antt =====
-- emulation/: which platforms the kernel's binfmt_misc registry can emulate.
pub mod Magic
pub mod Elf
pub mod GoText
pub mod Binfmt
pub mod Registry
mod Tests
mod Examples
