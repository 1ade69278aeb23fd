-- ===== src/Boot.antt =====
-- The boot program (boot/src).
pub mod Discover
pub mod Shell
pub mod Kexec
