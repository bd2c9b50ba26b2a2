-- ===== src/Kio.antt =====
-- root/orbit-kernel/util/kio.c: numbers as text (Digits), the text console (Console), and the
-- format strings of `printk` (Format).
pub mod Digits
pub mod Console
pub mod Format
pub mod Log
