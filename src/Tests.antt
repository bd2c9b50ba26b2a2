-- ===== src/Tests.antt =====
-- The theorems of the modules outside the allocator, on concrete inputs.
mod Devices
mod Text
mod Bytes
mod Boot
