-- ===== src/Device.antt =====
-- Devices and their registration.
pub mod Manager
