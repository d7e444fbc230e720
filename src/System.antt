-- ===== src/System.antt =====
-- `My_diffbotSystemHardware` of my_diffbot_system.hpp and my_diffbot_system.cpp.
pub mod Interfaces
pub mod Clamp
pub mod Wheels
pub mod Drive
pub mod Tuning
pub mod Led
pub mod Component
pub mod Init
pub mod Imu
pub mod Activate
pub mod Lifecycle
pub mod Cycle
pub mod Published
pub mod Runs
