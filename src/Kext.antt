-- ===== src/Kext.antt =====
-- The kernel extension: kext/LatSOFAudio.
pub mod Types
pub mod State
pub mod Registers
pub mod Capture
pub mod Borrow
pub mod Init
pub mod Boot
pub mod Power
pub mod Resume
pub mod Retry
pub mod Driver
pub mod Safety
pub mod Ticks
pub mod Coexist
pub mod Afg
pub mod Client
pub mod Engine
pub mod Lifetime
pub mod Demand
pub mod Budget
mod Tests
