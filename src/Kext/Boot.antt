-- ===== src/Kext/Boot.antt =====
-- The parts of initDSP() in kext/LatSOFAudio/LatSOFAudioDevice.cpp that work on data: the buffer
-- descriptor lists, the mailbox windows, the messages and their acknowledgement.
pub mod Bdl
pub mod Capabilities
pub mod Windows
pub mod Ipc
pub mod Topology
pub mod Ready
pub mod Cores
pub mod Wake
mod Tests
