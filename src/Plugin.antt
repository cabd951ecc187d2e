-- ===== src/Plugin.antt =====
-- plugin/LatSOFAudioPlugin.c: the AudioServerPlugIn that the HAL loads.
pub mod Types
pub mod Floats
pub mod State
pub mod Monad
pub mod Io
pub mod Clock
pub mod Capture
pub mod Mix
pub mod Operation
pub mod Property
pub mod BoxObject
pub mod Lifecycle
pub mod RootObject
pub mod Stream
pub mod Control
pub mod Device
pub mod Dispatch
pub mod Tests
