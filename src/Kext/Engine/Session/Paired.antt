-- ===== src/Kext/Engine/Session/Paired.antt =====
-- The engine and the driver's capture start and stop together.
use lat_sofaudio.Plugin.Floats.{Floats}
use lat_sofaudio.Kext.State.{Kext}
use lat_sofaudio.Kext.Engine.{Engine}
use lat_sofaudio.Kext.Engine.Session.{Session}
