-- ===== src/Lib.antt =====
-- LatSOFAudio is an audio driver for macOS in two parts: a kernel extension (kext/LatSOFAudio), which
-- boots the Sound Open Firmware DSP and runs its DMA, and a plug-in of the system's HAL
-- (plugin/LatSOFAudioPlugin.c), which shows that hardware as a microphone. This library models the
-- plug-in, all of plugin/LatSOFAudioPlugin.c but its factory function; of the kernel extension the
-- device object (kext/LatSOFAudio/LatSOFAudioDevice.cpp) with its capture, recovery, power management,
-- initialisation of the DSP, load, unload and user client; its audio engine
-- (kext/LatSOFAudio/LatSOFKernelAudio.cpp); and the command-line tools contrib/latsof-setrate.c and
-- contrib/latsof-afgwake.c. The plug-in reaches the kernel extension through its user client
-- (StartIO and StopIO start and stop the capture); AppleHDA, the system's own driver, works on the
-- same controller, so that the kernel extension may change its own bits of the shared registers only.
--
-- Plugin/Types, Plugin/State and Plugin/Monad hold what all parts share: the constants that the file
-- compares, its globals as one record (PlugIn) together with the calls made to the kext and to the HAL
-- so far, and a monad for the control flow of its functions. A call returns, fails with a status (`goto
-- Done`), waits for ever for a mutex that is held (the pthread mutexes are not recursive), or reads
-- through NULL. Calls are sequential: each function is one step on the globals, which is right where it
-- holds its mutex throughout; the interleaving of the IO thread with the others is not modelled.
--
-- What each module models:
-- - Plugin/Io: LatSOF_StartIO, LatSOF_StopIO, by their branches on gDevice_IOIsRunning.
-- - Plugin/Clock: LatSOF_GetZeroTimeStamp, the hardware clock (gHWClk_*) and the host clock.
-- - Plugin/Capture, Plugin/Mix, Plugin/Operation: LatSOF_DoIOOperation, ReadInput with the DC blocker and
--   WriteMix in its two parts, with LatSOF_WillDoIOOperation and the rest of the IO calls.
-- - Plugin/Lifecycle: the reference count, LatSOF_Initialize and the device's configuration change.
-- - Plugin/Property: what the property handlers share, their arguments, checks and stores.
-- - Plugin/RootObject, Plugin/BoxObject, Plugin/Device, Plugin/Stream, Plugin/Control: the five handlers
--   (Has, IsSettable, GetDataSize, GetData, SetData) of the plug-in, the box, the device, the two streams
--   and the six controls. `has`, `settable`, `size_of`, `get` and `set` are the switches behind the
--   argument checks.
-- - Plugin/Dispatch: LatSOF_HasProperty and the other four entry points, which send a request to the
--   handlers of its object and notify the HAL of changes.
-- - Plugin/Tests: examples on concrete values.
-- - Kext/Types, Kext/State: the device object with the file-scope latches (gWasCapturing and the others),
--   the registers it shares with AppleHDA (a register is a function from bit numbers to Booleans), and
--   what the DSP was sent so far. A pointer is a Boolean, whether it is null.
-- - Kext/Registers: outputSdBusyState, poll32, iciVerb. Kext/Borrow: SdSnapshot, sdRestore, streamReset
--   and the loader's programming of AppleHDA's descriptor. Kext/Init: initDSP.
-- - Kext/Capture: startCaptureGated, stopCaptureGated, scheduleDspRecovery. Kext/Power:
--   setPowerStateGated, sPowerInterestHandler. Kext/Retry, Kext/Resume, Kext/Afg: the wake retry engine,
--   the executor of the engine's resume (with completeDeferredResume of LatSOFKernelAudio.cpp), and the
--   AFG keep-alive in jackPoll.
-- - Kext/Driver: the calls through the command gate, start(), stop(), and what happens to the driver as
--   events (Event, run). Kext/Client: LatSOFAudioUserClient.
-- - Kext/Safety, Kext/Coexist, Kext/Demand, Kext/Ticks, Kext/Budget, Kext/Lifetime: proofs about them, by
--   what they show.
-- - Kext/Boot: the parts of initDSP that work on data. Boot/Bdl: the buffer descriptor lists of the
--   firmware image and of the capture ring. Boot/Capabilities: the search for the ML, PP and SPIB
--   capabilities. Boot/Windows: the mailboxes, by the extended data behind the FW_READY header.
--   Boot/Ipc: sendIpc, by the words in the mailbox and what the DSP finds there at each doorbell.
--   Boot/Topology: the messages of pipeline 3, as words. Boot/Ready: initDSP with all of these.
--   Boot/Wake: how initDSP begins, with the PCI power management and the first waits. Boot/Cores: reset,
--   power and interrupt enables of the DSP's cores over attempts, captures and shutdownDSPGated.
-- - Kext/Engine: LatSOFKernelAudioEngine: stampAt, readPositionAtEdge with the turns of its loop on fuel
--   (401 turns, each of which waits 5 us, pass its deadline of 2 ms), wrapTimerFired and the stamp of
--   performAudioEngineStart. Engine/Convert: convertInputSamples. Engine/Hardware: initHardware of the
--   device and the engine, createControls and stop, by the references that they hold. Engine/Session: the
--   calls of the audio family (performAudioEngineStart, performAudioEngineStop, resumeAudioEngine) with
--   the driver that they reach.
-- - Kext/Init: initDSP by what is answered at each stage, with its writes to registers that AppleHDA
--   shares (other_writes for those outside of PPCTL, INTCTL, SPIBCTL and the output descriptor).
-- - Kext/Tests: examples on a small driver.
-- - Setrate: contrib/latsof-setrate.c. Setrate itself has the notifications and the timer of the resident
--   mode (--enforce), in whole milliseconds; Setrate/Devices has list_devices, pin_all, rate_is_wrong,
--   watch_devices and main. Rates are a parameter (Rates).
-- - Afgwake: contrib/latsof-afgwake.c, codec_verb with the reopening of its port, correct_if_wrong,
--   prearm_for_jack, on_change and backstop, with all verbs sent. Afgwake/Modes has listen_all and main.
--
-- A Get handler is modelled by the stores that it makes through outData, one behind the other (Item),
-- and by what it stores in *outDataSize, if anything. Float arithmetic is a parameter (Floats), so that
-- what is shown of the sound holds for every arithmetic; the few facts on IEEE comparison that are used
-- are hypotheses. The sizes of CoreAudio's structures (Abi), the answers of IOKit (KextAnswers, Poll), the
-- HAL's storage, the time base and the icon's URL are parameters too. Unsigned integers wrap where the
-- source's do (`% 2 ^ 32`, `% 2 ^ 64`). All loops are structural recursion on the number of turns left;
-- only the loop of readPositionAtEdge, which ends by the clock, has fuel.
--
-- The kernel extension runs its gated actions and its timer on one workloop, so that its events are
-- steps one after the other. What the controller, the ROM, the firmware, the codec, IOKit and the audio
-- family answer is input of each step (Attempt, Mmio, Ici, Wake, Family, Load); whether the DSP
-- acknowledges is a function of all it was sent (Dsp). On a sleep the registers come back as given, and
-- the theorems that need it say what D3 resets.
--
-- Not modelled: the playback of the kernel extension, which it refuses, and its I2C and codec parts, which
-- return early on this board; the ROM handshake of initDSP but for its outcome, the clock mode of the
-- SSPs, and the DONE bits that sendIpc clears; status properties and log lines; the
-- names and formats that the kernel engine tells the audio family; retain counts of CoreFoundation
-- strings; memory allocation.
pub mod Prelude
pub mod Plugin
pub mod Setrate
pub mod Kext
pub mod Afgwake
