-- ===== src/Lib.antt =====
-- RetroPark: an emulator frontend, its core loader, its presentation and its netplay.
--
-- The program loads cores (emulators behind a C ABI, include/retropark/retropark_abi.h), runs them
-- through a runtime (include/retropark/retropark.h), and lets two runtimes play one game over a
-- transport. A rollback session never waits for the other side: it assumes an input, and when the real
-- one turns out to be another it goes back to a saved state and plays the frames since again.
--
-- Base: numbers, lists, `std::map` and tests that the parts share.
-- Abi: the types of include/retropark/retropark_abi.h.
-- Net.Protocol: the messages of src/net/NetProtocol.h and NetProtocol.cpp. The encoders and decoders
-- keep their names; a decoder returns what it reads, refuses the message, or reads out of bounds.
-- Net.Crc32: src/net/Crc32.h, and in Net.Crc32.Shifts the shift register that defines CRC-32.
-- Net.Machine: the calls of the runtime that a session makes, as a record of functions on a state that
-- is a parameter, with the laws of a driven core whose saved states bring it back whole.
-- Net.Rollback: src/net/RollbackSession.h, RollbackSession.cpp, RollbackPredict.h and
-- RollbackPredict.cpp. The record `Session` has the fields of the class without their underscores; each
-- numbered stage of `RollbackSession::tick` is a function, and `tick` joins them. What the transport
-- answers during a tick is the argument `Wire`, and what is sent is appended to `sent`. The loops run by
-- recursion on the frames left, the entries of a map, or the polls of the wire.
-- Net.Rollback.Start: the handshake, `start_host` and `start_join`, with the answers of the transport in
-- a `Line`.
-- Net.LockStep: src/net/NetSession.h and NetSession.cpp, the session that waits for the other side's
-- input; `NetSession` has the fields of the class, and `await` is the loop that drains the transport.
-- Net.LockStep.Agreement runs the ticks of a frontend one after the other.
-- Net.Loopback: src/net/LoopbackTransport.h and LoopbackTransport.cpp, one side's view of the two channels.
-- Audio.Output: the pool and the count of queued frames of src/audio/XAudio2Output.cpp and AudioPool.cpp;
-- whether the voice takes a buffer is an argument.
-- Loader.CoreLoader: src/loader/CoreLoader.h and CoreLoader.cpp. A core is any record of functions,
-- each of which may be missing; null pointers are options, and using one is a fault.
-- Render.SurfaceRing: src/render/SurfaceRing.h and SurfaceRing.cpp, for calls in sequence.
-- Loader.Manifest: src/loader/Manifest.h and Manifest.cpp; the JSON library is the parameter `Json`.
-- Render.FramebufferCopy: src/render/FramebufferCopy.cpp.
-- Runtime: src/runtime/Runtime.h and Runtime.cpp. The record `Runtime` has the fields of the class
-- without their underscores. Runtime.Boot and Runtime.Load load, resize, reboot and unload a core,
-- Runtime.Host is what a core calls of its host, Runtime.Frame runs and shows frames, saves and loads
-- states, rewinds and pauses, and Runtime.CApi is the C interface on a pointer that may be null. The
-- backend, the audio output, and how a core reads its inputs and calls its host during a frame are the
-- parameter `Platform`; files, modules on disk, the registry of static cores and the clock are
-- arguments. Runtime.Machine puts a runtime with a driven core behind the calls of Net.Machine, so that
-- what is proved of sessions holds of runtimes. Runtime.Unpaused adds `present` for a runtime that is not
-- paused, by which the lockstep session plays its frames, and Runtime.Lockstep puts the two together.
-- Net.Tcp: src/net/TcpTransport.h and TcpTransport.cpp. What Winsock answers is a function of the number of
-- the call; the loops take fuel, one round for each byte at most. The length of a call is converted to
-- `int`, as in the source.
-- Shim.PixelConvert and Shim.Input: PixelConvert.cpp and ShimInput.h of cores/libretro_shim. Shim.Options,
-- Shim.Json, Shim.Callbacks and Shim.Core: LibretroShim.cpp there, by parts: the options that a core
-- declares, their JSON, what a core calls of the shim, and the core ABI that the shim offers. A function of
-- the wrapped core is a `Script`, which calls the shim and goes on from what comes back.
-- Cores.Rollback and Cores.Driven: cores/refcore_rollback and cores/refcore_driven, with `uint32_t` as a number
-- with its bound; Cores.Games puts them behind a runtime.
-- Loader.StaticCores: src/loader/StaticCoreRegistry.cpp and StaticCoreModule.h.
-- Runtime.RewindRing: src/runtime/RewindRing.h, snapshots of any type.
--
-- Numbers are natural numbers; the frame counter, the sizes and the slack of `prune` wrap around as in
-- the source, and the theorems say where they assume that a counter does not overflow.
-- Only the loops of Net.Tcp need fuel.
-- Not modelled: the presenting reference cores, the search of the libretro shim for its library and its OpenGL
-- framebuffer, whose answers are arguments; calls of the host
-- that a core makes on threads of its own between frames, other than as single calls; the pixels that
-- `rp_runtime_render` writes, the time that a receive waits, GPU backends and windows, which are calls
-- of the platform.
pub mod Abi
pub mod Audio
pub mod Base
pub mod Cores
pub mod Loader
pub mod Net
pub mod Render
pub mod Runtime
pub mod Shim
