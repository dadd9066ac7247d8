-- ===== src/Lib.antt =====
-- A verification library for Trigglow Dynamic Delay, an OBS Studio plugin that delays a stream by a
-- buffer of encoded frames.
--
-- The video filter captures frames on the graphics thread and reserves a slot of the delay ring for
-- each; encoder threads store packets in slots, in memory of the arena; the decode worker pins slots
-- to read them and playback shows the frame that is due. Two policies watch the load: one says when
-- the hardware codec may store the buffer, the other takes quality or parallelism up and down, and
-- the first can hold the second back.
--
--   Select       src/frame-ring.hpp, namespace ringselect: which frame to show, where to start decoding.
--   Ring         src/frame-ring.hpp and src/frame-ring.cpp, class FrameRing. Ring/Calls is the ring
--                under any interleaving of calls; each call holds the mutex, so it is one step.
--   Arena        src/frame-arena.hpp and src/frame-arena.cpp, class FrameArena. Arena/Calls is any
--                sequence of its calls; Held and Blocks say what is held and what blocks are then.
--   Chain        src/storage-codec.hpp, class ChainTracker, and what src/codec-pipeline.cpp does with a
--                packet of the tracked chain.
--   CodecPolicy  src/storage-codec-policy.hpp and src/storage-codec-policy.cpp.
--   Degradation  src/degradation-policy.hpp and src/degradation-policy.cpp; Degradation/Evaluate is
--                Policy::Evaluate.
--   InFlight     src/storage-codec.hpp, class InFlightQueue.
--   EncoderCheck src/encoder-check.hpp and src/encoder-check.cpp, with sizes of src/buffer-fit.cpp.
--   BufferMode   src/buffer-mode-controller.hpp and src/buffer-mode-controller.cpp, class
--                BufferModeController: BufferMode/Texts, Encoders, Ops, Cycle and Events are its
--                operations, Host the settings of src/core-host.cpp, Track what the log of calls says.
--   CodecSelect  src/storage-codec-select.hpp and src/storage-codec-select.cpp.
--   Annexb       src/annexb.hpp and src/annexb.cpp.
--   Json         src/json.hpp and src/json.cpp: Json/Read, Json/Parse and Json/Write are the parser and
--                the writer, the other modules what is proved of them.
--   Tasks        src/background-tasks.cpp, with src/cancel-token.cpp in Tasks/Token; Tasks/Ops has the
--                groups and the runs of any operations.
--   Delay        src/delay-controller.hpp and src/delay-controller.cpp, class DelayController, with
--                src/obs-frontend-bridge.hpp as a record of operations.
--   Prelude      names of the libraries, machine words, lists, and the interface to `double`.
--
-- State is passed explicitly: an operation takes the record of a class's fields and returns the new
-- one, with what it hands out. Names are the source's in lower case with underscores: Reserve is
-- `reserve`, `lastCaptureNs_` is `last_capture_ns`. Sizes and times are natural numbers, and sums
-- that the code may wrap say so (`add_u64`, `% u32_mod`). An index out of range reads a default, as
-- the source never does it.
--
-- Loops run on fuel: the binary search on the number of positions, of which each round takes some
-- away; the look back on `due + 1` rounds, after which its bound `back <= due` fails; the walk to
-- the key on `due` rounds; the walks forward on the number of positions left. A caller that runs out
-- of fuel has ended the source's loop as well. The JSON reader's calls have three units of fuel for a
-- byte of the text and three more, as at most three of them go by a byte, and a read that ran out is
-- `starved`; the walk over a bitstream has one unit for a byte, and Clear one for an entry.
--
-- A text is the list of its bytes, and a position in it the list of those that are left.
--
-- Background jobs: what a thread does under one hold of the registry's lock is one step, and so is the
-- test of a queued result with the call of its function, as groups are closed on the thread that
-- drains. Whether a thread starts, a job throws or the waker throws is an argument; the
-- calls of the waker and of Drain are kept in a list.
--
-- Parameters: the arithmetic of `double` (Prelude/Double), of which nothing is assumed, snprintf, which
-- is only asked that the numbers of a value are read back (`NumberReturns`), and whether the operating
-- system gives the arena memory. The counter of generations that all rings share is passed to `reserve`. The bytes of the frames are not modelled, only who holds them.
--
-- The bridge to OBS is a record of operations on a state of OBS's own. The delay controller, which
-- sets OBS's own stream delay, stands beside the buffer and shares nothing with it. The buffer mode
-- controller switches the buffer on and off: its world holds OBS's state and a log of the calls made,
-- from which what viewers get is read, and between two calls OBS may move to any state. Its bridge
-- answers EstimateBufferFit, whose sizes src/buffer-fit.cpp finds in doubles.
--
-- Not modelled: FFmpeg, GPU and libobs glue, the user interface, accounts and network, and of the
-- parts above the tables of names for the log and BuildLadder of src/degradation-policy.cpp, whose
-- loop rounds doubles.
pub mod Prelude
pub mod Select
pub mod Arena
pub mod Ring
pub mod Chain
pub mod CodecPolicy
pub mod Degradation
pub mod Delay
pub mod InFlight
pub mod Annexb
pub mod Json
pub mod Tasks
pub mod EncoderCheck
pub mod BufferMode
pub mod CodecSelect
