-- ===== src/Lib.antt =====
-- WinHookAudio: a verification library of the parts of the program that carry audio and routing.
--
-- WinHookAudio is a virtual audio router for Windows. An ASIO driver, the Master, shows one DAW a
-- table of up to 512 input and 512 output slots. A slot routes a hardware channel, a channel of a
-- Virtual Cable (a kernel driver's endpoint), a channel of one of four Shared Bridges (a second ASIO
-- driver for up to four other apps) or a channel of a Network Stream. The Control Panel writes the
-- Slot Table in shared memory, the Master and its Worker read it once a tick of the Master Clock, and
-- samples pass between the threads and processes through the queues that are modelled here.
--
-- Files and the code they model (paths from the repository's root):
--   Prelude and below    lists, machine words, integers and circular buffers over the native numbers
--   Cable, Cable/Ring    common/virtual/WHACableRing.h (CableRing: write, read, clear, resetExtra), the
--                        8-channel ring of a Virtual Cable with priming, trimming and growth
--   Cable/Format         common/virtual/WHACableFormat.h: sample kinds, sizes, masks, channel names
--   Cable/WorkerRing     common/virtual/WHARingBuffer.h, the Worker's whole-block ring
--   Network/Spsc         common/network/WHASpscRing.h, the lock-free ring; its Threads module
--                        interleaves the copies and the stores of the producer and the consumer, with
--                        stale loads
--   Network/Packet       common/WHAPacket.h: the WHAA headers and their checks
--   Network/Payload      common/network/WHANetwork.cpp (BuildPcmPayload, ParsePcmPayload)
--   Network/Jitter       common/network/WHAJitterBuffer.h: a queue for each stream, with the delay
--   Table/Text, Data     common/WHASlotTable.h: C strings and the structs of the Slot Table
--   Table/Access         its accessors (CableSetting, HwDeviceId, HwDeviceMode and their writers)
--   Table/Names          its channel names (AutoSlotName, DawChannelName) and DawVisibleChanged
--   Table/Validate       common/WHASlotsJson.h (ValidateSlots) and the tests that it calls
--   Table/Defaults       common/WHASlotsFile.h (FillDefaultSlotTable)
--   Json                 common/WHASlotsJson.h: the strings, numbers and switches of slots.json
--                        (EscapeJsonString, ParseString, ParseInt, ParseUInt, ParseFloat, ParseBool)
--   Json/Objects         the loop over the members of an object, written out four times in the source
--   Json/Slots, Streams  SlotToJson and ParseSlot, NetworkStreamToJson and ParseNetworkStream
--   Json/Writer          SerializeSlots; a writer takes the text that follows what it appends
--   Json/General, Loader DeserializeSlots: its object "general" with the arrays in it, and the rest;
--                        Json/Lengths and the modules named Total are about its loops coming to an end,
--                        Json/Objects/Chains and the modules named RoundTrip about text read as written
--   Config/Yaml          common/WHAYaml.h: quoted scalars (YamlQuote, ReadQuoted)
--   Config/Scalar        the same file's blanks, scalars, keys and items (Trim, ReadScalar, SplitKey, IsItem)
--   Bridge               common/WHABridgeShared.h: client places, delay, channels, mix
--   Hardware/Floats      the operations of double that the drift code uses, as an interface
--   Hardware/Drift       common/WHADriftControl.h: the PI loop from a fill to a resample ratio
--   Hardware/Resampler   common/network/WHADriftResampler.h: reset and process
--   Hardware/Queue       the circular queue of frames of the two hardware FIFOs
--   Hardware/InputFifo   asio-master/HwInputFifo.h: a device read on its own clock
--   Hardware/Position    asio-master/HwOutputFifo.h: HwPositionTracker
--   Hardware/OutputFifo  asio-master/HwOutputFifo.h: a device written on its own clock; `plan` in its
--                        Plan module
--   Hardware/Pacer       asio-master/HwClockPacer.h: when the next tick is due
--   Master/Claim         asio-master/MasterClaim.h: the processes that share the claim, a step relation
-- In a Tests module stand the runs on concrete inputs.
--
-- Conventions. Unsigned words are native numbers with each wrap written out (% 2 ^ 32, % 2 ^ 64), an
-- int is an unbounded integer, a buffer is a list, and a record stands for a struct or an object. A
-- sample is of an arbitrary type where the code only moves it; float arithmetic is a parameter or an interface
-- without laws, of which a theorem names those it needs. Loops
-- are structural recursion over what they count. Fuel occurs six times: the rounding loop of the
-- lock-free ring's allocate, where 32 rounds suffice exactly up to 2^31 frames; the decimal printer,
-- where 10 digits are enough for a 32-bit int; the reading loop of a quoted scalar, which takes
-- at least one byte a round and gets a round for each byte and one more; the loops of ParseString and
-- over the members of a JSON object, which get a round for each byte too; and the loop of the
-- resampler's process, where at ratio 1 a round more than the frames held and given is enough.
--
-- Not modelled: the kernel driver and its PortCls glue (driver), Windows audio and sockets
-- (the rest of asio-master and of common/network/WHANetwork*), the panel (common/panel), third-party codecs and
-- resamplers, installers, tools and tests, since they are I/O or foreign code; and, so far, the rest
-- of the configuration files (common/WHAYaml.h, common/WHAConfigYaml.h) and the drivers' state machines.
pub mod Prelude
pub mod Cable
pub mod Network
pub mod Table
pub mod Json
pub mod Bridge
pub mod Config
pub mod Master
pub mod Hardware
