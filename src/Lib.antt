-- ===== src/Lib.antt =====
-- A model of the keycode side of nexus-embedded, the C library that lets a pay-as-you-go (PAYG)
-- product accept keycodes, of what it stands on, and of the origin commands and the link manager of Nexus Channel. The
-- program's parts, and the files for them:
--
-- - nexus/src/nexus_util.c: bitsets (Util/Bitset, laws in Util/Bitset/Laws), bitstreams
--   (Util/Bitstream), streams of digits (Util/Digits), windows of IDs around a center
--   (Util/Window, with Window/Set on setting a flag) and the check value `nexus_check_compute`
--   (Util/Check), which is SipHash-2-4 of nexus/utils/siphash_24.c.
-- - nexus/src/nexus_nv.c with nexus/utils/crc_ccitt.c: blocks in nonvolatile memory (Nv). Nv/Laws
--   says what the product's memory promises and when a block is valid; Nv/RoundTrip is about
--   update followed by read.
-- - nexus/src/nexus_keycode_mas.c: message assembly and rate limiting (Keycode/Mas). Keys and
--   whole keycodes become frames for a handler. Mas/Rate and Mas/Bounds are about any sequence of
--   inputs, Mas/Entry about the two ways to enter a keycode.
-- - nexus/src/nexus_keycode_pro.c: message IDs (Keycode/MessageIds), the QC code counts
--   (Keycode/Pro/Qc), initialisation and the pending frame (Keycode/Pro/Process), and what the
--   small and the full protocol do with a parsed message (Keycode/Pro/Small, Keycode/Pro/Full),
--   with their parsers (Small/Parse, Full/Parse). Small/Frames and Full/Frames are about the
--   frames that message assembly hands over, through any history; Full/Short is about frames of
--   the full protocol that are too short for what they claim to be. Small/Persist and Pro/Restart
--   are about power cycles.
-- - nexus/src/nexus_keycode_pro_extended.c: the protocol that passthrough frames of the small one
--   carry (Keycode/Pro/Extended), with the passthrough function of nexus_keycode_pro.c that calls
--   it. Extended/Infer is about the search for a message ID, Extended/Apply about application,
--   Extended/Agree about the two implementations of the window.
-- - nexus/src/nexus_keycode_core.c and the keycode side of nexus/src/nexus_common_internal.c
--   (Keycode/Core): power-up, uptime and processing, and the entry points for keys. The theorems
--   on the modules together are in Core/Wiring.
-- - nexus/src/nexus_channel_om.c and nexus_channel_core_apply_origin_command of
--   nexus/src/nexus_channel_core.c: origin commands to a controller (Channel/Om), their parser
--   (Om/Parse), the search for a command ID (Om/Infer), application (Om/Apply) and all histories
--   of commands (Om/Once).
-- - nexus/src/nexus_channel_res_lm.c: the link manager (Channel/Links), from initialisation to
--   creation and deletion of links. Links/Invariant and Links/Room are about any sequence of its
--   operations, Links/Created about a link that it agreed to create.
-- - Keycode/State has the data these share, from nexus/src/internal_keycode_config.h,
--   nexus/include/nxp_keycode.h, nexus/include/nxp_common.h and nexus/include/nx_keycode.h.
--
-- State and operations. The static variables of a C file are a record that its functions take and
-- return: `Mas` for the assembly module, `Pro` for the pending frame, `Device` for the stored data
-- in RAM with the product's memory and the list of calls made into the product (credit, feedback,
-- custom flags). A function keeps its name without the prefix `nexus_keycode_`,
-- `nexus_keycode_pro_` and the like. The product is a parameter: `Product` holds what it answers
-- (memory, key, PAYG state). `IsHonest` states what the documentation of the memory promises, that
-- it gives back what a write reported as done. `IsReliable` adds that every write succeeds, which
-- is not promised; the program ignores the result of its updates, and the statements on devices
-- and controllers, whose RAM has to agree with memory, take it as an assumption on the hardware.
-- With memory that can fail a write they would not hold. The handler of frames that
-- nexus_keycode_mas.c holds as a function pointer is a field of `Env`, which Keycode/Core fills
-- with `pro_enqueue`, and the function `parse_and_apply` that nexus_keycode_pro.c holds is an
-- argument of `pro_process` and a field of `HandlingConfig`. `OmState` holds the stored data of
-- origin commands with the memory and the state of the rest of the channel, on which the two
-- operations of the link modules that commands call act, fields of `Controller`. What an
-- uninitialised variable or array holds, and what lies behind an array that is read past its end,
-- is an argument (`scratch`, `scratch_id`, `stray`).
--
-- Numbers are natural numbers with the wrap of the C type written out (u8, u16, u32, sub32). The
-- build is the production one, in which NEXUS_ASSERT compiles to nothing, on a little-endian host,
-- with link security on, so that the largest NV block has 40 bytes. Keys, secrets and bytes are
-- lists. Loops are structural recursion on the rounds left: the search for a message ID gets 65
-- rounds, one more than the window of 64 IDs has; the count of attempts gets as many rounds as
-- there are seconds in the bucket, which is enough since each takes off a positive refill time;
-- the searches through a window get two more than it has IDs above its bottom; all are proved
-- enough. `mathmod10` gets 26 rounds, of ten each, for a difference that a byte makes negative.
--
-- `IsDevice` is the invariant between two calls: the stored data are well formed and memory holds
-- them (or, on a new unit, nothing). `used` is the set of message IDs that a device regards as
-- received: all below the window, none above `Pd`, and by the flags in between. The theorems on
-- the message IDs are equations on that set, and those on the protocols follow from them.
--
-- In the link manager the three arrays of links and flags are one list of slots, whose length is
-- the configured number of links.
--
-- Not modelled: in the link manager the nonces, the activity time and the queries; the rest of
-- Nexus Channel (the link handshake, the PAYG credit resource and the security manager,
-- nexus_channel_*.c, nexus_cose_mac0_*.c, nexus_oc_wrapper.c, nexus_security.c) with the IoTivity
-- and TinyCBOR sources it stands on, and the functions that only store the alphabet of a protocol.
-- Handling of a passthrough keycode by the product is a field of `Product` in the full protocol.
pub mod Base
pub mod Channel
pub mod Keycode
pub mod Nv
pub mod Tests
pub mod Util
