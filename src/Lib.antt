-- ===== src/Lib.antt =====
-- A model of the core of NetBricks, a framework for network functions, and of what its parts promise.
--
-- Parts, and the files that model them:
--   Utils         framework/src/utils/mod.rs: the rounding of sizes.
--   RingBuffer    framework/src/state/ring_buffer.rs: a ring of bytes with a reader and a writer.
--   Segments      framework/src/state/reordered_buffer/reordered_buffer.rs, `SegmentList`: the
--                 segments that have arrived, as a doubly linked list in a vector.
--   Reordered     the same file, `ReorderedBuffer`: a TCP stream over a ring and a segment list. It
--                 writes early data behind the tail of the ring and notes them in the list.
--   Headers       framework/src/headers: the Ethernet, IPv4, TCP and UDP headers and `EndOffset`.
--   MBuf          framework/src/native/zcsi/mbuf.rs: the packet buffer's space.
--   Packets       framework/src/interface/packet.rs: a buffer with one of its headers, over a memory of
--                 bytes. A header type brings the bytes of its structure; Packets.Types has two.
--   Flow          framework/src/utils/flow.rs: flows and prefixes.
--   PacketBatch   framework/src/operators/packet_batch.rs: the packets that a pipeline works on.
--   Operators     framework/src/operators/filter_batch.rs, merge_batch.rs and group_by.rs: a filter over
--                 a packet batch, parents that act in turn, and the task that puts packets into the
--                 queues of their groups.
--   Mpsc          framework/src/queues/mpsc_mbuf_queue.rs: the queue of packet buffers between
--                 threads, run by one thread. Mpsc.Threads has any number of producers and one
--                 consumer, with a step for each atomic access; its log of what was reserved and
--                 its record of what was read are not in the code.
--   Scheduler     framework/src/scheduler: Embedded runs a task after those it depends on, Standalone
--                 runs its tasks in turn and takes a command after each pass over them.
--   Stores        framework/src/state/dp_mergeable.rs, cp_mergeable.rs and mergeable.rs: values for
--                 flows, with updates that wait in a cache, in a channel to the control plane, or
--                 for a lock. The answer of a lock that is tried is an argument.
--   Functions     test/nat/src/nf.rs: the address translation, on flows and on payloads;
--                 test/maglev/src/nf.rs: a table that spreads hashes over backends; and
--                 test/lpm/src/nf.rs: the tables that give the gate of the longest prefix.
--   Errors        framework/src/common/errors.rs: the error kinds.
--   Prelude       what the parts share: lists over native numbers, machine words, laws of `&` and
--                 `|`, copies between slices, and `Run`, the results of code that may panic.
--
-- A struct is a record and a method a function that returns the new record beside its result, under
-- the names of the source. A word is a native number, and its wrap-around is written out: `+` and
-- `-` wrap, as in the release profile of Cargo.toml. The host is little-endian and `usize` has 64
-- bits. A panic is `none` in RingBuffer and `panics` elsewhere; an index of -1 is `none`.
--
-- The loops over lists of segments take fuel, a bound of their rounds, and give `out_of_fuel` past
-- it. In-order traffic runs none of them, so the theorems on it hold for any fuel, 0 too; a list of
-- one node needs one round. The two loops of `enqueue_mp` need one round each when no other thread
-- is in the queue; with other threads they are steps of the relation, without fuel. The fuel of
-- `exec_task` bounds the depth of the dependencies: the task's handle is enough when tasks depend on
-- earlier ones. The fuel of `execute_loop` bounds the turns; the fuel of `generate_lut` bounds
-- the passes over the backends: one more than the slots is enough. The other loops are structural.
--
-- The bulk allocation and deallocation of DPDK, the ports, the checksum of `ipv4_cksum`, the clock
-- and the commands that arrive are parameters. Not modelled: the memory mappings of the ring,
-- printing, hashes, the iterators over packets, the operators other than these, the context
-- of the schedulers, the other functions under test/,
-- configuration, ports, control loops and native code.
pub mod Prelude
pub mod Errors
pub mod Utils
pub mod RingBuffer
pub mod Segments
pub mod Reordered
pub mod Headers
pub mod MBuf
pub mod Flow
pub mod PacketBatch
pub mod Mpsc
pub mod Scheduler
pub mod Stores
pub mod Functions
pub mod Operators
pub mod Packets
