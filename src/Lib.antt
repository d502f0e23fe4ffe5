-- ===== src/Lib.antt =====
-- Verification of the C code of axvisor-tools: the inter-VM communication driver (IVC), its user
-- library, and the messages of its demo programs.
--
-- A publisher and a subscriber, two guests of AxVisor, share a region of memory that holds two rings of
-- 256-byte slots, one for each direction. The publisher lays the region out, the subscriber accepts it.
-- A message is cut into frames of one slot each; a sender state machine publishes them, a receiver state
-- machine puts them together. A program reaches this through the user library, which opens devices of the
-- driver; the demo programs put a header of their own in front of each message.
--
--   Common                 the library names that all modules share, Boolean tests, arrays as lists, bit
--                          fields, error codes
--   Ring                   ivc/ring.c. Defs has axivc_ring_initialize, _try_push_slot, _try_peek_slot and
--                          _pop_slot, a call at a time; Concurrent has one producer and one consumer,
--                          where each access of shared memory is a step. Fifo is the abstract queue.
--   Message                ivc/message.c. Frame is the codec; Sender has axivc_message_start, _try_write
--                          and _try_abort; Receiver has _peek_meta, _try_read and
--                          axivc_validate_transition. Joined says when the two ends agree, Link runs any
--                          calls on both ends.
--   Region                 ivc/region.c: axivc_region_init_publisher as its stores in program order, and
--                          axivc_region_validate.
--   AppProto               demo/app_proto.c.
--   Ulib                   userspace/ivc/ivc_ulib.c. Defs has the manager and the operating system, which is
--                          a parameter; Subscriber and Publisher have the endpoints, Session any calls
--                          on one manager.
--   Demo                   demo/publish.c and demo/subscribe.c. Publish and Subscribe have the loops, Main
--                          and Subscribe the two main functions.
--   Uio                    uio_ivshmem/uio_ivshmem.c. Irq has the interrupt handler and irqcontrol, with
--                          steps that interleave them; Probe has probe and remove.
--   Devices                ivc/ivc.c. Publishers has ivc_publish_channel, ivc_unpublish_channel in two
--                          parts, and the opening and closing of a device; Steps puts them in any
--                          order with the reads and writes, a publication being taken whole. Places
--                          and Sections interleave what is done under the lock of the registry.
--                          Subscribers has the other side, SubscriberSteps and SubscriberSections its
--                          steps, and Table what the two have in common. Driver has
--                          axivc_manager_ioctl, init and uninit_ivc_devices, and ivc/main.c; Unload
--                          uses them in any order. Receive has axivc_recv_message, Files the reads and
--                          writes of both sides, and Send has axivc_send_message with
--                          axivc_abort_send, with what the peer, the clock, signals and the user's
--                          memory do in each round; Peer is an end that keeps to the message layer.
--                          The kernel and the hypervisor are a parameter; a channel that the
--                          hypervisor is asked to take back and refuses is noted as stranded.
--
-- State is passed explicitly: a function of the source that changes what a pointer refers to returns the
-- new value. A ring is passed beside the sender or receiver that points to it. Unsigned arithmetic keeps
-- its wrap-around (u32, u64, u8). A buffer is the list of its bytes. An `int` result is 0 or the errno
-- constant it negates.
--
-- Bounds. The write loop has the bytes that are left as fuel, since each round takes one or more. The
-- receive loop has output_len + 1 rounds, since each round that goes on writes one or more bytes; that
-- this is enough on every ring is among the results. The polling loops of the demo programs have one
-- round for each read that the time-outs allow, which is among the results too. A loop of the driver has
-- one entry of a list for each round, and without an entry left it has not returned yet. The calls of the
-- message layer are taken whole, between which the other end may do anything; that a push and a peek may
-- overlap access by access is the subject of Ring.Concurrent, under the order that acquire and release
-- give. Program order stands for the stores of publication; the loads of a
-- subscriber fall anywhere between them.
--
-- Not modelled: NULL arguments of the demo and the user library; what is printed; the hypercalls
-- (ivc/hvc.c), which are a parameter; the parsing of the demo programs' numbers; the Python binding and
-- the Rust command line tool.
pub mod Common
pub mod Ring
pub mod Message
pub mod Region
pub mod AppProto
pub mod Ulib
pub mod Uio
pub mod Demo
pub mod Devices
