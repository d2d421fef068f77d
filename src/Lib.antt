-- ===== src/Lib.antt =====
-- GhostCOM's kernel driver (driver/src), which makes pairs of a virtual COM port `COM<N>` and a
-- companion device `GCOM<N>` that are joined by a null modem.
--
-- A port pair (GCOM_PORT_PAIR) has two byte rings, one for each direction. A read takes bytes from
-- its ring, or waits in a queue of the framework; a write puts bytes in the other ring, or waits
-- for room. Each side wakes up the requests of the other. What the COM side sets (baud rate,
-- lines, characters) is kept in a signal state, and the companion is told of each change; the
-- companion's lines reach the COM side crossed, as modem status and as events of a wait mask.
--
-- The files, and what each models:
-- - Ring: driver/src/ringbuf.h. Positions are 32-bit patterns; the pool allocator is a parameter.
--   Ring/Inv has the invariant, Ring/Fifo the bounded queue that a ring implements, and Ring/Run
--   sequences of calls.
-- - Wdf: the part of the Windows Driver Framework that the driver uses, as an interface: requests
--   with their buffers, and queues that are first in, first out. Its fields are the framework's
--   functions and its laws their documented behaviour. A handler returns the list of its
--   completions, in order, beside the new pair.
-- - Pair, Changed, Bytes: driver/src/driver.h and ioctls.h, the state of a pair, and structures as
--   the bytes that cross the driver's boundary, with the least significant byte first.
-- - Drain: GcomDrainRingToReads and GcomDrainWritesToRing of portpair.c.
-- - Signal: GcomSignalChanged and GcomCheckWaitMask of portpair.c.
-- - Life: GcomPortPairAddRef, GcomPortPairRelease, what GcomPortPairDestroy does to the pair, and
--   the file callbacks of comport.c and companion.c; Life/World has them as steps.
-- - Attempt, Kernel: chains of calls that may fail, the outcomes of the kernel's calls, and an
--   account of the devices, pool blocks, locks, names and children that the driver holds.
-- - Table: the port table of GCOM_DEVICE_CTX, a list of 64 entries with the pairs in a heap, and
--   GcomFindFreePortNumber. Table/Well has the invariant.
-- - Create: GcomPortPairCreate of portpair.c, over GcomComPortCreate (Com/Device) and
--   GcomCompanionCreate (Companion/Device). Each of the kernel's calls has its outcome in a record,
--   so that a failure at any of them is one choice of that record.
-- - Destroy: GcomPortPairDestroy with the table, and GcomEvtSelfManagedIoCleanup of driver.c.
-- - Control: driver/src/control.c, the control device and its requests.
-- - Entry: DriverEntry, GcomEvtDeviceAdd and the children of driver.c; Entry/Service has the whole
--   driver's steps, with the files that are open on each pair: requests to the control device,
--   opens, closes, requests to the pairs, and the cleanup. Entry/Watch has the routines that watch the
--   IRPs, with the values that they write for diagnosis.
-- - Transfer: what the four data handlers share, and the contract of a direction.
-- - Com: GcomComEvtRead, GcomComEvtWrite and GcomComEvtIoctl of comport.c; its children Settings,
--   Lines, Waits and Queues have the operations of the requests, Buffers what these share, and
--   Ioctl the dispatch.
-- - Companion: GcomCompEvtRead, GcomCompEvtWrite and GcomCompEvtIoctl of companion.c.
-- - Session: requests of both sides on one pair, one after the other, each given to the handler that
--   GcomComPortCreate or GcomCompanionCreate registers for it, with what the purges cancel.
--   Session/Calm has what holds between two requests. The framework completes reads and writes of
--   no bytes itself, since the queues do not allow them.
-- - Base, Bits, Word, Status, Ntddser: shared names, bitwise operations, 32-bit arithmetic, status
--   values, and constants of the WDK. Tests has the runs at concrete inputs.
--
-- The loops that take requests from a queue run on fuel, one more than the requests that are
-- pending: each round but the last takes one, and none is put back but in the round that ends a
-- loop. A NULL queue handle is `none`; a handler that forwards a request to it has no result, since
-- the framework stops the system.
--
-- Not modelled: locks (each handler is one step, so that handlers on several processors take
-- turns as wholes; the queue of the control device is sequential, so that creations and
-- destructions do not overlap, and a new pair is taken to be opened only after its creation,
-- but in Create/Opened), the configuration of devices and queues, traces, and the values that
-- are written for diagnosis while a device is created, which touch no state of a pair; the
-- addon and the library in user mode, which are other programs. The constants of GET_PROPERTIES
-- are a parameter.
pub mod Base
pub mod Bits
pub mod Status
pub mod Word
pub mod Bytes
pub mod Ring
pub mod Wdf
pub mod Drain
pub mod Pair
pub mod Signal
pub mod Ntddser
pub mod Transfer
pub mod Changed
pub mod Buffers
pub mod Attempt
pub mod Kernel
pub mod Com
pub mod Companion
pub mod Table
pub mod Create
pub mod Destroy
pub mod Control
pub mod Entry
pub mod Life
pub mod Session
pub mod Tests
