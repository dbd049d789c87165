-- ===== src/Lib.antt =====
-- A verification library for Khorjin, a client for synchrophasor servers (PMU or PDC) of the IEEE
-- synchrophasor standard of 2005.
--
-- The program. All of the protocol is in src/ieeeC37_118/ieeeC37_118.c. A client connects over TCP
-- (c37_118client_connect), sends command frames (stopTransmission, getConfiguration,
-- startTransmission), parses the configuration frame that answers the second of them into an array of
-- PMU structures, and then parses one data frame after the other into the same structures
-- (getDataStream), from which the application prints or copies the values. The socket, clock and
-- thread functions of src/pal are a copy of the platform layer of libIEC61850.
--
-- The files.
--   Prelude: numbers and bits, lists, `int`, and `Outcome`: an access outside an array, a refused
--     frame (`return -1`), or the client at `return 0`.
--   Platform: the float type, its arithmetic, libm and localtime, as a parameter; convertEpochToCalendar
--     of src/pal/time/win32/time.c.
--   Pal: the functions of pal_socket.h, pal_time.h and pal_thread.h over a state of the world, as a
--     parameter.
--   Types: the structures of src/ieeeC37_118/ieeeC37_118.h and struct sC37_118client.
--   Checks: the five checks that both parsers of frames begin with. Shape: the arrays of a client against
--     its counts, and the size of its data frame. Typed: its integers and texts against the types that
--     the C structures declare for them; modules called Typed, here and below, are about these.
--   Wire: fourByteToUint32, threeByteToUint32, twoByteToUint16, decodeFloatingPointValue (Decode),
--     encodeUInt32FixedSize, encodeUInt16FixedSize (Encode), computeCRC and crcCheck (Crc). Crc/Serial
--     has the bitwise checksum of the standard, Crc/Detect and Crc/Burst are about changed bytes; Cursor
--     has the encoded words that the readers find, RoundTrip the writers against the readers, Room the
--     readers in a buffer that has room for them.
--   TimeStamp: parseTimeStamp, one function for each of its parts.
--   Config: preparePhsor, prepareAnalog, prepareDigital, prepareConfiguration (Prepare),
--     parseConfigurationFrame (Read and Frame). Config/Spec is the layout of the frame by the standard
--     and the structures that it stands for, written without reference to the parser: arithmetic on bits
--     where the code masks, which Leaves relates. Only the time stamp is said in Received by what
--     parseTimeStamp makes of its words. Overrun is about counts that are too large.
--   DataFrame: parseSTATWord (Stat), the loops over the values (Values, Pmu), parseDataFrame (Frame);
--     DataFrame/Spec is the layout of the frame and the values after it. Room, Total and Safe are about the
--     parser on any bytes, Layout and Kept about what it leaves as it was, Dated about its calendar, Session about
--     both parsers one after the other (by Ready).
--   Command: the command frame that three functions build by the same statements.
--   Client: c37_118client_connect and _destroy (Session), the calls that talk to the server and the
--     receiver loop (Stream), which no function of the repository starts, the getConf functions (Query),
--     outputDataStream (Output); what is proved of them stands in SessionLaws, DestroyLaws, StreamLaws,
--     RefusalLaws, LoopLaws, QueryLaws, ConfLaws (by ConfRoom), Written and OutputLaws, in Calls (what one call changes), Reach
--     (a client through any sequence of calls, by Sound), Typed and Leak (the same, by TypedCalls,
--     Calendars and FreedCalendars), Answers (the getConf functions around the receiver loop, by Steady)
--     and in Safe (the receiver loop and a server that may send anything).
--   Print: printConfiguration and printDataStream as lists of printf calls; Printed and Totals say when they
--     leave no array.
--   Example: main of examples/c37_118_Receiver/c37_118_Receiver.c, up to any round of its endless loop.
--   Tests: a platform, a server that answers from a list, two frames, and examples of the theorems.
--
-- The model. A buffer is a list of numbers; a read or write outside it, or outside an array of the
-- configuration, is a failure and not a value. Words wrap as in C (`% 2 ^ w`), and what Socket_read
-- returns is an `int`. A pointer to an owned array is the list of its elements, since no two pointers
-- of the client share one. The calendar of a time stamp is allocated at every frame: `lost` in Types has
-- those that were overwritten and that no pointer reaches. The two float variables of parseDataFrame live through all of its loops and
-- start with any value. The host is little endian, as the code assumes unless it is told otherwise.
-- Floating point operations are symbols: what is shown holds whatever they compute.
--
-- Bounds. Loops over counts of a structure are recursions on the count. The loops that wait for the
-- world (Socket_connect, Socket_read) take a number of rounds, and `waiting` says that they are still
-- in the loop; how many are enough is in Client/StreamLaws and Client/SessionLaws. The receiver loop
-- takes a schedule: for each test of `running`, whether another thread has cleared it, and what the
-- uninitialised variables of parseDataFrame hold in the round. The loop of the example takes a list of
-- the latter and gives the state behind its last round.
--
-- Not modelled: the sockets, threads and clocks under src/pal and lib_memory.c, which are system
-- calls, and out of memory; the debug output under `if (DEBUG)`; the blocks of memory, but for those that
-- destroy frees and the calendars: the arrays that a second getConfiguration
-- replaces are lost without a trace in the model; the functions that are commented out; the build files.
pub mod Prelude
pub mod Platform
pub mod Wire
pub mod Types
pub mod TimeStamp
pub mod Config
pub mod Checks
pub mod Shape
pub mod Typed
pub mod Pal
pub mod Command
pub mod Client
pub mod Example
pub mod Print
pub mod DataFrame
mod Tests
