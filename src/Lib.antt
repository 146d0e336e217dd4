-- ===== src/Lib.antt =====
-- A verification library for firmir, a small C++ library with an event loop, timers, loggers,
-- variants, and a D-Bus client.
--
-- The parts and the files that model them:
--
-- Dbus/Message: dbus/message.cpp with dbus/include_private/firmir/dbus/message_p.h, the codec of
--   D-Bus messages. `Reader` and `Writer` are the cursors of the same names, with one function per
--   method (readUInt32 is `read_uint32`). `Header` has the constructors from a reader and the
--   serialisers of FixedHeader and DynamicHeader. `Private` has `serialize` and `readFd`, over a
--   kernel whose call `read` is a parameter. `Api` is the class Message: its accessors and
--   `operator>>` (`extract`). `Printing` has toString and the printers of the enumerations. `Layout`
--   and `Header/Entries` say what the wire format is; they model no code.
-- Dbus/Wire: the byte swaps, and the bytes of a number in memory. The host is little-endian.
-- Dbus/Connection: dbus/connection.cpp and dbus/pending-reply.cpp, from authentication to the answers
--   of calls. `System` has the connection, the results of all replies that it made, a reply being named
--   by its place among them in place of its shared pointer, and the kernel, whose calls `read` and
--   `write` are parameters; the descriptor of the socket is part of it. `Opening` is how it is opened:
--   getPath, uidToHex and startConnect.
-- Core/Object: core/firmir-object.cpp, subscriptions and events, over the store of the objects that are
--   alive. An object is named by its address; to read one that is not alive has no result. What a
--   callback does is a parameter.
-- Core/EventLoop: core/event-loop.cpp, the table of descriptors and the rounds of exec (`rounds`), and
--   the variables behind EventLoop::instance (`Singleton`). The calls of epoll and what the callbacks do
--   are parameters; epoll_ctl may refuse to add a descriptor, at which the source does not look.
-- Core/Types: core/firmir-types.cpp, variants and maps of variants.
-- Core/Timer: core/firmir-timer.cpp, the settings of a timer and the calls of timerfd_settime that
--   they lead to. A call that fails is only logged by the source, and is left out. `Expiry` is how a
--   timer is watched by the loop and what it emits when it expires, and `SingleShot` the static
--   singleShot, whose timer deletes itself.
-- Core/Logging: core/firmir-logging.cpp and core/include/firmir/logging.h, what a statement writes.
-- Examples: examples/dbus, a client with a codec of its own. `Reader`, `Writer` and `Message` are
--   dbus-message.h, one function per method, with an exception as an outcome; `Client` is main.cpp, over
--   a kernel whose calls are parameters. `Reader/Agreement`, `Message/Rounds` and `Message/Interop`
--   compare the codec with that of Dbus/Message, with which it shares no code. `Handler` is the struct
--   of examples/dbus.cpp, over Dbus/Connection.
-- Base: numbers, lists and decimal texts that the parts share.
-- Tests: runs on concrete inputs.
--
-- Bytes, characters and fixed-width numbers are natural numbers, and a sum that can wrap in the
-- source has its `% 2 ^ w`. A read outside a buffer, `value()` of an empty optional, and a loop of
-- the model that used up its fuel are outcomes of their own (`Stop`). The loop over the header fields
-- has one unit of fuel more than the buffer has bytes, and each round takes a byte at least; the loop
-- of `readExact` has as many as the bytes that it wants, since a call of `read` that returns bytes
-- returns one at least. A double is its bit pattern. Error messages that the codec logs are left out.
--
-- The loop over the serials of `send` has one round more than there are replies; `doAuth` has one unit of
-- fuel more than there are bytes in the stream.
--
-- The rounds of the event loop, which ends only when it is stopped, run on any fuel.
--
-- The loop of the example over the header fields has the fuel of that of the library; its `read_exact`
-- has a round for each byte that it wants, `read_line` one for each byte of the line, and the loop that
-- waits for the reply one for each message.
--
-- Not modelled: what a program does in its handlers, constructors and destructors that only manage
-- memory, what the examples print on the way, and the main functions of examples/core.cpp and
-- examples/dbus.cpp, which only start the loop.
pub mod Base
pub mod Core
pub mod Dbus
pub mod Examples
pub mod Tests
