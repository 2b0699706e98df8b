-- ===== src/Lib.antt =====
-- AdbClient: a client of the adb server in C++.
--
-- The program. A command object holds a TCP client of libhv. A command stores its request,
-- installs a connection callback and a message callback, resets a flag, starts the connection and
-- waits for the flag. On connection the request is written behind its length in four hexadecimal
-- digits. Each read of the event loop goes to the message callback, which reads the reply and
-- clears the read buffer. The end of the connection sets the flag, and the command returns its
-- status.
--
-- The parts, by the paths of the repository:
--   Protocol      src/adb_protocol.cpp: read_protocol_string, respond_transport_command; `frame` is
--                 the length and the text that both sides of the code write; Protocol.Ids has the
--                 identifiers of include/adb_protocol.h
--   Command       src/adb_command.cpp: the base class, the exchange that all commands make, and the
--                 two message callbacks that most of them install
--   HostCommand   src/host_command.cpp: the commands to the server itself
--   HostSerialCommand  src/host_serial_command.cpp: the commands to the server about one device
--   LocalCommand  src/local_command.cpp: the services of one device behind host:transport
--   Requests      the texts of the requests with arguments, as a server takes them apart
--   Talk          what all the commands write, whatever the events are
--   Utils         src/utils.cpp: string_split, unique_spaces, get_lines_from_buf and, in
--                 Utils.Devices, get_device_info_from_buf
--   Printf        src/android/stringprintf.cpp
--   DeviceInfo    src/device_info.cpp, include/device_info.h
--   Main          main.cpp: the three example programs; Main.Session, Main.Visits and the modules
--                 Main.Host, Main.Serial and Main.Local have a whole run of each, against a server
--                 that answers every request; Main.Refusals, Main.Denied and Main.Absent one
--                 against a server that refuses
--   Base, Fault, CString, Number, Client  what they share: bytes and lists, the faults of the C++
--                 code, the C library functions on memory, atoi and stoi, and the boundary to libhv
--   Tests         one concrete run of each theorem
--
-- State and operations. The members of a class are the fields of its record, without m_; `calls`
-- records the calls on the TCP client and its channel in order. An operation takes the object and
-- returns the object that it leaves. A `Frame` is the object and the two local variables of a
-- command that its message callback captures by reference: `status`, and the variable that the
-- caller passed. A callback may read past the end of the buffer or throw: it returns a `Result`,
-- and the fault of a callback is the fault of the command.
--
-- Time. What libhv does is a parameter: a list of events, each a connection callback or a message
-- callback with the buffer that it is given. `waits` tests the flag before each event and returns
-- with the events that are left; with no event left it is blocked. So the waiting thread is taken
-- to see the flag before the next callback is made. Command.Threads has the same wait as the steps
-- of two threads, which share the mutex, the condition variable and the flag and interleave in any
-- order, a run being counted by its steps and by its wakeups for no reason. The theorems on whole
-- exchanges take a read to be its bytes and at least one zero behind them, `received`: where the
-- code looks at what stands behind the bytes, the read is shorter than the buffer, by a hypothesis.
-- A buffer that the reads share is in Command.ReadBuffer, and a read that fills the buffer in
-- Protocol.Full and Command.Filled.
--
-- Bounds and fuel. A byte is a number, and a text a list of them; the theorems that need bytes
-- without NUL say so. Lengths are natural numbers; the `int` of StringAppendV is bounded by
-- INT_MAX, and `stoi` and `atoi` by the range of `int`. `format_04x` has fuel for eight digits and
-- `decimal` for ten: a size_t below 2 ^ 32 and a uint32_t have no more digits. `split_loop` has a
-- number of rounds, of which two more than the text has bytes are enough.
--
-- Not modelled: libhv itself, which is another project's library (include/libhv_evpp is a copy of
-- its headers); the logging macros of include/utils.h, which only print, a buffer up to its NUL;
-- the bound SYNC_DATA_MAX of include/adb_protocol.h, which no code uses; the constructors and
-- destructors of the command classes, which are empty; the writing of the image to a file in
-- execute_local_command, of which the bytes are modelled; the loops of main.cpp behind TRACK_LOOP
-- and SHELL_LOOP, which are not compiled; and unittest, which needs a device.
pub mod Base
pub mod Fault
pub mod CString
pub mod Number
pub mod Utils
pub mod Printf
pub mod DeviceInfo
pub mod Client
pub mod Protocol
pub mod Command
pub mod HostCommand
pub mod HostSerialCommand
pub mod LocalCommand
pub mod Requests
pub mod Talk
pub mod Main
mod Tests
