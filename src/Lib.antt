-- ===== src/Lib.antt =====
-- The login proxy for Ultima Online, as definitions and theorems about them.
--
-- A client connects (`Listener::OnAccept` of src/Listener.cxx). Its accounting, found by its address
-- (src/net/ClientAccounting.cxx), decides whether it is let in, delayed (src/DelayedConnection.cxx) or
-- dropped; a UDP knock (src/KnockListener.cxx) may be required first. A `Connection`
-- (src/Connection.cxx) reads the client's two login packets, has the password checked by the user
-- database (src/Database.cxx), sends a list of servers if one is configured, connects to a game
-- server, hands it the login packets, and forwards bytes through two kernel pipes (src/Splice.cxx).
--
-- Files:
--   External      what comes from outside of the repository (libcommon, libsodium, Berkeley DB), as
--                 records of operations with their documented laws; `Platform` has all of them
--   Wire          src/uo/Packets.hxx, src/uo/String.hxx, src/uo/Command.hxx, src/Validate.hxx, and
--                 the packets that src/Connection.cxx builds
--   Splice        src/Splice.cxx: `ReceiveFrom`, `SendTo`, the destructor
--   Accounting    src/net/ClientAccounting.cxx, src/net/AccountedClientConnection.cxx
--   BerkeleyDb    the handles of src/BerkeleyDB.hxx and src/BerkeleyDB.cxx
--   Database      src/Database.cxx, with what src/BerkeleyDB.cxx finds under a key
--   Config        src/Config.hxx, src/Config.cxx
--   Instance      the shared state of src/Instance.hxx
--   Pipes         src/PipeStock.cxx, and the splices of a server that share the stock
--   Connection    src/Connection.cxx: `Login`, `Server` and `Ready` have the handlers, `Transfer` the
--                 forwarding that `OnIncomingReady` and `OnOutgoingReady` share; `Protocol` is the
--                 login protocol as a machine of its own
--   Listener      src/Listener.cxx, src/DelayedConnection.cxx
--   Knock         src/KnockListener.cxx
--   Nftables      src/Nftables.cxx
--   Server        the events of the event loop as steps of a whole server; `Life` and `Served` are
--                 the life of one connection, whose events `Served` takes only as they are due;
--                 `Relay` and `Stream` are the part of it in which the connection forwards
--   Boot          src/Main.cxx, src/CommandLine.cxx, the start and the shutdown of src/Instance.cxx
--   Exporter      what src/Instance.cxx tells Prometheus
--   Prelude       shared tests, lists and laws of numbers
--   Runs          a concrete platform, and the theorems at concrete inputs
--
-- A handler takes the state and the answers of the system calls that it makes, and gives the new
-- state with its effects in order. `crashed` is a failed assertion (a debug build), or an exception
-- that leaves a `noexcept` function. A byte is a number, a packed integer the bytes that it occupies,
-- and a counter wraps at 2 ^ 64. Times are nanoseconds of the steady clock, which does not run out. A
-- pointer to a client's accounting is the client's address number, a new object has a number that the
-- caller gives. The pipe of a splice is the list of its bytes; the kernel's side is that splice()
-- moves no more out of a pipe than it holds, and that a pipe holds less than 2 ^ 32 bytes.
-- No definition uses fuel: `Discard` recurs on the list of answers of its reads, all other loops on
-- their lists.
--
-- Not modelled: logging, the signals, the watchdog of systemd, which lines of the configuration file
-- are comments, the decimal digits of the exporter's numbers, the threads of the job queue, whose
-- jobs run at any time, and the assertions of `AddConnection` and `RemoveConnection` of
-- src/net/ClientAccounting.cxx: a constructor calls the one for its new object, and the other is
-- called through the object's own pointer, so there is no pointer in the model that they could test.
pub mod Prelude
pub mod External
pub mod Config
pub mod Wire
pub mod Splice
pub mod Pipes
pub mod Accounting
pub mod BerkeleyDb
pub mod Database
pub mod Nftables
pub mod Instance
pub mod Connection
pub mod Listener
pub mod Knock
pub mod Server
pub mod Boot
pub mod Exporter
pub mod Runs
