-- ===== src/Lib.antt =====
-- smartmontools-go: a Go library that reads and controls S.M.A.R.T. data by running smartctl.
--
-- A query runs `smartctl -a -j` on a device, decodes the JSON document and classifies it. What smartctl
-- needs to be told about a device (its type, `-d`) is kept in a cache that starts with the USB bridges of
-- the drive database; queries and scans fill it, and two retries try a type where a first contact fails.
-- Messages and health bits are logged through caches of their own.
--
-- Files and code:
--   Types            internal/types/types.go, constants.go: the records; SelfTests is internal/types/helpers.go,
--                    Wear the method WearLevelPercent; Decode and Encode are what encoding/json reads and
--                    prints for the structs by their tags, with StatusField.UnmarshalJSON; RoundTrip
--                    and Computed have what holds of the two
--   Helpers          backends/exec/helpers.go
--   MessageCache     backends/exec/cache.go (cache.go is the same code); Concurrent has the two steps of a
--                    call apart
--   Drivedb          backends/exec/drivedb.go: Bridge (isUnknownUSBBridge, extractUSBBridgeID), UsbIds
--                    (extractUSBIDs, expandProductIDPattern), Load (loadDrivedbAddendum), Lines (its split
--                    of the text); Table holds backends/exec/drivedb.h from line 3919 on, and Shipped what
--                    the loader makes of it
--   Backend          backends/exec/exec_backend.go: State (ExecBackend, its cache, buildArgs; Concurrent
--                    for several goroutines), Logging,
--                    Version, Setup (New), Retry, Info (getSMARTInfoInternal), Devices (ScanDevices,
--                    DiscoverDevices), Commands (the operations of one command), Session (all public
--                    methods, in sequences), Documents (the backend over JSON documents)
--   Client           client.go: NewClient, the support helpers and the generic discovery; Progress is
--                    RunSelfTestWithProgress
--   Interleave       steps of several goroutines on one state
--   Json             JSON documents, and encoding/json on them: Decode, Encode
--   Base, Text       shared helpers; Witnesses applies the theorems to concrete inputs
--
-- The state is one record, `State`: the backend, the message cache of the package, the log, the commands
-- started so far and the clock readings. An operation is a function from a state to a result and a state;
-- Go errors are values of `Err`. `Env` is what the program does not implement: how processes answer, which
-- may depend on all commands before, what encoding/json makes of a text at each type, and the clock; in
-- Backend/Documents only the JSON document of a text is left of the second. The client is a function of a
-- record of backend operations, `Backend`, which `exec_backend` fills. The goroutine of a self-test is a loop
-- over the events that its `select` receives.
--
-- Every loop of the program is over a list or a text, so every function is structurally recursive and no
-- fuel is used; the loops that wait are over a list of events. Go's int has 64 bits: it is an
-- integer, with the masks of two's complement (a -1 has every bit), and the results of the arithmetic on
-- numbers from outside are wrapped (`wrap64`); the numbers come from documents, whose decoder refuses what
-- does not fit the type of a field. The elapsed seconds of a self-test are not wrapped, since it takes more
-- than 2^57 ticks to get there. Texts are ASCII.
--
-- Not modelled: contexts other than the default one of a client, and their cancellation other than as a
-- killed process, the mutexes of the backend themselves (each guards one map access, a single step
-- here), the parsing of a text to a JSON document (numbers with a fraction or an exponent are kept as
-- text, and no field takes them), the debug line of execCommander, the log handler that an option gives
-- (the log is one list), and the entries of drivedb.h before line 3919, which are for ATA disks, as those
-- up to line 5568, and no bridges.
pub mod Base
pub mod Interleave
pub mod Json
pub mod Types
pub mod Text
pub mod Helpers
pub mod Drivedb
pub mod MessageCache
pub mod Backend
pub mod Client
pub mod Witnesses
