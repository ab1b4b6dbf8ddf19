-- ===== src/Lib.antt =====
-- The host monitor of ESPNetworkSerial (monitor/*.go): a Go program between the Arduino IDE,
-- which speaks the Pluggable Monitor protocol on stdin and stdout, and an ESP32, which speaks
-- ESPNS/1 over TCP. An OPEN command dials the board (protocol.go), which runs the handshake
-- under the settings of the configuration (auth.go) and, if both sides have the key, wraps the
-- connection in the record layer (secure_conn.go); a session (main.go) then copies bytes both
-- ways until one side ends.
--
-- Which file models which part:
-- - Net: net.Conn as a script. `Conn` holds what each Read will bring, an error with the last
--   bytes included, how much each Write takes, what has been sent, and whether it is closed;
--   `conn_read`, `conn_write` and `conn_close` consume it. A theorem about every Conn is a
--   theorem about every behaviour of the network, short reads and writes included. `read_full`
--   is io.ReadFull.
-- - SecureConn (monitor/secure_conn.go): `SecureConn` is espnsSecureConn, `write` and `read` are
--   its Write and Read, `send_record` is one turn of Write, `read_body` and `read_payload` are
--   the two parts of Read behind the header, `write_all` is writeAll, `make_nonce` is
--   makeESPNSNonce; SecureConn/Keys has deriveESPNSKeys and both steps of HKDF;
--   SecureConn/Channel has the loop that reads an exact number of bytes (`receive`, from
--   stressModeWithOptions in monitor/stress.go).
-- - Os: the files of the system by path, with the calls of package os. A `Disk` has, with each
--   call, a fault or none, so that a theorem about every Disk is one about every way in which
--   calls may fail.
-- - Auth (monitor/auth.go): Auth/Settings has the settings and the tests on the key, Auth/Config
--   the configuration file (readMonitorConfig, loadAuthSettings, loadPersistentAuthSettings,
--   writeMonitorConfig), Auth/Quote has quoteCStringBytes and a reader of C literals to compare
--   it with, Auth/Firmware the header file for the firmware, Auth/Provision has
--   provisionAuthConfig and runAuthProvisioning.
-- - Protocol (monitor/protocol.go): Protocol/Line has readESPNSControlLine, Protocol/Fields has
--   parseESPNSFields, Protocol/Message the words and the results, Protocol/Defs has
--   negotiateESPNSHandshake, cut where it branches (`say_hello`, `on_response`, `on_ok`,
--   `on_challenge`, `send_proof`, `on_result`), espnsHMAC and dialESPNS.
-- - App (monitor/main.go): App/Command has splitCommand and the pattern of HELLO, App/Address
--   has normalizeBoardAddress with SplitHostPort and JoinHostPort of package net, App/Defs the
--   state of `app`, its sessions and its handlers, App/Handle has open, handleCommand and run. A
--   session is an index where the program has a pointer. The goroutines of a session end by
--   `bridge_end` and then send their response by `say`, in any number before any command and in
--   the middle of OPEN and of CLOSE (`meanwhile`).
-- - Reconnect (monitor/main.go, reconnectingTCP): the board's connection that is dialed again
--   when it breaks. `Mem` has its fields, `Pc` where a goroutine stands in Read, Write, Close or
--   in the functions that they call, `Move` each step of these, `Step` one step of any goroutine
--   or of the clock. A section under stateMu is one step, reconnectMu is held from `lock` to
--   `unlock_got` or `unlock_failed`. Reconnect/Duties says what a goroutine has in its hands,
--   Reconnect/Invariant what it may rely on, Reconnect/Reachable that this holds whenever it
--   runs.
-- - Stress (monitor/stress.go): `stress_mode_with_options` is stressModeWithOptions over the
--   sequence of what its dials bring, `transfer` the exchange of one cycle, `turn` what one dial
--   leads to, in a cycle or in waitForStressRecovery. It goes through that sequence, since with
--   recovery a test may go on for ever; `running` says that the next dial has not answered.
-- - Tests: runs on concrete inputs.
--
-- Code outside of the repository is a parameter: AES-GCM as `Gcm`, with the laws of `IsGcm`
-- (Open returns what Seal sealed under the same key, nonce and header, and accepts nothing
-- else), HMAC as a function `Hmac`, with the length of its digest where that matters, the random
-- bytes, the clock and the two SetDeadline calls in `Env`, package encoding/json on the type of
-- the configuration in `Codec`, with the laws of `IsCodec`, net.ParseIP and the verb %q in
-- `Texts`, and the tables of strings.ToUpper outside ASCII. `strings.TrimSpace`,
-- `strings.Fields`, hexadecimal coding and big-endian integers are written out in Prelude.
-- Numbers are natural numbers, the flags of the stress test integers; what does not fit is
-- reduced modulo 2 ^ 32 or 2 ^ 64 where the code converts.
--
-- Loops run on fuel. write_all and write: the length of the text, since a turn that does not
-- fail takes a byte. receive: the number of bytes wanted, since Read returns one at least.
-- hkdf_loop: the size, since each block has a byte. read_line: the events and bytes that the
-- connection has left, since each read uses one up. Running out of fuel is a result of its own.
-- A connection here brings finitely many bytes and then fails; on one that sends CRs or empty
-- reads for ever the loop of readESPNSControlLine ends by the deadline of the connection only,
-- which is not modelled.
--
-- Not modelled: the mutexes of app (endSession is one step of a handler, and two of a goroutine,
-- which sends its response in the second; the goroutines run in the middle of OPEN and of CLOSE,
-- and between any two commands), the pauses of the stress test, what the deadlines of
-- connections do (only that they are set and cleared), the texts of most errors (a constructor
-- each), the exact JSON of a response (its fields stand in `Response`), the copying inside a
-- session, directories, the direct mode and the flags of main, and the firmware in C++.
pub mod Prelude
pub mod Net
pub mod Os
pub mod SecureConn
pub mod Auth
pub mod Protocol
pub mod App
pub mod Reconnect
pub mod Stress
mod Tests
