-- ===== src/Lib.antt =====
-- Verification of p0rtal: the Go broker under proxy/, which gives a user a one-time way into a
-- Windows machine, and the agent under agent/, which records what happens there.
--
-- How the parts work together. The API (proxy/internal/api) decides who may open a session: the
-- router asks the verifier (proxy/internal/auth) for the user behind a token, and the handler
-- looks up the user's grant in the ACL store (proxy/internal/acl), whose secret the chain of
-- tokens in proxy/internal/secrets resolves. The session manager then takes a pair of ports from
-- the pool, makes an id and a one-time token, writes the proxy's INI file, starts the proxy, and
-- puts a gatekeeper before it. The user gets an RDP file whose cookie carries the token; the
-- gatekeeper reads that cookie from the client's first packet, checks it once, and bridges the two
-- sides. A termination, a revocation or a shutdown gives everything back. On the machine the agent
-- polls the sessions of Windows, and runs a recorder for each: the recorder uploads video in
-- chunks and events in batches through its client, and the recording store of the broker keeps,
-- lists and plays them.
--
-- The files, by what they model (paths under proxy/internal, then under agent):
--   Session/PortPool       session/port_pool.go: Allocate, Release and the counts
--   Session/Token          session/token.go: GenerateToken with its encoding, NewToken, Validate
--   Session/RdpFile        session/rdp_file.go: GenerateRDPFile, RDPFilename
--   Session/Gatekeeper     session/gatekeeper.go: parseCookie (Cookie), readX224Packet (Packet),
--                          handleConnection (Handler), extractIP (Address), and Start, Stop and the
--                          set of connections (Connections)
--   Session/ConfigWriter   session/config_writer.go: the INI text and the session directories
--   Session/ProxyProcess   session/proxy.go: WaitReady, StopProxy, IsRunning, ProxyOutput
--   Session/Manager        session/manager.go: CreateSession (Create), TerminateSession and Shutdown
--                          (Terminate), monitor (Monitor), the reading methods (Queries), the
--                          closures that the gatekeeper is given (Manager, Door); Threads has calls
--                          at the same time
--   Access/Store           acl/store.go: the methods of MemoryStore
--   Access/Verifier        auth/verifier.go: Verify
--   Access/Router          api/router.go: what ServeHTTP lets through (Entry, by the header's text)
--   Access/Handlers        api/access.go and the CreateSession of api/sessions.go
--   Access/ClientIp        extractClientIP of api/sessions.go
--   Access/Admin           api/publickeys.go with ParsePublicKey of acl/store.go, api/secrets.go,
--                          api/targets.go, api/health.go, and the other handlers of api/sessions.go
--   Recording/Store        recording/store.go with models.go: the methods on the files of a recording,
--                          which Recording/Files has, with what is left of them; Agreement and
--                          Calls have what its metadata says of them, Lines what is written to
--                          its events
--   Recording/Listing      List of recording/store.go, and listRecordings of api/recordings.go
--   Recording/Playlist     GeneratePlaylist of recording/store.go, and the names of hlsSegment
--   Recording/Api          the handlers of api/recordings.go, with their statuses
--   Secrets                secrets/tokens.go, and AccessSecret of secrets/client.go (Secrets/Client)
--   Credential             credential/gsm.go with the types of credential/provider.go
--   Broker                 config/config.go, and the port pool of proxy/cmd/broker/main.go
--   Agent/Client           internal/client/client.go: the requests and their retries
--   Agent/Events           internal/capture: the events and what the handlers of recorder.go make of
--                          them; Agent/Filters has the filters, Agent/Captures the lines of the
--                          capture scripts (events.go, winlog.go), Agent/Trackers the trackers
--                          (window.go, clipboard.go, input.go)
--   Agent/Recorder         internal/capture/recorder.go: the buffer, flushEvents and Stop; Delivery
--                          has them as steps that run beside each other, Stored has a batch on its
--                          way through the client and the handler to the broker's disk
--   Agent/Screen           internal/capture/screen.go: the chunks and when ffmpeg is restarted
--   Agent/Sessions         internal/session/detector.go with the callbacks and the end of runAgent in
--                          cmd/p0rtal-agent/main.go
--   Agent/Startup          internal/config/config.go, internal/ffmpeg/ensure.go and the start of
--                          runAgent
--   Agent/Service          Execute of cmd/p0rtal-agent/service_windows.go
--   Strings, Prelude       what the program uses of Go's `strings`, `strconv`, maps and results
--
-- State. A record of the model has the fields of the Go struct, without mutexes, loggers and
-- channels. A method that changes a struct is a function to the new struct. A method that holds
-- one lock from its first line to its last is one step. CreateSession and TerminateSession release
-- the manager's lock in between: Session/Manager runs each as a whole, and Session/Manager/Threads
-- has the steps `Step` between the locks, in any order. In the same way the critical sections of
-- the agent's recorder are the steps `Move` of Agent/Recorder/Delivery: the flush loop, the
-- uploads, the handlers and Stop come in any order. A Go map is an association list.
--
-- Numbers. Ports, times and sizes are natural numbers; ports are below 65536 and a packet's length has 16
-- bits, so that nothing wraps around there. The life of an STS token is a product in 64 bits, whose
-- wrap-around `nanoseconds` has. The counts that can be negative
-- in the source are integers here. Texts are lists of bytes; case folding is that of ASCII.
--
-- Loops are recursive on their list, or on the rounds that are left: `first_free` has as many as
-- the range has ports, and reading a packet as many as its length says. `itoa` has one round more
-- than its number, which has fewer digits than that. The wait for the proxy has one round for each
-- millisecond of its timeout and one more, and a round takes 50 milliseconds or more. A request
-- has three rounds, the removal of a directory five, the clipboard 2050 units, the connection one
-- for each of its delays: these are the bounds of the source. No definition can run out.
--
-- Files and processes. A write is done, does not start, or is cut; a cut in the lines of events may leave
-- half a line, which the next event is appended to. A removal of a recording may leave any of its files.
-- The kills and the removals of the session manager succeed as `OsAnswers` says, and their errors are
-- ignored where the source ignores them. GetEvents is taken to be able to open its file, with no line
-- longer than the 64 kilobytes of its scanner.
--
-- What stands outside is an argument: random bytes, the clock, the answers of the network, of the
-- operating system and of the processes, what Windows shows of its sessions, windows and
-- clipboard, the JWT and key libraries, the decoders of JSON, base64 and PEM.
--
-- Not modelled: the making of certificates (certs/generator.go), which calls crypto/x509; the
-- calls of the Windows API and the running of ffmpeg and PowerShell; the installation of the agent
-- as a service and its queries; the mux, the JSON of requests and responses, logging, the web
-- pages, and the wiring of the parts in the two main functions, which are calls of other programs
-- and libraries. `Start` of the agent's recorder is taken for whether it succeeds. A call of the
-- token chain runs alone: its locks are not modelled.
pub mod Access
pub mod Agent
pub mod Broker
pub mod Credential
mod Prelude
pub mod Recording
pub mod Secrets
pub mod Session
pub mod Strings
