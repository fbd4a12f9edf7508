-- ===== src/Lib.antt =====
-- pzsvc-exec: a dispatcher that takes jobs from Piazza and starts a Cloud Foundry task for each, and
-- the worker that such a task runs. Both use the package pzsvc, which talks to Piazza.
--
-- Host (Host.antt, Host/) is what the program meets: the HTTP client, the disk, the shell, the clock
-- and the Cloud Foundry client, as functions of what has happened so far, so that a theorem about
-- every host is one about every behaviour of the environment. An action of the program takes the
-- trace of events to an outcome, a value or a panic, and a longer trace. Host/Adds, Host/Counts,
-- Host/Exactly, Host/Returns, Host/Runs, Host/Panics, Host/Triple and Host/Phases hold the rules by
-- which the properties of actions are proved. JSON decoders and encoders are parameters too:
-- Pzsvc/Json, Dispatcher/JobData and Worker/Cmd.
--
-- Prelude and Text are the shared helpers: 64-bit integers with their wrap-around, association lists
-- for maps, and the functions of strings and strconv that the program calls.
--
-- Pzsvc/Log, Pzsvc/CustomError        pzsvc/utils.go
-- Pzsvc/Ids                           pzsvc/utils.go: PsuUUID, SliceToCommaSep
-- Pzsvc/Model                         pzsvc/model.go
-- Pzsvc/Http, Pzsvc/Job               pzsvc/http.go; Job is GetJobResponse
-- Pzsvc/Writer                        pzsvc/http.go: HTTPOut, Preflight, PrintJSON
-- Pzsvc/TestUtils                     pzsvc/testutils.go, and the client that pzsvc/http.go keeps
-- Pzsvc/File                          pzsvc/file.go
-- Pzsvc/Service                       pzsvc/service.go
-- Pzsvc/Status, Pzsvc/ExecResult      pzsvc/execresult.go
-- Pzsvc/Config                        pzsvc/config.go
-- Dispatcher/Main                     dispatcher/main.go, dispatcher/pzsvc_discover.go
-- Dispatcher/Poll, Limits, Command    dispatcher/poll/loop.go, dispatcher/poll/vcap.go
-- Dispatcher/Cf                       dispatcher/cfwrapper/
-- Dispatcher/JobData                  dispatcher/model/jobdata.go
-- Worker/Cmd                          worker/cmd.go; Dispatcher/Command/Argv, Received, Executed and
--                                     Reported go from the dispatcher's arguments to the worker's
--                                     run and its report
-- Worker/Config, Worker/Log           worker/config/config.go, worker/log/workerlog.go
-- Worker/Input                        worker/input/
-- Worker/Ingest                       worker/ingest/
-- Worker/Exec                         worker/workerexec/
-- Tests                               a concrete host, with the theorems at concrete inputs
--
-- A Go function is the definition of the same name in snake case. A long function is cut where it
-- branches, and the parts are called in its order. Loops are recursion on the list they run over, on
-- the 300 rounds of GetJobResponse, or on the number of retries: the code's own bounds, so that no
-- fuel is needed. A nil pointer that is read is a panic.
--
-- Goroutines come in two forms. The functions of the packages run them one after the other, in the
-- order in which their channels are read, and the polling goroutine as a function of the signals
-- that it receives. Worker/Ingest/Threads, Worker/Input/Threads and Dispatcher/Poll/Threads have the
-- same goroutines as step relations, with their channels, their timeouts and whoever reads from
-- them, interleaved in any order: a send on a channel without a buffer is one step of its two ends.
-- A panic in a goroutine ends the program: the modules Panics of the first two add these steps, and
-- what is said of the interleavings elsewhere is said of programs in which no goroutine panicked.
--
-- Not modelled: the vendored libraries. Where goroutines are not interleaved, an ingest that times
-- out ends before the next begins. Interleaved, a download's attempts and its copy are one step. The
-- transports of net/http and the timeouts of its clients are the host's, rand.Read is what it gave,
-- and the command-line library is a parameter, with what it documents of flags as a hypothesis. The
-- shell between the dispatcher and the worker is not run: Dispatcher/Command/Line says what it is for
-- a command to be a line of bare words and of words between single quotation marks, and
-- Dispatcher/Command/Read that the command is one, for values that can be written so.
pub mod Prelude
pub mod Text
pub mod Host
pub mod Pzsvc
pub mod Dispatcher
pub mod Worker
pub mod Tests
