-- ===== src/Lib.antt =====
-- LX, the Linux resource manager: its services, modelled from the C++ sources and verified.
--
-- LX shows sockets, processes, systemd units and journal entries, and acts on them: it signals
-- processes, starts and stops units, and releases ports. The services of src/application decide what is
-- done; they reach the system only through the interfaces of include/lx/contracts, which src/linux
-- implements.
--
-- Modules and sources
--   Base           lists, texts as bytes, signed numbers; `Base.Sort` has std::sort, std::unique and
--                  std::includes, `Base.Decimal` std::from_chars and std::to_string
--   Domain         include/lx/domain: the values that are exchanged, and Result
--   Contracts      include/lx/contracts: a record of operations for each interface, over any type of
--                  states of the world
--   Exec           the actions of the services. An action maps a machine (the world, and the signals
--                  and commands given so far, the latest first) to a Result and a machine. `Exec.Moves`,
--                  `Exec.Returns` and `Exec.Fails` hold the rules for what actions do and return,
--                  and why they fail
--   Application.ServiceService   src/application/ServiceService.cpp
--   Application.ProcessService   src/application/ProcessService.cpp
--   Application.PortService      src/application/PortService.cpp, with a child for plans, inspection,
--                  preparation, release and the stop of a managed service
--   Application.ResourceResolver src/application/ResourceResolver.cpp
--   Application.LogService       src/application/LogService.cpp: queries, reading and following, and the times
--                  that `--since` takes (`Since`)
--   Application.DoctorService    src/application/DoctorService.cpp
--   Application.InspectService   src/application/InspectService.cpp
--   Application.FindService      src/application/FindService.cpp
--   Application.MetricsService   src/application/MetricsService.cpp and StatusService.cpp
--   Application.DashboardService src/application/DashboardService.cpp: a refresh as a function of the fields that
--                  the service keeps
--   Application.DashboardWorker  src/application/DashboardWorker.cpp: the worker thread and the thread that
--                  controls it, as a step relation
--   Linux.Errno    the error numbers of the system calls
--   Linux.Procfs   src/linux/procfs: the parsers CmdlineParser.cpp, SocketFdTarget.cpp, StatParser.cpp (its
--                  CPU time in `CpuStat`), StatusParser.cpp, and of SystemMetricsParser.cpp (`Metrics`) the
--                  CPU row, the number of CPUs and the memory (`Memory`); `Reader` is ProcFsReader.cpp, `InodeResolver`
--                  SocketInodeResolver.cpp, `Users` PasswdUserResolver.cpp and `Processes`
--                  ProcFsProcessProvider.cpp
--   Linux.Process  src/linux/process: `PidFd` and `SignalProvider` (LinuxSignalProvider.cpp), over a kernel whose
--                  system calls are parameters (`Kernel`) and each of which is recorded
--   Linux.Systemd.JournalFields  src/linux/systemd/JournalFieldParser.cpp
--   Cli.Texts, Cli.Print, Cli.Records  src/cli/CliApp.cpp: the texts of messages and tables
--   Cli.Json       src/cli/JsonSerializer.cpp, its output functions in `Output`
--   Cli.App        src/cli/CliApp.cpp: `Arguments` is what CLI11 leaves in the variables of `run`, `Console`
--                  the streams and SIGINT; `Reads` and `Logs` have the commands that read, `Changes` those that
--                  act, `Run` the choice of the command and the errors of the parser
--   Linux.Systemd.SdBus, Linux.Systemd.Units, Linux.Systemd.Messages, Linux.Systemd.ServiceProvider
--                  src/linux/systemd/SdBus.cpp, SystemdMessageParser.cpp and SystemdServiceProvider.cpp,
--                  over sd-bus as a record of its calls
--   Linux.Systemd.SdJournal, Linux.Systemd.JournalEntries, Linux.Systemd.JournalProvider
--                  src/linux/systemd/SdJournal.cpp and SystemdJournalProvider.cpp, over sd-journal as a
--                  record of its calls
--   Application.Example          a small system at which the theorems are applied
--
-- How code is read
--   A const method with providers as members is a function of the record of these providers. Each call
--   of a provider sees the world as it is then and leaves another, so two equal calls may answer
--   differently; nothing is assumed about a provider unless a theorem says so. `if (!r) return failure`
--   is a bind; code that looks at a failed result itself uses `attempt`. Strings are lists of bytes,
--   messages are kept word for word. pid_t and int are signed integers, the unsigned types natural
--   numbers. Maps and sets are association lists; the order in which an unordered set of PIDs is
--   walked, which C++ leaves open, is a function that the model is given.
--
-- Loops
--   Loops over containers recurse on lists. The loops of `stopManagedService` and of the wait without
--   process handles run until a deadline, and the one of `nameForUid` until a buffer is large enough:
--   they take fuel, as does that of `parseMemoryInfo`, and an amount is shown to be enough; in
--   `CliApp::run`, which waits for a stopped service too, the end of the fuel is a way to end of its
--   own. The calls that are parameters of `CliApp::run`, `follow` among them, return by assumption, and
--   of what they may throw only the exceptions of the JSON library are modelled. A handle's wait
--   repeats poll(2) while it is interrupted, on fuel of which none is enough, since interruptions need
--   not stop; nor is any for the entries of the journal since a time or to come. ListUnits needs a
--   round for each record.
--
-- Not modelled
--   The terminal interface, which draws with FTXUI; CLI11's reading of the arguments; what the kernel,
--   the file system, and the C, formatting, JSON and time libraries do behind the calls, which are
--   parameters; netlink; uptime, a floating point number. A percentage is a
--   quotient of natural numbers, without the rounding of doubles, and times of the steady clock are
--   nanoseconds that do not overflow.
pub mod Base
pub mod Domain
pub mod Exec
pub mod Contracts
pub mod Application
pub mod Cli
pub mod Linux
