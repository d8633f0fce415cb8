-- ===== src/Lib.antt =====
-- Pyntara: provisioning of a machine by an ordered list of tasks.
--
-- A run (`run` of src/pyntara/pyntara.py) reads the environment, resolves the install mode and the
-- task names against the catalog, builds the context and hands both to the task runner, which
-- reports one result for each task. The exit code is computed from the results and from the
-- warnings of the run.
--
-- Files, by the part of the program that they model (paths from the root of the repository):
--   Shared    natives, lists, and Python's `==` and `in` for types with decidable equality
--   Text      the methods of str that the program calls; a text is a list of code points
--   Catalog   src/pyntara/task_catalog.py: one function for each of its functions, the loop of
--             `_dependencies_of` as `walk`; Catalog/Data is src/pyntara/values/tasks.py
--   Models    src/pyntara/models.py and src/pyntara/context.py
--   Effects   programs that call the machine and write the log, as state passing
--   Runner    src/pyntara/task_runner.py, with `disk_shortage_message` and
--             `free_package_download_cache` of src/pyntara/utils.py
--   Entry     src/pyntara/pyntara.py: Environment, Desktop (the account of the desktop),
--             Selection (the mode), Tasks (the run set and the forced tasks), Summary (the exit code)
--   Fstab     src/pyntara/fstab.py
--   ConfigEdit  src/pyntara/config_edit.py: Replaced and Written on the edits by line, Merged and
--             Synced on the directives; a file is an optional text
--   Metrics   src/pyntara/metrics_commit.py, metrics_ingest.py, metrics_send.py and metrics.py: Store
--             and Machine (the directories and the calls), Ingest, Dispatch, Command, Vault, Times, Entries, Send, Loop, with `backoff_delay` of
--             src/pyntara/utils.py in Backoff; Stages is what the queue promises about a name,
--             Rule the rules for programs; the others are proofs
--   Forwarding  src/pyntara/forwarding_ports.py (Ports) and port_forwarding.py (Tunnel, Loaded; Integers)
--   Launcher  src/pyntara/launcher_modes.py: the bounds of a block, its replacement, the rewrite
--   Programs  programs that may raise, for Metrics and Forwarding
--   Zram      task_data/zram_service/configure_zram.py: Machine (the command line, the kernel and the
--             tools), Reading (the target and what is read), Steps, Run; Target, Verified and
--             Clean are proofs
--   Proquint  the proquint code of src/pyntara/utils.py
--
-- State. The machine is an abstract state `W` with a record of calls (Runner.Machine, Entry.Host,
-- Entry.Desktop.Accounts): the disk, the import system, the task functions, apt, the clock and the
-- session manager are parameters. A call answers or raises; `raised` stands for the exceptions
-- that the code catches at that call, and other exceptions are outside the model. The log is the
-- list of the calls of logger.py, in order.
--
-- Case folding is the table `fold_code` of the interpreter, a parameter: a text folds code point by
-- code point. The theorem on the shipped catalog asks of it that it maps a to z, 0 to 9 and _ to
-- themselves, which the Unicode table does. The table `lower_code` of str.lower is a
-- parameter of the proquint decoder, and its theorem asks that it leaves the lower-case letters of
-- the words. `strip`, `split` and `splitlines` use the white space and the line breaks of Python's
-- str.
--
-- Fuel. `walk` gets one unit more than the catalog has dependency entries: a name is pushed only
-- when it is newly found, so each entry is pushed at most once. `digits_from` gets as much fuel as
-- the number, which has no more digits than that.
--
-- Representation. A set of names is a list without order being read from it; a frozenset of forced
-- names is the list of the run set that it was built from. The durations of tasks are ticks.
--
-- Times of files are nanoseconds. Metrics/Times has the arithmetic of floats that st_mtime and its
-- way back into nanoseconds use: numbers of units of 2 ^ -82, rounded to 53 bits, with fuel enough
-- for 2 ^ 190 seconds.
--
-- The metrics queue keeps its directories as a store: a file under each name. A call of them may be
-- refused by the file system, for which `refusal` of the calls answers, and has else its effect
-- on the store. The ingest and the service are programs of their own; while one runs the
-- other does not. A stop of the service between two calls is a state that the theorems start
-- from. The service and the forwarding loop never end: `cycles` runs so many cycles, and
-- `forward_once` one pass. `candidate_ports` is the part of the generator that so many rounds
-- yield, and the number of the first bytes of sha256 of a name is the parameter `digest`. The
-- threads of the forwarding share the recorded ports under a lock, so `record_port` is one step.
--
-- The zram program has exceptions of its own: a program of Zram.Machine is done or failed. Reads of
-- the kernel's files leave the state; `int` reads decimal digits, and any other text counts as a
-- ValueError; the numbers of its command line are natural numbers.
--
-- Not modelled: the vault check (pykeepass), the typer commands, the command line
-- and the printed words of the launcher tool, the export of the session
-- environment and the formatting of log lines; the task modules, which are calls of the machine;
-- the reports and services that tasks deploy, other than the two named above (Xray panel,
-- addresses, router forwarding, the collector of reports).
pub mod Shared
pub mod Text
pub mod Catalog
pub mod Models
pub mod Effects
pub mod Programs
pub mod Runner
pub mod Entry
pub mod Fstab
pub mod Forwarding
pub mod Metrics
pub mod ConfigEdit
pub mod Zram
pub mod Proquint
pub mod Launcher
