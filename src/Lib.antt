-- ===== src/Lib.antt =====
-- fs2-turbo: file locks, preallocation, duplication of descriptors and filesystem statistics, as
-- an extension of `std::fs::File`, on Unix and on Windows. This library models the crate's Rust
-- code, module by module, and proves what its operations promise.
--
-- The parts and their files:
--
-- - FileExt: the public trait, its default methods and its implementation for `File` (src/lib.rs).
--   It calls the functions of the platform's module, which are the record `Sys`.
-- - Stats: the snapshot, the platforms' counters and their validation, the public functions and
--   the prepared query (src/stats.rs, src/stats/). `Stats.Unix` holds blocks, `Stats.Windows`
--   bytes. A platform answers through the record `StatsSys`, which
--   `Unix.Stats.Agree.unix_stats_sys` and `Windows.Stats.Space.Query.windows_stats_sys` fill.
-- - Allocation: the allocation of the Unix targets (src/allocation.rs), over the record `Sys`,
--   which the three modules of Unix.Platform fill (src/unix/allocation/platform.rs).
-- - Unix: the allocation state (src/unix/allocation.rs), locks (src/unix/lock.rs) and their form
--   for Solaris (src/unix/solaris.rs), paths on a stack buffer (src/unix/path.rs), statistics
--   (src/unix/stats.rs) and duplication (src/unix/file.rs).
-- - Windows: paths (src/windows/path.rs), the event of an overlapped call
--   (src/windows/overlapped.rs), locks (src/windows/lock.rs), device control and preallocation
--   (the two halves of src/windows/allocation.rs, in Control and Allocation), the two providers of
--   statistics and the routes to them (src/windows/stats/, in Stats), duplication
--   (src/windows/file.rs), and the operations together, as the trait calls them
--   (src/windows/mod.rs, in File).
-- - Coverage: the coverage gate of the developer tool (tools/fs2-dev/src/coverage.rs and
--   tools/fs2-dev/src/coverage/source_locations.rs): the policy of a target, the groups of
--   instantiations, the reading of LCOV, the ownership of residuals and the review of unexecuted
--   locations. Its error `Rejection` holds the arguments of each message in place of the text, its
--   maps are association lists in the order of their keys (Coverage.Keyed), and its `u64` counters
--   are natural numbers, since they count entries of a list.
-- - Process: the supervision of child processes by the developer tool
--   (tools/fs2-dev/src/process.rs). Process holds the outcomes and what an exit status becomes;
--   Timeout the limit from the environment; Execute the execution over a `ProcessBackend`, whose
--   children under Lifecycle are the same life as a step relation, and under Released a log of
--   what is done with each child; Poll the two loops that look and sleep, which are one function
--   of a look; Reap the kill and wait of a child, with the two backends of `NativeProcessBackend`:
--   Unix over process groups and Job over the Job objects of Windows
--   (tools/fs2-dev/src/process/containment.rs); Capture the captured output, and under Root the
--   capture directory of Windows; Security the access control lists, descriptors, paths and held
--   ancestors of capture directories on Windows, with the identities of the user and the private
--   directories under Identity and Create (tools/fs2-dev/src/process/windows_security.rs).
-- - Matrix: the registry of supported targets and the matrices of jobs that are made of it
--   (tools/fs2-dev/src/matrix.rs). Registry checks a registry, Generated makes the matrices, as a
--   map in the order of its keys.
-- - Base: errors, results, the state and error monad `Io`, machine words and bits, and buffers
--   with uninitialised cells.
-- - Examples: small systems on which the theorems are applied.
--
-- How the code is represented:
--
-- - A function that calls the operating system is a function of the system's state, in `Io` or
--   written out. Each native call is a field or an argument: it gives what the call returns, with
--   the value of `errno` or `GetLastError` after it where the code reads that, and the new state.
--   Nothing is said of a call but by the hypotheses of a theorem or the record of laws that it
--   names; each such record holds documented behaviour and has an instance in Examples. The
--   constants of the bindings are parameters too.
-- - Early returns and `?` are the bind of `Result`. A native call whose answer a branch does not
--   use is written before the branch, but the state behind it is taken only by the branches that
--   make the call.
-- - Values dropped at the end of a scope are closed there: `with_overlapped` and `query_opened`.
-- - A `u64` or `u32` is a natural number, an `i32` or `i64` an integer. Checked products answer
--   `none` above 2^64 - 1, other products wrap, and casts between 32-bit types wrap. A theorem
--   that needs a field in the range of its type says so.
-- - A buffer on the stack is a list of cells that are `none` until written, and an access that
--   Rust would refuse or leave undefined is the error `fault`, so that the theorems on paths also
--   say that none occurs. The small path buffer has 3584 bytes and the array for wide paths 261
--   units, as in the code.
-- - Loops are recursion on the list or the count they consume, but for three that wait for the
--   system and take fuel. The two loops of Process.Poll look at most once for each 10 ms of their
--   timeout and two more times: `looks` is that many, `wait_for_process_group_exit_with_ends`
--   shows that it is enough on a clock that runs, and where it is not, because the clock does not
--   run, the model answers `fault`. The recursion of `guard_trusted_directory_ancestry` follows a
--   drive that is an alias of a directory, which the code does not bound either; its fuel is the
--   depth of such aliases.
--
-- Not modelled: the command line, the policy of workflows and the compatibility check of the
-- developer tool (tools/fs2-dev), and its reading of reports; of its processes, the key of the
-- toolchain, and the drop of a handle at the end of an execution or on an error that is not one of
-- its own checks; the intended integration definitions of the coverage gate, its diagnostics and
-- its reading of JSON; tests, benchmarks and workflows; the lookup of the modern provider in
-- kernel32, which is cached once and is a parameter here; `Path` and `OsStr`, of which only the
-- bytes or code units and `is_absolute` are used. Code that is compiled for tests only is left
-- out.
pub mod Base
pub mod Stats
pub mod Allocation
pub mod Unix
pub mod Windows
pub mod FileExt
pub mod Coverage
pub mod Process
pub mod Matrix
pub mod Examples
