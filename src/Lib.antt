-- ===== src/Lib.antt =====
-- Verification of uboot-tftp, a TFTP server that sends U-Boot script images which its clients run and
-- which ask for the next script. All paths are below uboot_tftp/ of the repository's src/ directory.
--
-- The parts, and how they meet:
-- - Protocol (protocol.py): client ids and requested names. parse_request_path splits a name into the
--   client id, the segments and the values `key=value`; Protocol/Unquote is urllib's unquote.
-- - Sessions (sessions.py): InMemorySessionStore as an association list by client id. A session object
--   is shared by reference in the source: here a session is a value, and `save` is what an assignment
--   to one of its fields does to the store.
-- - Uploads (uploads.py): InMemoryUploadStore and the file object that captures an upload; it writes the
--   received bytes into the session that waits for them.
-- - Jobs (download_jobs.py): DownloadJobStore. Each call and each report of a download thread holds the
--   lock, so a run is a sequence of the steps of Jobs/Thread, in any order.
-- - Image (mkimage.py): LegacyScriptImageCompiler.
-- - Term (ubootterm.py): the echo commands.
-- - Files: pathlib paths over a file system with symbolic links, _resolve_static_path of scripted.py and
--   _resolve_disk_upload_path of server.py, with the ValueError of pathlib at a NUL.
-- - Scripted (scripted.py, with the records of providers.py and config.py that it reads): the provider.
--   Scripted/Texts prints scripts, Scripted/Handle and Scripted/Running are SessionHandle and the run of
--   a handler between two suspensions, Scripted/Answers turns what a handler yields into an answer, and
--   Scripted/Dispatch answers a read request. It uses all the parts above.
-- - Env (ubootenv.py): environment partitions and exports; Env/Layout reads the mtdparts variables,
--   Env/Search looks for the default environment in the code of a boot loader, and Env/Flash finds,
--   extracts and replaces the environment of a whole flash image. The regular expression for embedded
--   environments is a loop over the repetitions of its group, which can only be matched in one way.
-- - EnvCli (ubootenv_cli.py): the command line over Env/Flash, from the parsed arguments to the files and
--   the text on standard output that it leaves.
-- - Config (config.py): load_daemon_config over the sections that a TOML parser reads, and in Config/Toml
--   the parser that the module has itself.
-- - Server (server.py): what is opened for a read and for a write request, and the log of a transfer; it
--   calls the provider and the upload store. The file system refuses a file only where a directory
--   stands, or a file above it.
-- - Ranges (scripts/openipc.py): split_range and coalesce_ranges, for ranges of flash whose addresses, sizes
--   and number of parts are not negative. `sorted` is written as an insertion sort.
-- - Snippets (ubootscript.py): the texts of script snippets. Snippets/Block has what is assumed of the shell
--   of U-Boot that runs them, and Snippets/Shell a shell that fulfils it.
-- - Tasks (scripted.py): coroutines that run on a SessionHandle, as trees of what they await: fetch_env,
--   and what Ops, Active and Deploy are written with. `run_of` turns one into a handler of Scripted.
-- - Ops (ubootops.py): the operations of user scripts, which are coroutines: probing and reading the
--   flash, downloads, and countdowns.
-- - Active (scripts/openipc.py): crc32 and find_active, which looks for ranges of memory that change.
-- - Deploy (scripts/openipc.py): the environment and the texts of an installation; Deploy/Install is the
--   installation from the export of the environment to the reset, Deploy/Manifest the manifest of a
--   release, and Deploy/Commands the handler of all commands.
-- - Common: results and calls with state, Python's str, dict and set, UTF-8, digits and 32-bit words.
--
-- Parameters, since their code is not in the repository: the user's script (a handler between two
-- suspensions is a tree of calls of SessionHandle, so it ends; what it does when it is resumed is a
-- function), U-Boot's shell, the random texts of `secrets`, the local address, the digest of file names,
-- the time, random bytes, the numbers of temporary names, urllib's quote and what urlparse refuses, json,
-- os.path.relpath, ast.literal_eval, and the decompressors of zlib, lzma and bz2 (of which nothing is
-- assumed).
-- Texts are lists of code points, bytes lists of numbers. str.lower is exact where its result is ASCII.
-- Sizes, offsets and times are not negative. Messages of errors are dropped.
--
-- All recursion is structural, except for the printing of numbers, whose fuel is the number itself (a
-- number has no more digits than that), and for these loops:
-- - over the queue of candidates in Env/Search: one round for the boot region and one for each compressed
--   member of it; and over the repetitions in a text: one round for each of its bytes, since each
--   repetition has three bytes or more;
-- - over the lines of a probe in Snippets: the size doubles in each call, so one call more than the
--   largest size is enough;
-- - over the items of `batched` in Active: one round for each item; and of find_active: more rounds than
--   the largest range has bytes are enough, since the ranges become smaller in each;
-- - over the polls of a download in Ops: how often it is polled at most is an argument, since the source
--   polls until the download ends.
--
-- Not modelled: the sockets and the timeout option of server.py, argparse in ubootenv_cli.py, the test
-- client, the command line of the server, the HTTP downloader, and of scripted.py the loading of the
-- script and parse_env_export, which only calls parse_export of Env.
pub mod Common
pub mod Protocol
pub mod Ranges
pub mod Sessions
pub mod Uploads
pub mod Jobs
pub mod Image
pub mod Term
pub mod Files
pub mod Scripted
pub mod Config
pub mod Env
pub mod EnvCli
pub mod Snippets
pub mod Tasks
pub mod Ops
pub mod Active
pub mod Deploy
pub mod Server
pub mod Tests
