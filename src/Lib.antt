-- ===== src/Lib.antt =====
-- mdtree: a small server that lists, reads, edits and searches markdown files below one root.
--
-- The program's core stands in four packages. internal/files resolves the paths that users send
-- (path.go), works on files and directories (file.go) and lists a directory (tree.go).
-- internal/auth holds the sessions (session.go), limits failed logins (ratelimit.go), makes tokens
-- and checks passwords (password.go) and guards the handlers (middleware.go). internal/search
-- keeps an index of the markdown paths (index.go) and answers queries from it (search.go). The
-- handlers of internal/api join them, behind the router of internal/server.
--
-- The parts of the model:
--   Prelude     shared names, tests, lists, integers, sorting, and association lists for Go maps
--   Text        strings, unicode and unicode/utf8, over byte strings
--   FilePath    path/filepath: Clean, Join, Rel, Base, Dir, Ext, on Unix
--   Fs          the tree of files, directories and links, the walk of a path through links, and the
--               calls of package os on it, with a step at which the device may fail
--   Files       internal/files. Error: the errors; Markdown: IsMarkdown; Resolver: NewResolver,
--               Resolve, within, evalSymlinks; Manager: Read, Save, Create, Delete, Rename, Mkdir,
--               DeleteDir, RenameDir, infoOf, writeFileAtomic; Lister: List; Op: how operations
--               that change the tree and may fail are composed
--   Auth        internal/auth. Token: randomToken, GeneratePassword, HashPassword, VerifyPassword;
--               Session: Create, Validate, Delete, Count, StartGC, evictExpired; RateLimiter:
--               Allowed, Fail, Reset, RetryAfter, current; Cookie: SetCookie, ClearCookie, Token,
--               Authenticated; Middleware: Middleware
--   Search      internal/search. Index: newDoc, NewIndex, Add, Remove, Rename, Stats; Build: Build;
--               Score: scoreDoc, lengthPenalty, subsequence; Query: Search
--   Config      internal/config: Default, Load, applyEnv, Normalize, Validate, and the flags that
--               cmd/mdtree/main.go lays over it
--   Metrics     internal/metrics: the counters, Snapshot, and Middleware. Recorder: statusRecorder
--   Logger      internal/logger: parseLevel, New, SetLevel, Module, fanoutHandler, moduleFilter
--   Api         internal/api. Login: Login, Logout, Status of auth.go, and resolvePassword of
--               cmd/mdtree/main.go; Handler: Handler and the helpers of api.go; Files: the
--               handlers of files.go; Search: those of search.go; Endpoint: all that are guarded
--   Server      internal/server: New of server.go with its routes, requestLogger of middleware.go;
--               Static: spaHandler of static.go
--   Main        cmd/mdtree/main.go: the commands, run, and the server's steps from then on; Hash:
--               runHash
--   Tests       runs on concrete inputs
--
-- State is passed explicitly. A method under a lock runs whole, and requests run one after another,
-- but for logins: Api/Login/Steps lets the two steps of a login run between those of others. The
-- clock, the random bytes, the name of the next temporary file and the failing device are inputs.
-- Instants and durations are natural numbers of nanoseconds.
--
-- Parameters: the lower-case map beyond ASCII (CaseTable), bcrypt (Bcrypt), the YAML decoder, for
-- Build the tree that filepath.WalkDir walks, the JSON encoder and decoder, the router of package
-- chi with its RealIP, the embedded files of the front end with http.FileServer, and the sinks of
-- the log.
--
-- A handler is a function from the state to a response and the next state; what it writes is then
-- sent through the status recorder as a list of calls. 64-bit counters are bit patterns and wrap.
--
-- Bounds: filepath.EvalSymlinks follows 255 links and the kernel 40, as the code that is called
-- does; the walks are by recursion on these numbers and on the list of names. The loop of
-- evalSymlinks runs on a number of rounds that is one more than the length of the path, which is
-- enough, since each round drops a name; Files/Resolver/Rounds has the same loop without a bound. All
-- other recursion is on the data.
--
-- sort.Slice is insertion sort. Times of directories do not change when their entries do; access
-- rights are not modelled. strings.TrimSpace is modelled on the runes of the string.
--
-- Not modelled: the text of log lines and of JSON, parsing of flags, listening, signals and shutting
-- down; the front end under web. The walk of an index build is one step, though the code lets
-- requests run meanwhile, and so is a whole request to rebuild the index.
pub mod Prelude
pub mod Text
pub mod FilePath
pub mod Result
pub mod Fs
pub mod Files
pub mod Auth
pub mod Search
pub mod Config
pub mod Metrics
pub mod Logger
pub mod Server
pub mod Api
pub mod Main
pub mod Tests
