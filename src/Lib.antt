-- ===== src/Lib.antt =====
-- NimbusFS: a web file manager that serves a directory of a Linux machine, each request run with the
-- rights of the user who is logged in.
--
-- The program's parts, and the files that model them:
--   internal/fsops: Fsops. A Sandbox resolves the path of a request below its root (Fsops/Sandbox),
--     its operations are sequences of system calls (Fsops/Sys, Fsops/Ops, Fsops/Ops/Copying), As
--     runs one of them on a thread with the user's credentials (Fsops/Impersonate), CanRead is the
--     filter of the search (Fsops/Access), and owner names are cached (Fsops/Owner).
--   internal/store: Store and Store/Shares, the tables as lists of rows, one function for each SQL
--     statement.
--   internal/auth: Auth. Cookie sessions over the store (Auth/SessionManager), and the logins by SSH
--     key that are under way, on a heap, since two maps share the challenges (Auth/Device), and the
--     authorized keys of a user (Auth/Keys).
--   internal/config: Config, the defaults and Validate.
--   internal/api: Api. Requests, responses and shared state (Api), RequireAuth and RequireCSRF
--     (Api/Middleware), Login and Logout (Api/Login), logins by SSH key (Api/SshAuth), the public
--     side of share links (Api/Shares) and their owner's (Api/Sharing), the file handlers (Api/Files),
--     Search (Api/Search), Thumbnail (Api/Preview), and what the server offers (Api/Features). A
--     handler is a function from a request and the server's state to a response and the state after.
--   internal/search: Search, the documents and batches of a rebuild and the query; Search/Rebuilds,
--     calls of Rebuild by any number of goroutines, whose steps on the shared index a schedule orders.
--   internal/thumbnail: Thumbnail, the kinds of files and the size of a thumbnail, and
--     Thumbnail/Generator, the cache and the making of thumbnails.
--   internal/mimetypes: Mimetypes, the names of file types by extension.
--   internal/server: Server, the handler and the guards of each route. Server/Safe runs any sequence
--     of requests; Server/Gated says who may use which route.
--   cmd/nimbusfs: Commands, the path of the configuration, Commands/Share, `nimbusfs share`, and
--     Commands/SshLogin, `nimbusfs ssh-login`; Commands/SshLogin/Completes joins it to the server.
--   GoLib: what is used of Go's path, filepath, strconv and os packages. Prelude: strings as bytes,
--     results, integers over native numbers, times in nanoseconds, dictionaries.
--   Tests: an example server, and the theorems at concrete inputs.
--
-- Names follow the code in snake case: Resolve is resolve, ResolveWithin is resolve_within. Mkdir of
-- ops.go is make_dir, Open is open_entry, Rename is rename_entry; Mkdir, CreateFile, Move and Copy of
-- api.go are mkdir, new_file, move_entry and copy_entry in Api/Files; CreateShare and ListShares of
-- shares.go are new_share and list_own_shares.
--
-- Parameters: the disk and the kernel's system calls, the user database, PAM, bcrypt, HMAC, the clock
-- and crypto/rand, bleve, the SSH and image libraries, ffmpeg and pdftoppm. A
-- handler takes the decoded JSON body or form, `none` where the decoder fails.
-- Hypotheses are named: IsRoot (the root is an absolute clean path), IsPlain (no symbolic links),
-- SetsCreds and MayRestore (a process that may set credentials: setgroups reports failure, setfsgid and
-- setfsuid set what is an id, IsId, and are not relied on for other numbers), ListsNames (directory
-- entries are proper names), HoldsFiles (O_TRUNC empties one file, a write replaces as much as it
-- writes), IsLawful (a batch of bleve writes its documents), IsReliable (the hypotheses on the system of
-- one request), GivesRooted and GivesClean (Getwd and EvalSymlinks), Decodes (base64), CanLogIn (a
-- challenge that can be answered). The disk may change between a lookup and the call that uses its
-- result, and the model lets it. The trace of system calls has the Lstat and EvalSymlinks calls of
-- Resolve; what EvalSymlinks asks the kernel while it follows links is the library's.
--
-- Bounds: uint32 conversions keep their wrap-around. The search of deepestExisting has fuel, one more
-- than the length of the path. The depth of a copied directory is bounded by fuel that the caller
-- gives: the source has no bound, and on a directory that is copied into itself it has no end. Header
-- values are ASCII.
--
-- Not modelled: PAM's C code, the reading of private keys, the start of the server and the web pages;
-- the matching of patterns by http.ServeMux, content types and other headers, bleve's mapping and the ticker of the
-- periodic rebuild; and driver failures of the database other than a read-only file or a repeated key.
pub mod Api
pub mod Auth
pub mod Commands
pub mod Config
pub mod Fsops
pub mod GoLib
pub mod Mimetypes
pub mod Prelude
pub mod Search
pub mod Server
pub mod Store
pub mod Tests
pub mod Thumbnail
