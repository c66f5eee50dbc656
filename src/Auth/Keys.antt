-- ===== src/Auth/Keys.antt =====
-- internal/auth/sshkeys.go: the authorized keys of a user, behind the checks of sshd's StrictModes.
-- The files, the user database and the parser of a line are parameters; they stay the same during
-- one call.
pub mod Trusted
use nimbus_fs.Prelude.{
  ℕ, ◌==◌, ltb, Bool, true, false, ◌||◌, not, if◌then◌else◌, Option, none, some, List, [], ◌∷◌,
  GoString, codes, str_eq, length, Result, ok, err, ◌>>=◌, ◌>>◌,
}
use nimbus_fs.GoLib.Path.{join}
use nimbus_fs.GoLib.FileMode.{bit}
use nimbus_fs.GoLib.Decimal.{format}
use nimbus_fs.GoLib.Strings.{trim_space, raw_lines}

-- An ssh.PublicKey, as its Marshal writes it.
abbrev pub PublicKey : Type 0
PublicKey = GoString

-- What Lstat tells of a path. `owner` is `none` where the system has no Stat_t.
pub record KeyFileInfo : Type 0 where
  pub owner : Option ℕ
  pub mode : ℕ

pub record KeyFiles : Type 0 where
  pub home_dir : GoString → Option GoString
  pub name_of : GoString → Option GoString
  pub lstat : GoString → Option KeyFileInfo
  pub read_file : GoString → Option GoString
  pub parse_line : GoString → Option PublicKey

-- What is used of the SSH library, and of base64.
pub record Ssh : Type 0 where
  pub decode : GoString → Option GoString
  pub encode : GoString → GoString
  pub parse_public_key : GoString → Option PublicKey
  pub verify : PublicKey → GoString → GoString → GoString → Bool
  pub fingerprint : PublicKey → GoString

pub data KeysError : Type 0 where
  no_account no_file wrong_owner is_writable unreadable no_keys : KeysError

abbrev pub or_error : {A : Type 0} → Option A → KeysError → Result KeysError A
or_error none e = err e
or_error (some a) e = ok a

abbrev pub check : Bool → KeysError → Result KeysError (Unit {0})
check true e = ok tt
check false e = err e

-- bufio.MaxScanTokenSize: a line is read into a buffer of this size, its newline included.
abbrev pub max_scan_token_size : ℕ
max_scan_token_size = 65536

-- The lines that the Scanner gives: it ends at the first line that does not fit.
unfoldable pub scanned : List GoString → List GoString
scanned [] = []
scanned (l ∷ ls) =
    let rest = scanned ls in if ltb (length l) max_scan_token_size then l ∷ rest else []

abbrev pub is_comment : GoString → Bool
is_comment [] = true
is_comment (c ∷ s) = c == b'#'

abbrev pub keep_key : Option PublicKey → List PublicKey → List PublicKey
keep_key none ks = ks
keep_key (some k) ks = k ∷ ks

module _ (files : KeyFiles) where
  -- Owned by root or by the user.
  abbrev pub is_owner : ℕ → GoString → Option GoString → Bool
  is_owner uid username none = uid == 0
  is_owner uid username (some name) = uid == 0 || str_eq name username

  abbrev pub check_owned : Option ℕ → ℕ → GoString → Result KeysError (Unit {0})
  check_owned none mode username = ok tt
  check_owned (some uid) mode username = do
    check (is_owner uid username (files.name_of (format uid))) wrong_owner
    check (not (bit mode 4 || bit mode 1)) is_writable

  -- checkStrictPerms. 0022 are the bits 4 and 1.
  unfoldable pub check_strict_perms : GoString → GoString → Result KeysError (Unit {0})
  check_strict_perms path username = do
    info ← or_error (files.lstat path) no_file
    check_owned info.owner info.mode username

  -- The loop over the lines.
  unfoldable pub keys_of : List GoString → List PublicKey
  keys_of [] = []
  keys_of (l ∷ ls) =
      let rest = keys_of ls in
      if is_comment (trim_space l) then rest else keep_key (files.parse_line (trim_space l)) rest

  abbrev pub some_keys : List PublicKey → Result KeysError (List PublicKey)
  some_keys [] = err no_keys
  some_keys (k ∷ ks) = ok (k ∷ ks)

  -- LoadAuthorizedKeys
  unfoldable pub load_authorized_keys : GoString → Result KeysError (List PublicKey)
  load_authorized_keys username = do
    home ← or_error (files.home_dir username) no_account
    let ssh_dir = join (home ∷ codes ".ssh" ∷ [])
    let keys_path = join (ssh_dir ∷ codes "authorized_keys" ∷ [])
    check_strict_perms home username
    check_strict_perms ssh_dir username
    check_strict_perms keys_path username
    text ← or_error (files.read_file keys_path) unreadable
    some_keys (keys_of (scanned (raw_lines text)))
