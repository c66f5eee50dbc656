-- ===== src/Tests/Fixture.antt =====
-- A server with one user and a disk with four paths, on which every call succeeds.
use nimbus_fs.Prelude.{
  ℕ, suc, ap, length, drop, ◌++◌, Bool, true, false, ◌||◌, if◌then◌else◌, ◌≡◌, ◌≢◌, refl, subst,
  none, some, List, [], ◌∷◌, All, GoString, codes, str_eq, str_eq_iff, str_eq_refl, ℤ, pos, negsuc,
  Result, ok, err, ok_inj, second, epoch, Time, Bool-cases, ◌+◌, ◌*◌, ◌⊎◌, inl, inr,
}
use nimbus_fs.GoLib.Path.Elems.{IsElem}
use nimbus_fs.Fsops.Access.{Identity}
use nimbus_fs.Fsops.Impersonate.{Account, Kernel, Creds}
use nimbus_fs.Fsops.Impersonate.Restores.{IsId, SetsCreds, MayRestore, root_creds}
use nimbus_fs.Fsops.Sandbox.{FsError, not_exist, Disk, Sandbox}
use nimbus_fs.Fsops.Sandbox.Contained.{IsRoot}
use nimbus_fs.Fsops.Sandbox.Lexical.{IsPlain}
use nimbus_fs.Fsops.Sys.{
  Info, DirEntry, Action, mkdir, mkdir_all, create_new, truncate, write, remove_all, rename, Os,
  World,
}
use nimbus_fs.Fsops.Ops.Confined.{ListsNames}
use nimbus_fs.Fsops.Ops.SelfCopy.{HoldsFiles}
use nimbus_fs.Store.{Store}
use nimbus_fs.Config.{default}
use nimbus_fs.Auth.Device.{empty}
use nimbus_fs.Search.{Doc, View}
use nimbus_fs.Api.{Request, Env, App}

abbrev pub srv : List GoString
srv = codes "srv" ∷ []

abbrev pub sandbox : Sandbox
sandbox = record { root = codes "/srv" }

-- "/", "/srv", "/srv/d" and "/srv/d/a"
abbrev pub on_disk : GoString → Bool
on_disk p =
    str_eq p (codes "/")
    || str_eq p (codes "/srv")
    || str_eq p (codes "/srv/d")
    || str_eq p (codes "/srv/d/a")

abbrev pub disk : Disk
disk = record { exists = on_disk; eval_symlinks = λ p. if on_disk p then ok p else err not_exist }

pub d_a-IsElem : All IsElem (codes "d" ∷ codes "a" ∷ [])
d_a-IsElem =
    ((λ e. cc, λ e. cc, λ e. cc, (λ e. cc, tt)), ((λ e. cc, λ e. cc, λ e. cc, (λ e. cc, tt)), tt))

pub srv-IsRoot : IsRoot sandbox srv
srv-IsRoot = record {
  proper = λ e. cc;
  elems = ((λ e. cc, λ e. cc, λ e. cc, (λ e. cc, (λ e. cc, (λ e. cc, tt)))), tt);
  text = refl;
}

pub disk-IsPlain : IsPlain disk srv
unfolding str_eq
disk-IsPlain = record { top = refl; root = refl; no_links = λ p e. rw e refl }

-- What each path holds.
abbrev pub Files : Type 0
Files = GoString → GoString

abbrev pub holding : Files → GoString → GoString → Files
holding st p text q = if str_eq p q then text else st q

abbrev pub act : Action → Files → Result FsError (Unit {0}) × Files
act (truncate p m) st = (ok tt, holding st p [])
act (write p text) st = (ok tt, holding st p (text ++ drop (length text) (st p)))
act (mkdir p m) st = (ok tt, st)
act (mkdir_all p m) st = (ok tt, st)
act (create_new p m) st = (ok tt, holding st p [])
act (remove_all p) st = (ok tt, holding st p [])
act (rename p q) st = (ok tt, holding st q (st p))

abbrev pub a_file : Info
a_file = record {
  name = codes "a";
  is_dir = false;
  size = 2;
  modified = epoch * second;
  mode = 0o644;
  uid = 1000;
  gid = 1000;
}

abbrev pub os : Os Files
os = record {
  disk = λ st. disk;
  stat = λ p st. ok a_file;
  read_dir = λ p st. ok [];
  open_file = λ p st. ok a_file;
  content = λ p st. ok (st p);
  act = act;
}

pub os-ListsNames : ListsNames os
os-ListsNames p st es e = subst (All (λ (x : DirEntry). IsElem x.name)) (ok_inj e) tt

-- Each path is a file of its own: the one whose number is what the path spells.
abbrev pub number_of : GoString → ℕ
number_of [] = 0
number_of (c ∷ s) = suc (c + 256 * number_of s)

unfoldable pub os_files : HoldsFiles os
os_files = record {
  file = λ p st. some (number_of p);
  truncates = λ p m st e. rw (str_eq_refl p) refl;
  writes = λ p t old st e same. rw (str_eq_refl p) (rw (ok_inj same) refl);
  keeps = λ p q m st n. other p q st n (Bool-cases (str_eq p q));
}
  where
    other :
        (p q : GoString) (st : Files)
        → some (number_of p) ≢ some (number_of q)
        → ((str_eq p q ≡ true) ⊎ (str_eq p q ≡ false))
        → ◌≡◌ {A = Result FsError GoString} (ok (holding st p [] q)) (ok (st q))
    other p q st n (inl e) = absurd (n (ap (λ x. some (number_of x)) ((str_eq_iff p q).0 e)))
    other p q st n (inr e) = rw e refl

abbrev pub world : World Files
world = record { state = λ p. codes "hi"; trace = [] }

abbrev pub root_groups : List ℤ
root_groups = pos 0 ∷ []

-- setfsuid and setfsgid set what is no negative number, and report nothing.
abbrev pub set_uid : ℤ → Creds → Bool × Creds
set_uid (pos n) c = (false, record c { fsuid = pos n })
set_uid (negsuc n) c = (false, c)

abbrev pub set_gid : ℤ → Creds → Bool × Creds
set_gid (pos n) c = (false, record c { fsgid = pos n })
set_gid (negsuc n) c = (false, c)

abbrev pub kernel : Kernel
kernel = record {
  setgroups = λ gs c. (false, record c { groups = gs });
  setfsgid = set_gid;
  setfsuid = set_uid;
  getgroups = some root_groups;
}

pub kernel-SetsCreds : SetsCreds kernel
kernel-SetsCreds = record {
  groups_set = λ gs c e. refl;
  groups_kept = λ gs c e. cc;
  gid_set = gid_set;
  gid_only = gid_only;
  gid_kept = gid_kept;
  uid_set = uid_set;
  uid_kept = uid_kept;
}
  where
    gid_set : (g : ℤ) (c : Creds) → IsId g → (set_gid g c).1 ≡ record c { fsgid = g }
    gid_set (pos n) c h = refl
    gid_set (negsuc n) c h = absurd h

    gid_only : (g : ℤ) (c : Creds) → (set_gid g c).1 ≡ record c { fsgid = (set_gid g c).1.fsgid }
    gid_only (pos n) c = refl
    gid_only (negsuc n) c = refl

    gid_kept : (g : ℤ) (c : Creds) → (set_gid g c).0 ≡ true → (set_gid g c).1 ≡ c
    gid_kept (pos n) c e = cc
    gid_kept (negsuc n) c e = cc

    uid_set : (u : ℤ) (c : Creds) → IsId u → (set_uid u c).1 ≡ record c { fsuid = u }
    uid_set (pos n) c h = refl
    uid_set (negsuc n) c h = absurd h

    uid_kept : (u : ℤ) (c : Creds) → (set_uid u c).0 ≡ true → (set_uid u c).1 ≡ c
    uid_kept (pos n) c e = cc
    uid_kept (negsuc n) c e = cc

pub kernel-MayRestore : MayRestore kernel root_groups
kernel-MayRestore = record { groups_back = λ c. refl }

abbrev pub ann : Identity
ann = record {
  username = codes "ann";
  uid = pos 1000;
  gid = pos 1000;
  groups = pos 1000 ∷ pos 27 ∷ [];
}

abbrev pub store : Store
store = record { writable = true; sessions = []; audit_log = []; login_attempts = []; shares = [] }

-- An hour and half a second into 1970.
abbrev pub noon : Time
noon = (epoch + 3600) * second + 500000000

abbrev pub account : Account
account = record {
  uid = codes "1000";
  gid = codes "1000";
  group_ids = some (codes "1000" ∷ codes "27" ∷ []);
}

-- A file of the user and one of another user that nobody else may read.
abbrev pub doc_named : GoString → ℕ → ℕ → Doc
doc_named name uid mode = record {
  path = codes "/" ++ name;
  name = name;
  name_lower = name;
  ext = [];
  is_dir = false;
  uid = uid;
  gid = uid;
  mode = mode;
  size = 2;
  modified = pos 0;
}

abbrev pub docs : List Doc
docs = doc_named (codes "a") 1000 0o600 ∷ doc_named (codes "b") 1001 0o600 ∷ []

abbrev pub view : View
view = record { ready = true; current = some (λ pattern. some docs) }

abbrev pub env : Env Files
env = record {
  config = default;
  now = noon;
  session_token = some (codes "t1");
  csrf_token = codes "c1";
  share_token = some (codes "tok");
  accounts = λ name. if str_eq name (codes "ann") then some account else none;
  authenticate = λ name password. str_eq password (codes "secret");
  check_password = λ hash password. str_eq hash password;
  hash_password = some;
  unlock_mac = λ token. codes "mac-" ++ token;
  device_random =
      some (record { nonce = codes "n1"; code_raw = codes "abcdefghij"; token = codes "poll" });
  ssh = record {
    decode = some;
    encode = λ s. s;
    parse_public_key = some;
    verify = λ key nonce format blob. str_eq blob (key ++ nonce);
    fingerprint = λ key. key;
  };
  key_files = record {
    home_dir = λ name. some (codes "/home/ann");
    name_of = λ id. some (codes "ann");
    lstat = λ path. some (record { owner = some 1000; mode = 0o700 });
    read_file = λ path. some (codes "# keys\nkey-a\n");
    parse_line = some;
  };
  kernel = kernel;
  os = λ creds. os;
  names = record { user = λ n. codes "ann"; group = λ n. codes "ann" };
  search = view;
  file_type_names = [];
  sandbox = sandbox;
}

abbrev pub app : App Files
app = record {
  store = store;
  devices = empty;
  rebuilds = 0;
  cache = λ path. none;
  creds = root_creds root_groups;
  process = record { captured = some root_groups };
  world = world;
}

abbrev pub request : Request
request = record {
  method = codes "POST";
  header = λ name. [];
  cookie = λ name. none;
  query = λ name. codes "d/a";
  path_value = λ name. codes "tok";
  remote_addr = codes "10.0.0.1:5000";
  tls = true;
}
