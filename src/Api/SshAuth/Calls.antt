-- ===== src/Api/SshAuth/Calls.antt =====
-- internal/api/sshauth.go: what the four handlers do to the challenges that are approved.
use nimbus_fs.Prelude.{
  Bool, true, false, if◌then◌else◌, ◌≡◌, ◌⊎◌, refl, sym, ◌∙◌, inl, inr, Option, none, some,
  Bool-cases, List, [], ◌∷◌, GoString, codes, str_eq, str_eq_iff, Result, ok, err, arith,
}
use nimbus_fs.Config.{is_empty}
use nimbus_fs.Fsops.Access.{Identity}
use nimbus_fs.Fsops.Impersonate.{LookupError}
use nimbus_fs.Store.{Store}
use nimbus_fs.Auth.SessionManager.{Cookie}
use nimbus_fs.Auth.Device.{Status, approved, pending, Challenge, DeviceStore, new, by_code}
use nimbus_fs.Auth.Device.Approval.{
  HoldsOfApproved, new-HoldsOfApproved, register_attempt-HoldsOfApproved, approve-HoldsOfApproved,
  consume-HoldsOfApproved,
}
use nimbus_fs.Auth.Keys.{PublicKey, KeysError, load_authorized_keys}
use nimbus_fs.Api.{Request, Response, Env, App, audited}
use nimbus_fs.Api.SshAuth.{
  RespondRequest, key_is_authorized, is_signed, started, start_keyed, start_known, start_with,
  start_decoded, ssh_start, session_started, poll_status, poll_found, ssh_poll, ssh_device_info,
  respond_loaded, respond_parsed, respond_decoded, respond_found, ssh_respond,
}

-- A request that the server has answered, with what it read of its surroundings. Any other request
-- may change all but the logins that are under way.
pub data Call (S : Type 0) : Type 0 where
  starts : Env S → Option GoString → Request → Call S
  polls : Env S → Request → Call S
  asks : Env S → Request → Call S
  responds : Env S → Option RespondRequest → Request → Call S
  elsewhere : (App S → App S) → Call S

unfoldable pub answer : {S : Type 0} → Call S → App S → App S
answer (starts env body r) app = (ssh_start env body r app).1
answer (polls env r) app = (ssh_poll env r app).1
answer (asks env r) app = (ssh_device_info env r app).1
answer (responds env body r) app = (ssh_respond env body r app).1
answer (elsewhere f) app = record (f app) { devices = app.devices }

-- The state after some requests, the newest first.
unfoldable pub after : {S : Type 0} → List (Call S) → App S → App S
after [] app = app
after (c ∷ cs) app = answer c (after cs app)

abbrev pub IsAmong : PublicKey → List PublicKey → Type 0
IsAmong k [] = ⊥
IsAmong k (j ∷ js) = (j ≡ k) ⊎ IsAmong k js

-- The request answers a challenge with a signature over the nonce that verifies under a key which
-- stands among the user's authorized keys at that time.
abbrev pub Proves : {S : Type 0} → GoString → GoString → Call S → Type 0
Proves nonce username (responds env (some req) r) =
    (keys : List PublicKey) × (key : PublicKey) × (blob : GoString) × (load_authorized_keys
        env.key_files username
      ≡ ok keys)
    × IsAmong key keys
    × (env.ssh.decode req.signature ≡ some blob)
    × (env.ssh.verify key nonce req.sig_format blob ≡ true)
Proves nonce username _ = ⊥

abbrev pub WasProved : {S : Type 0} → List (Call S) → GoString → GoString → Type 0
WasProved [] nonce username = ⊥
WasProved (c ∷ cs) nonce username = Proves nonce username c ⊎ WasProved cs nonce username

key_is_authorized-IsAmong :
    (k : PublicKey) (ks : List PublicKey) → key_is_authorized k ks ≡ true → IsAmong k ks
unfolding key_is_authorized
key_is_authorized-IsAmong k [] h = cc
key_is_authorized-IsAmong k (j ∷ js) h = elim (Bool-cases (str_eq j k)) [
  | inl e ↦ inl ((str_eq_iff j k).0 e)
  | inr e ↦ inr (key_is_authorized-IsAmong k js (ground (arith, h, e)))
]

is_signed-eq-true :
    {S : Type 0} (env : Env S) (req : RespondRequest) (c : Challenge) (k : PublicKey)
    (ks : List PublicKey) (blob : GoString)
    → is_signed env req c k ks blob ≡ true
    → IsAmong k ks × (env.ssh.verify k c.nonce req.sig_format blob ≡ true)
is_signed-eq-true env req c k ks blob h = elim (Bool-cases (key_is_authorized k ks)) [
  | inl e ↦ (key_is_authorized-IsAmong k ks e, sym (rw e refl) ∙ h)
  | inr e ↦ cc (let z : false ≡ true = sym (rw e refl) ∙ h in z)
]

-- The handlers, for any statement on approved challenges that holds before.
module _ {S : Type 0} (P : GoString → GoString → Type 0) (env : Env S) (r : Request) (app : App S)
    (h : HoldsOfApproved P app.devices) where
  abbrev pub Holds : Response × App S → Type 0
  Holds result = HoldsOfApproved P result.1.devices

  either : (b : Bool) (x y : Response × App S) → Holds x → Holds y → Holds (if b then x else y)
  either true x y hx hy = hx
  either false x y hx hy = hy

  started-Holds :
      (username : GoString) (o : Option (Challenge × DeviceStore))
      → new app.devices env.device_random username env.now ≡ o
      → Holds (started env app o)
  started-Holds username none e = h
  started-Holds username (some (c, st)) e =
      new-HoldsOfApproved P app.devices env.device_random username env.now c st h e

  start_keyed-Holds :
      (username : GoString) (keys : Result KeysError (List PublicKey))
      → Holds (start_keyed env username app keys)
  start_keyed-Holds username (err e) = h
  start_keyed-Holds username (ok ks) = started-Holds username _ refl

  start_known-Holds :
      (username : GoString) (id : Result LookupError Identity)
      → Holds (start_known env username app id)
  start_known-Holds username (err e) = h
  start_known-Holds username (ok id) = start_keyed-Holds username _

  start_decoded-Holds : (body : Option GoString) → Holds (start_decoded env body r app)
  unfolding start_with
  start_decoded-Holds none = h
  start_decoded-Holds (some username) =
      either (is_empty username) _ _ h (either _ _ _ h (start_known-Holds username _))

  pub ssh_start-Holds : (body : Option GoString) → Holds (ssh_start env body r app)
  unfolding ssh_start
  ssh_start-Holds body = either env.config.auth.ssh_keys _ _ (start_decoded-Holds body) h

  session_started-Holds :
      (token : GoString) (c : Challenge) (o : Option (Cookie × Store))
      → Holds (session_started env token c r app o)
  unfolding audited
  session_started-Holds token c none = h
  session_started-Holds token c (some (cookie, st)) = consume-HoldsOfApproved P app.devices token h

  poll_status-Holds :
      (token : GoString) (c : Challenge) (s : Status) → Holds (poll_status env token c s r app)
  poll_status-Holds token c pending = h
  poll_status-Holds token c approved = session_started-Holds token c _

  poll_found-Holds :
      (token : GoString) (o : Option Challenge) → Holds (poll_found env token o r app)
  poll_found-Holds token none = h
  poll_found-Holds token (some c) = poll_status-Holds token c c.status

  pub ssh_poll-Holds : Holds (ssh_poll env r app)
  unfolding ssh_poll
  ssh_poll-Holds = either (is_empty (r.query (codes "pollToken"))) _ _ h (poll_found-Holds _ _)

  module _ (req : RespondRequest) where
    respond_loaded-Holds :
        (c : Challenge) (key : PublicKey) (blob : GoString)
        (keys : Result KeysError (List PublicKey))
        → by_code app.devices req.code env.now ≡ some c
        → load_authorized_keys env.key_files c.username ≡ keys
        → env.ssh.decode req.signature ≡ some blob
        → (Proves c.nonce c.username (responds env (some req) r) → P c.nonce c.username)
        → Holds (respond_loaded env req c key blob app keys)
    respond_loaded-Holds c key blob (err e) found l d k = h
    respond_loaded-Holds c key blob (ok keys) found l d k =
        elim (Bool-cases (is_signed env req c key keys blob)) [
          | inr e ↦ rw e (register_attempt-HoldsOfApproved P app.devices req.code h)
          | inl e ↦
              let (among, good) = is_signed-eq-true env req c key keys blob e in
              rw e (
                approve-HoldsOfApproved P app.devices req.code env.now c h found
                  (k (keys, key, blob, l, among, d, good)))
        ]

    respond_decoded-Holds :
        (c : Challenge) (key sig : Option GoString)
        → by_code app.devices req.code env.now ≡ some c
        → env.ssh.decode req.signature ≡ sig
        → (Proves c.nonce c.username (responds env (some req) r) → P c.nonce c.username)
        → Holds (respond_decoded env req c app key sig)
    respond_decoded-Holds c none sig found d k = h
    respond_decoded-Holds c (some key) none found d k = h
    respond_decoded-Holds c (some key) (some blob) found d k = parsed (env.ssh.parse_public_key key)
      where
        parsed : (o : Option PublicKey) → Holds (respond_parsed env req c blob app o)
        parsed none = h
        parsed (some j) = respond_loaded-Holds c j blob _ found refl d k

    respond_found-Holds :
        (o : Option Challenge)
        → by_code app.devices req.code env.now ≡ o
        → ((nonce username : GoString)
            → Proves nonce username (responds env (some req) r)
            → P nonce username)
        → Holds (respond_found env req app o)
    respond_found-Holds none found k = h
    respond_found-Holds (some c) found k =
        respond_decoded-Holds c _ _ found refl (k c.nonce c.username)

  pub ssh_respond-Holds :
      (body : Option RespondRequest)
      → ((nonce username : GoString)
          → Proves nonce username (responds env body r)
          → P nonce username)
      → Holds (ssh_respond env body r app)
  unfolding ssh_respond
  ssh_respond-Holds none k = h
  ssh_respond-Holds (some req) k = respond_found-Holds req _ refl k
