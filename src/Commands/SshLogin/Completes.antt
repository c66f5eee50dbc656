-- ===== src/Commands/SshLogin/Completes.antt =====
-- cmd/nimbusfs/sshlogin.go and internal/api/sshauth.go: the command and the server together.
use nimbus_fs.Prelude.{
  ℕ, ◌==◌, true, false, ◌||◌, if◌then◌else◌, ◌≡◌, ◌⊎◌, inl, inr, refl, sym, ap, ◌∙◌, false≢true,
  Option, none, some, List, [], ◌∷◌, map, GoString, codes, str_eq, ok, Bool-cases,
}
use nimbus_fs.Config.{is_empty}
use nimbus_fs.Auth.Keys.{PublicKey, Ssh, load_authorized_keys}
use nimbus_fs.Auth.Device.{Challenge, by_code, approve}
use nimbus_fs.Api.{Request, Body, ssh_device, Env, App}
use nimbus_fs.Api.SshAuth.{RespondRequest, key_is_authorized, ssh_device_info, ssh_respond}
use nimbus_fs.Commands.SshLogin.{
  Signer, DeviceInfo, Submission, Client, is_accepted, pick_signer, code_of, cmd_ssh_login,
}

-- What the command reads of an answer of SSHDeviceInfo.
abbrev pub device_of : ℕ → Body → Option DeviceInfo
device_of status (ssh_device username nonce fingerprints) =
    if status == 200
    then some (record { username = username; nonce = nonce; fingerprints = fingerprints })
    else none
device_of status body = none

-- The query of fetchDeviceInfo has the parameter "code" and no other. A code needs no escaping.
abbrev pub asking : Request → GoString → Request
asking r code = record r { query = λ name. if str_eq name (codes "code") then code else [] }

abbrev pub responding : Submission → RespondRequest
responding s = record {
  code = s.code;
  public_key = s.public_key;
  sig_format = s.sig_format;
  signature = s.signature;
}

-- The command against the modelled server.
abbrev pub client_of :
    {S : Type 0} → Env S → Request → GoString → Option (List Signer) → Client (App S)
client_of env r prompt signers = record {
  ssh = env.ssh;
  prompt = prompt;
  signers = signers;
  fetch = λ code app.
      let (resp, app') = ssh_device_info env (asking r code) app in
      (device_of resp.status resp.body, app');
  submit = λ s app.
      let (resp, app') = ssh_respond env (some (responding s)) r app in (resp.status == 200, app');
}

-- Base64, which the client encodes with: decoding undoes it.
abbrev pub Decodes : Ssh → Type 0
Decodes ssh = (s : GoString) → ssh.decode (ssh.encode s) ≡ some s

-- The signer's signature verifies under its key, and the server parses what the key marshals to.
abbrev pub Signs : Ssh → Signer → GoString → Type 0
Signs ssh s nonce =
    (format : GoString) × (blob : GoString) × (s.sign nonce ≡ some (format, blob))
    × (ssh.verify s.public_key nonce format blob ≡ true)
    × (ssh.parse_public_key s.public_key ≡ some s.public_key)

-- SHA-256 tells the key apart from those authorized keys that it differs from.
abbrev pub IsToldApart : Ssh → PublicKey → List PublicKey → Type 0
IsToldApart ssh k [] = Unit
IsToldApart ssh k (j ∷ js) =
    (str_eq (ssh.fingerprint j) (ssh.fingerprint k) ≡ str_eq j k) × IsToldApart ssh k js

abbrev pub AllSign : Ssh → List Signer → List PublicKey → GoString → Type 0
AllSign ssh [] keys nonce = Unit
AllSign ssh (s ∷ ss) keys nonce =
    (Signs ssh s nonce × IsToldApart ssh s.public_key keys) × AllSign ssh ss keys nonce

abbrev pub HasAuthorized : List Signer → List PublicKey → Type 0
HasAuthorized [] keys = ⊥
HasAuthorized (s ∷ ss) keys = (key_is_authorized s.public_key keys ≡ true) ⊎ HasAuthorized ss keys

module _ (ssh : Ssh) where
  -- A fingerprint is accepted exactly where the key is authorized.
  accepted-authorized :
      (k : PublicKey) (keys : List PublicKey)
      → IsToldApart ssh k keys
      → is_accepted (ssh.fingerprint k) (map ssh.fingerprint keys) ≡ key_is_authorized k keys
  unfolding key_is_authorized
  accepted-authorized k [] apart = refl
  accepted-authorized k (j ∷ keys) (here, apart) =
      ap (λ b. b || is_accepted (ssh.fingerprint k) (map ssh.fingerprint keys)) here
      ∙ ap (λ b. str_eq j k || b) (accepted-authorized k keys apart)

  still_authorized :
      (s : Signer) (ss : List Signer) (keys : List PublicKey)
      → HasAuthorized (s ∷ ss) keys
      → key_is_authorized s.public_key keys ≡ false
      → HasAuthorized ss keys
  still_authorized s ss keys (inl yes_it_is) e = absurd (false≢true (sym e ∙ yes_it_is))
  still_authorized s ss keys (inr h) e = h

  picks :
      (ss : List Signer) (keys : List PublicKey) (nonce : GoString)
      → AllSign ssh ss keys nonce
      → HasAuthorized ss keys
      → (s : Signer) × (pick_signer ssh ss (map ssh.fingerprint keys) ≡ some s)
        × (key_is_authorized s.public_key keys ≡ true)
        × Signs ssh s nonce
  unfolding pick_signer
  picks [] keys nonce signs h = absurd h
  picks (s ∷ ss) keys nonce ((sign, apart), signs) h =
      elim (Bool-cases (key_is_authorized s.public_key keys)) [
        | inl e ↦ (s, rw (accepted-authorized s.public_key keys apart ∙ e) refl, e, sign)
        | inr e ↦
            let (t, found, auth, t_signs) =
              picks ss keys nonce signs (still_authorized s ss keys h e) in
            (t, rw (accepted-authorized s.public_key keys apart ∙ e) found, auth, t_signs)
      ]

-- What the theorem asks of a login: the code is that of a challenge, the user has authorized keys, and
-- the command has signers of which one is authorized.
abbrev pub CanLogIn : {S : Type 0} → Env S → App S → GoString → List Signer → Challenge → Type 0
CanLogIn env app code ss c =
    (by_code app.devices code env.now ≡ some c)
    × ((keys : List PublicKey) × (load_authorized_keys env.key_files c.username ≡ ok keys)
        × HasAuthorized ss keys
        × AllSign env.ssh ss keys c.nonce)

module _ {S : Type 0} (env : Env S) (decodes : Decodes env.ssh) (r : Request) (app : App S)
    (code : GoString) (c : Challenge) (keys : List PublicKey)
    (known : by_code app.devices code env.now ≡ some c)
    (loads : load_authorized_keys env.key_files c.username ≡ ok keys) where
  device : DeviceInfo
  device = record {
    username = c.username;
    nonce = env.ssh.encode c.nonce;
    fingerprints = map env.ssh.fingerprint keys;
  }

  fetches :
      (prompt : GoString) (ss : Option (List Signer))
      → (client_of env r prompt ss).fetch code app ≡ (some device, app)
  unfolding ssh_device_info device str_eq
  fetches prompt ss = simp (known, loads)

  submits :
      (prompt : GoString) (ss : Option (List Signer)) (s : Signer) (format blob : GoString)
      → key_is_authorized s.public_key keys ≡ true
      → env.ssh.verify s.public_key c.nonce format blob ≡ true
      → env.ssh.parse_public_key s.public_key ≡ some s.public_key
      → (client_of env r prompt ss).submit
          (record {
            code = code;
            public_key = env.ssh.encode s.public_key;
            sig_format = format;
            signature = env.ssh.encode blob;
          })
          app
        ≡ (true, record app { devices = (approve app.devices code).1 })
  unfolding ssh_respond
  submits prompt ss s format blob auth verifies parses =
      simp (known, decodes s.public_key, decodes blob, parses, loads, auth, verifies)

-- `nimbusfs ssh-login` and the server: with a server to ask and a code, of which the command has
-- removed blanks and small letters, that leads to a challenge, and with signers of which one is among
-- the user's authorized keys, the command reports the user of that challenge as signed in, and the
-- server has approved exactly this challenge and changed nothing else; where base64 is undone by
-- decoding, the server parses the signers' keys, their signatures verify, and their fingerprints tell
-- them apart from the other authorized keys.
pub cmd_ssh_login-approve :
    {S : Type 0} (env : Env S) (decodes : Decodes env.ssh) (r : Request) (app : App S)
    (server flag prompt : GoString) (ss : List Signer) (c : Challenge)
    → is_empty server ≡ false
    → is_empty (code_of flag prompt) ≡ false
    → CanLogIn env app (code_of flag prompt) ss c
    → cmd_ssh_login (client_of env r prompt (some ss)) server flag app
      ≡ (ok c.username, record app { devices = (approve app.devices (code_of flag prompt)).1 })
unfolding cmd_ssh_login device
cmd_ssh_login-approve env decodes r app server flag prompt [] c given coded
      (known, (keys, loads, has, signs)) =
    absurd has
cmd_ssh_login-approve env decodes r app server flag prompt (s1 ∷ ss) c given coded
      (known, (keys, loads, has, signs)) =
    let code = code_of flag prompt in
    let (s, pick, auth, (format, blob, sign, verifies, parses)) =
      picks env.ssh (s1 ∷ ss) keys c.nonce signs has in
    let fetched = fetches env decodes r app code c keys known loads prompt (some (s1 ∷ ss)) in
    let submitted =
      submits env decodes r app code c keys known loads prompt (some (s1 ∷ ss)) s format blob auth
        verifies parses in
    simp (given, coded, fetched, pick, decodes c.nonce, sign, submitted)
