-- ===== src/Commands/SshLogin.antt =====
-- cmd/nimbusfs/sshlogin.go: `nimbusfs ssh-login`. The server's answers, the prompt, the keys and the
-- SSH library are parameters; a command that fails prints and exits.
pub mod Completes
use nimbus_fs.Prelude.{
  ℕ, ◌==◌, Bool, true, false, ◌||◌, if◌then◌else◌, Option, none, some, List, [], ◌∷◌, GoString,
  codes, str_eq, Result, ok, err,
}
use nimbus_fs.Config.{is_empty}
use nimbus_fs.GoLib.Strings.{trim_space, upper}
use nimbus_fs.Auth.Keys.{PublicKey, Ssh}

-- ssh.Signer: Sign gives the format and the blob of a signature, or fails.
pub record Signer : Type 0 where
  pub public_key : PublicKey
  pub sign : GoString → Option (GoString × GoString)

-- deviceInfo
pub record DeviceInfo : Type 0 where
  pub username : GoString
  pub nonce : GoString
  pub fingerprints : List GoString

-- The body of the request to SSHRespond, as the server decodes it.
pub record Submission : Type 0 where
  pub code : GoString
  pub public_key : GoString
  pub sig_format : GoString
  pub signature : GoString

pub data LoginError : Type 0 where
  no_server no_code no_device no_signers no_keys not_authorized bad_challenge not_signed refused :
      LoginError

-- `A` is the state of the server.
pub record Client (A : Type 0) : Type 0 where
  pub ssh : Ssh
  pub prompt : GoString
  pub signers : Option (List Signer)
  pub fetch : GoString → A → Option DeviceInfo × A
  pub submit : Submission → A → Bool × A

-- The map of accepted fingerprints.
abbrev pub is_accepted : GoString → List GoString → Bool
is_accepted fp [] = false
is_accepted fp (x ∷ xs) = str_eq x fp || is_accepted fp xs

-- pickSigner
unfoldable pub pick_signer : Ssh → List Signer → List GoString → Option Signer
pick_signer ssh [] fingerprints = none
pick_signer ssh (s ∷ ss) fingerprints =
    let rest = pick_signer ssh ss fingerprints in
    if is_accepted (ssh.fingerprint s.public_key) fingerprints then some s else rest

abbrev pub normal : GoString → GoString
normal code = upper (trim_space code)

-- The code of the flag, or the one that is typed in.
unfoldable pub code_of : GoString → GoString → GoString
code_of flag prompt = if is_empty (normal flag) then normal prompt else normal flag

module _ {A : Type 0} (client : Client A) where
  abbrev pub reported : GoString → Bool × A → Result LoginError GoString × A
  reported username (true, a) = (ok username, a)
  reported username (false, a) = (err refused, a)

  -- submitSignature
  abbrev pub signed :
      GoString
      → GoString
      → Signer
      → Option (GoString × GoString)
      → A
      → Result LoginError GoString × A
  signed username code s none a = (err not_signed, a)
  signed username code s (some (format, blob)) a = reported username (
      client.submit
        (record {
          code = code;
          public_key = client.ssh.encode s.public_key;
          sig_format = format;
          signature = client.ssh.encode blob;
        })
        a)

  abbrev pub challenged :
      GoString → GoString → Signer → Option GoString → A → Result LoginError GoString × A
  challenged username code s none a = (err bad_challenge, a)
  challenged username code s (some nonce) a = signed username code s (s.sign nonce) a

  abbrev pub picked : DeviceInfo → GoString → Option Signer → A → Result LoginError GoString × A
  picked device code none a = (err not_authorized, a)
  picked device code (some s) a =
      challenged device.username code s (client.ssh.decode device.nonce) a

  abbrev pub with_signers :
      DeviceInfo → GoString → Option (List Signer) → A → Result LoginError GoString × A
  with_signers device code none a = (err no_signers, a)
  with_signers device code (some []) a = (err no_keys, a)
  with_signers device code (some (s ∷ ss)) a =
      picked device code (pick_signer client.ssh (s ∷ ss) device.fingerprints) a

  abbrev pub with_device : GoString → Option DeviceInfo × A → Result LoginError GoString × A
  with_device code (none, a) = (err no_device, a)
  with_device code (some device, a) = with_signers device code client.signers a

  -- cmdSSHLogin: the user whose login was signed.
  unfoldable pub cmd_ssh_login : GoString → GoString → A → Result LoginError GoString × A
  cmd_ssh_login server flag a =
      let code = code_of flag client.prompt in
      if is_empty server
      then (err no_server, a)
      else if is_empty code
      then (err no_code, a)
      else with_device code (client.fetch code a)
