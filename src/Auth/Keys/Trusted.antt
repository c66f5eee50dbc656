-- ===== src/Auth/Keys/Trusted.antt =====
-- What LoadAuthorizedKeys has seen when it returns keys.
use nimbus_fs.Prelude.{
  ℕ, ◌==◌, ltb, true, false, ◌≡◌, ◌≢◌, ◌⊎◌, refl, inl, inr, ap, Option, none, some, Bool-cases,
  List, [], ◌∷◌, All, GoString, codes, str_eq_iff, length, ok, >>=-eq-ok, ok_inj, arith, subst,
}
use nimbus_fs.GoLib.Path.{join}
use nimbus_fs.GoLib.FileMode.{bit}
use nimbus_fs.GoLib.Decimal.{format}
use nimbus_fs.GoLib.Strings.{trim_space, raw_lines}
use nimbus_fs.Auth.Keys.{
  PublicKey, KeyFileInfo, KeyFiles, KeysError, or_error, no_account, no_file, unreadable, is_owner,
  scanned, max_scan_token_size, is_comment, keep_key, check_owned, check_strict_perms, keys_of,
  some_keys, load_authorized_keys,
}

-- Root or the user owns the path, and neither its group nor others may write to it. Where the system
-- does not tell the owner there is no condition.
abbrev pub IsStrict : KeyFiles → GoString → KeyFileInfo → Type 0
IsStrict files username info =
    (info.owner ≡ none)
    ⊎ ((uid : ℕ) × (info.owner ≡ some uid)
        × ((uid ≡ 0) ⊎ (files.name_of (format uid) ≡ some username))
        × (bit info.mode 4 ≡ false)
        × (bit info.mode 1 ≡ false))

abbrev pub IsTrusted : KeyFiles → GoString → GoString → Type 0
IsTrusted files username path =
    (info : KeyFileInfo) × (files.lstat path ≡ some info) × IsStrict files username info

-- The key stands on a line of the text that is no comment.
abbrev pub IsListed : KeyFiles → List GoString → PublicKey → Type 0
IsListed files [] k = ⊥
IsListed files (l ∷ ls) k =
    ((is_comment (trim_space l) ≡ false) × (files.parse_line (trim_space l) ≡ some k))
    ⊎ IsListed files ls k

module _ (files : KeyFiles) where
  or_error-eq-ok :
      {A : Type 0} (o : Option A) (e : KeysError) (a : A) → or_error o e ≡ ok a → o ≡ some a
  or_error-eq-ok none e a h = cc
  or_error-eq-ok (some b) e a h = ap some (ok_inj h)

  owned :
      (uid : ℕ) (username : GoString) (o : Option GoString)
      → is_owner files uid username o ≡ true
      → (uid ≡ 0) ⊎ (o ≡ some username)
  owned uid username none h = inl (ground arith)
  owned uid username (some name) h = elim (Bool-cases (uid == 0)) [
    | inl e ↦ inl (ground arith)
    | inr e ↦ inr (ap some ((str_eq_iff name username).0 (ground arith)))
  ]

  check_owned-IsStrict :
      (username : GoString) (info : KeyFileInfo) (o : Option ℕ)
      → info.owner ≡ o
      → check_owned files o info.mode username ≡ ok tt
      → IsStrict files username info
  check_owned-IsStrict username info none e h = inl e
  check_owned-IsStrict username info (some uid) e h =
      inr (uid, e, owned uid username _ (ground (arith, h)), ground (arith, h), ground (arith, h))

  check_strict_perms-IsTrusted :
      (path username : GoString)
      → check_strict_perms files path username ≡ ok tt
      → IsTrusted files username path
  unfolding check_strict_perms
  check_strict_perms-IsTrusted path username h =
      let (info, found, checked) = >>=-eq-ok (or_error (files.lstat path) no_file) _ tt h in
      (
        info,
        or_error-eq-ok _ _ info found,
        check_owned-IsStrict username info info.owner refl checked,
      )

  kept-IsListed :
      (o : Option PublicKey) (ks : List PublicKey) (ms : List GoString)
      → ((k : PublicKey) → o ≡ some k → IsListed files ms k)
      → All (IsListed files ms) ks
      → All (IsListed files ms) (keep_key o ks)
  kept-IsListed none ks ms h all = all
  kept-IsListed (some k) ks ms h all = (h k refl, all)

  keys_of-IsListed :
      (ls ms : List GoString)
      → ((k : PublicKey) → IsListed files ls k → IsListed files ms k)
      → All (IsListed files ms) (keys_of files (scanned ls))
  unfolding keys_of scanned
  keys_of-IsListed [] ms h = tt
  keys_of-IsListed (l ∷ ls) ms h = elim (Bool-cases (ltb (length l) max_scan_token_size)) [
    | inr e ↦ rw e tt
    | inl e ↦ rw e (elim (Bool-cases (is_comment (trim_space l))) [
      | inl c ↦ rw c (keys_of-IsListed ls ms (λ k m. h k (inr m)))
      | inr c ↦ rw c (
          kept-IsListed (files.parse_line (trim_space l)) _ ms (λ k p. h k (inl (c, p)))
            (keys_of-IsListed ls ms (λ k m. h k (inr m))))
    ])
  ]

  some_keys-eq-ok :
      (ks found : List PublicKey) → some_keys files ks ≡ ok found → (found ≢ []) × (ks ≡ found)
  some_keys-eq-ok [] found h = cc
  some_keys-eq-ok (k ∷ ks) found h = ((λ e. cc), ok_inj h)

  -- What has been checked of the account's files.
  abbrev pub AreChecked : GoString → List PublicKey → Type 0
  AreChecked username keys =
      (home text : GoString) × (files.home_dir username ≡ some home)
      × IsTrusted files username home
      × IsTrusted files username (join (home ∷ codes ".ssh" ∷ []))
      × IsTrusted files username
          (join (join (home ∷ codes ".ssh" ∷ []) ∷ codes "authorized_keys" ∷ []))
      × (files.read_file (join (join (home ∷ codes ".ssh" ∷ []) ∷ codes "authorized_keys" ∷ []))
          ≡ some text)
      × (keys ≢ [])
      × All (IsListed files (raw_lines text)) keys

  -- LoadAuthorizedKeys returns keys only if the home directory, the .ssh directory and the key file
  -- are each owned by root or the user and writable by no other, where the system tells the owner;
  -- there is at least one key, and each one stands on a line of that file that is no comment.
  pub load_authorized_keys-AreChecked :
      (username : GoString) (keys : List PublicKey)
      → load_authorized_keys files username ≡ ok keys
      → AreChecked username keys
  unfolding load_authorized_keys
  load_authorized_keys-AreChecked username keys h =
      let (home, e, h1) = >>=-eq-ok (or_error (files.home_dir username) no_account) _ keys h in
      let (u, e1, h2) = >>=-eq-ok (check_strict_perms files home username) _ keys h1 in
      let (u2, e2, h3) = >>=-eq-ok (check_strict_perms files _ username) _ keys h2 in
      let (u3, e3, h4) = >>=-eq-ok (check_strict_perms files _ username) _ keys h3 in
      let (text, e4, h5) = >>=-eq-ok (or_error (files.read_file _) unreadable) _ keys h4 in
      let (some_key, same) = some_keys-eq-ok _ keys h5 in
      (
        home,
        text,
        or_error-eq-ok _ _ home e,
        check_strict_perms-IsTrusted _ username e1,
        check_strict_perms-IsTrusted _ username e2,
        check_strict_perms-IsTrusted _ username e3,
        or_error-eq-ok _ _ text e4,
        some_key,
        subst (All (IsListed files (raw_lines text))) same
            (keys_of-IsListed (raw_lines text) (raw_lines text) (λ k m. m)),
      )
