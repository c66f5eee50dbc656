-- ===== src/Fsops/Impersonate/Restores.antt =====
-- As on a thread of the server: what runs under which credentials, and what stays behind.
use nimbus_fs.Prelude.{
  ◌<◌, true, false, ◌≡◌, ◌⊎◌, refl, ap, ◌∙◌, inl, inr, List, ℤ, pos, negsuc, Bool-cases, subst,
  arith,
}
use nimbus_fs.Fsops.Access.{Identity}
use nimbus_fs.Fsops.Impersonate.{Creds, Kernel, AsResult, returned, Task, restore, as_user}

-- The numbers that name a user or a group: 32 bits, but for -1, which setfsuid(2) never sets.
abbrev pub IsId : ℤ → Type 0
IsId (pos n) = n < 4294967295
IsId (negsuc n) = ⊥

-- The calls of a process with CAP_SETUID and CAP_SETGID, as the Linux manual words them. setgroups
-- reports whether it has set the groups. setfsgid and setfsuid do what they are told for an id; for
-- any other number nothing is said of the part that they set, whatever they report, but that a call
-- which reports an error has changed nothing and that setfsgid changes no other part.
pub record SetsCreds (k : Kernel) : Type 0 where
  pub groups_set :
      (gs : List ℤ) (c : Creds)
      → (k.setgroups gs c).0 ≡ false
      → (k.setgroups gs c).1 ≡ record c { groups = gs }
  pub groups_kept :
      (gs : List ℤ) (c : Creds) → (k.setgroups gs c).0 ≡ true → (k.setgroups gs c).1 ≡ c
  pub gid_set : (g : ℤ) (c : Creds) → IsId g → (k.setfsgid g c).1 ≡ record c { fsgid = g }
  pub gid_only :
      (g : ℤ) (c : Creds) → (k.setfsgid g c).1 ≡ record c { fsgid = (k.setfsgid g c).1.fsgid }
  pub gid_kept : (g : ℤ) (c : Creds) → (k.setfsgid g c).0 ≡ true → (k.setfsgid g c).1 ≡ c
  pub uid_set : (u : ℤ) (c : Creds) → IsId u → (k.setfsuid u c).1 ≡ record c { fsuid = u }
  pub uid_kept : (u : ℤ) (c : Creds) → (k.setfsuid u c).0 ≡ true → (k.setfsuid u c).1 ≡ c

-- The process may take its own groups back at any time.
pub record MayRestore (k : Kernel) (root : List ℤ) : Type 0 where
  pub groups_back : (c : Creds) → (k.setgroups root c).0 ≡ false

abbrev pub root_creds : List ℤ → Creds
root_creds root = record { fsuid = pos 0; fsgid = pos 0; groups = root }

abbrev pub creds_of : Identity → Creds
creds_of id = record { fsuid = id.uid; fsgid = id.gid; groups = id.groups }

-- What the two calls leave behind the setgroups of As.
abbrev pub creds_reached : Kernel → Identity → Creds
creds_reached k id =
    (k.setfsuid id.uid
      (k.setfsgid id.gid (record (creds_of id) { fsuid = pos 0; fsgid = pos 0 })).1).1

-- The task did not run.
abbrev pub IsFailure : {A : Type 0} → AsResult A → Type 0
IsFailure (returned a) = ⊥
IsFailure _ = Unit

-- The thread has the server's credentials; and the task ran once under `d` and its result is
-- returned, or the task did not run.
abbrev pub IsSound :
    {W A : Type 0} → List ℤ → Creds → Task W A → W → AsResult A × Creds × W → Type 0
IsSound root d fn w r =
    (r.1 ≡ root_creds root)
    × (((r.0 ≡ returned (fn d w).0) × (r.2 ≡ (fn d w).1)) ⊎ (IsFailure r.0 × (r.2 ≡ w)))

module _ (k : Kernel) (root : List ℤ) (sets : SetsCreds k) (may : MayRestore k root) where
  groups_restored : (c : Creds) → (k.setgroups root c).1 ≡ record c { groups = root }
  groups_restored c = sets.groups_set root c (may.groups_back c)

  gid_restored : (c : Creds) → (k.setfsgid (pos 0) c).1 ≡ record c { fsgid = pos 0 }
  gid_restored c = sets.gid_set (pos 0) c (omega arith)

  uid_restored : (c : Creds) → (k.setfsuid (pos 0) c).1 ≡ record c { fsuid = pos 0 }
  uid_restored c = sets.uid_set (pos 0) c (omega arith)

  restore_lem : (c : Creds) → restore k root c ≡ root_creds root
  unfolding restore
  restore_lem c =
      ap (λ x. (k.setgroups root (k.setfsgid (pos 0) x).1).1) (uid_restored c)
      ∙ ap (λ x. (k.setgroups root x).1) (gid_restored _)
      ∙ groups_restored _

  -- The group and the groups are taken back from credentials that have kept the user.
  groups_and_gid_restored :
      (c : Creds)
      → c.fsuid ≡ pos 0
      → (k.setgroups root (k.setfsgid (pos 0) c).1).1 ≡ root_creds root
  groups_and_gid_restored c u =
      ap (λ x. (k.setgroups root x).1) (gid_restored c)
      ∙ groups_restored _
      ∙ ap (λ x. record (root_creds root) { fsuid = x }) u

  module _ {W A : Type 0} (id : Identity) (fn : Task W A) (w : W) where
    -- For any numbers: the task runs under what the calls leave.
    pub as_user-runs :
        IsSound root (creds_reached k id) fn w (as_user k root id fn (root_creds root) w)
    unfolding as_user
    as_user-runs = elim (Bool-cases (k.setgroups id.groups c0).0) [
      | inl e ↦ rw e (rw (sets.groups_kept _ _ e) (refl, inr (tt, refl)))
      | inr e ↦ rw e (
          rw (sets.groups_set _ _ e) (elim (Bool-cases (k.setfsgid id.gid c1).0) [
            | inl e' ↦
                rw e' (rw (sets.gid_kept _ _ e') (rw (groups_restored c1) (refl, inr (tt, refl))))
            | inr e' ↦ rw e' (elim (Bool-cases (k.setfsuid id.uid c2).0) [
              | inl e'' ↦ rw e'' (
                ap (λ x. (k.setgroups root (k.setfsgid (pos 0) x).1).1) (sets.uid_kept _ _ e'')
                    ∙ groups_and_gid_restored c2 (ap (λ (x : Creds). x.fsuid) (sets.gid_only _ c1)),
                inr (tt, refl),
              )
              | inr e'' ↦ rw e'' (restore_lem _, inl (refl, refl))
            ])
          ]))
    ]
      where
        c0 : Creds
        c0 = root_creds root

        c1 : Creds
        c1 = record c0 { groups = id.groups }

        c2 : Creds
        c2 = (k.setfsgid id.gid c1).1

    -- For a process that may set credentials, and a user and a group that have ids: from the
    -- server's own credentials, As leaves these on the thread, on every branch; and either the
    -- task ran once, under the user's id, group and groups, and its result is returned, or As
    -- reports a failed call and the task did not run at all.
    pub as_user-IsSound :
        IsId id.uid
        → IsId id.gid
        → IsSound root (creds_of id) fn w (as_user k root id fn (root_creds root) w)
    as_user-IsSound hu hg =
        subst (λ d. IsSound root d fn w (as_user k root id fn (root_creds root) w))
          (ap (λ x. (k.setfsuid id.uid x).1) (sets.gid_set id.gid _ hg) ∙ sets.uid_set id.uid _ hu)
          as_user-runs
