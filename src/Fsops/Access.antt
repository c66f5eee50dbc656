-- ===== src/Fsops/Access.antt =====
-- internal/fsops/access.go: the permission filter of the search, on owner, group and mode bits.
use nimbus_fs.Prelude.{
  ℕ, ◌-◌, ◌%◌, ◌^◌, ◌==◌, Bool, true, false, if◌then◌else◌, ◌≡◌, ◌≢◌, ◌⊎◌, ◌↔◌, ◌||◌, inl, inr,
  List, [], ◌∷◌, arith, GoString, ℤ, pos, negsuc, Bool-cases,
}
use nimbus_fs.GoLib.FileMode.{bit, perm}

pub record Identity : Type 0 where
  pub username : GoString
  pub uid : ℤ
  pub gid : ℤ
  pub groups : List ℤ

-- uint32(n) of an int.
abbrev pub uint32 : ℤ → ℕ
uint32 (pos n) = n % 2 ^ 32
uint32 (negsuc n) = 2 ^ 32 - 1 - n % 2 ^ 32

-- The loop over id.Groups.
unfoldable pub any_group : List ℤ → ℕ → Bool
any_group [] gid = false
any_group (g ∷ gs) gid = if uint32 g == gid then true else any_group gs gid

-- CanRead: 0400, 0040 and 0004 are the bits 8, 5 and 2.
unfoldable pub can_read : Identity → ℕ → ℕ → ℕ → Bool
unfolding any_group
can_read id owner_uid owner_gid mode =
    if uint32 id.uid == owner_uid
    then bit (perm mode) 8
    else if uint32 id.gid == owner_gid
    then bit (perm mode) 5
    else if any_group id.groups owner_gid
    then bit (perm mode) 5
    else bit (perm mode) 2

-- The three classes of a file's permissions, as POSIX words them.
abbrev IsMember : List ℤ → ℕ → Type 0
IsMember [] gid = ⊥
IsMember (g ∷ gs) gid = (uint32 g ≡ gid) ⊎ IsMember gs gid

abbrev pub InGroup : Identity → ℕ → Type 0
InGroup id gid = (uint32 id.gid ≡ gid) ⊎ IsMember id.groups gid

-- A user reads by the owner's bit if the file is theirs, else by the group's bit if they are of its
-- group, and else by the bit of all others. No class but the first that fits counts.
pub data MayRead (id : Identity) (uid gid mode : ℕ) : Type 0 where
  as_owner : uint32 id.uid ≡ uid → bit mode 8 ≡ true → MayRead id uid gid mode
  as_group : uint32 id.uid ≢ uid → InGroup id gid → bit mode 5 ≡ true → MayRead id uid gid mode
  as_other : uint32 id.uid ≢ uid → ¬ InGroup id gid → bit mode 2 ≡ true → MayRead id uid gid mode

any_group_iff : (gs : List ℤ) (gid : ℕ) → (any_group gs gid ≡ true) ↔ IsMember gs gid
unfolding any_group
any_group_iff [] gid = (λ h. cc, λ h. absurd h)
any_group_iff (g ∷ gs) gid = ground (arith, any_group_iff gs gid)

perm-bit :
    (mode : ℕ)
    → (bit (perm mode) 8 ≡ bit mode 8)
      × (bit (perm mode) 5 ≡ bit mode 5)
      × (bit (perm mode) 2 ≡ bit mode 2)
perm-bit mode = (ground arith, ground arith, ground arith)

-- To split on membership and keep the proof.
IsMember-cases : (gs : List ℤ) (gid : ℕ) → IsMember gs gid ⊎ (¬ IsMember gs gid)
IsMember-cases gs gid = elim (Bool-cases (any_group gs gid)) [
  | inl e ↦ inl ((any_group_iff gs gid).0 e)
  | inr e ↦ inr (λ m. cc (e, (any_group_iff gs gid).1 m))
]

-- CanRead grants exactly what the owner, group and other bits grant, the first class that fits
-- deciding.
pub can_read_iff :
    (id : Identity) (uid gid mode : ℕ) → (can_read id uid gid mode ≡ true) ↔ MayRead id uid gid mode
unfolding can_read
can_read_iff id uid gid mode = (forth, back)
  where
    forth : can_read id uid gid mode ≡ true → MayRead id uid gid mode
    forth h = elim (Bool-cases (uint32 id.uid == uid)) [
      | inl e ↦ MayRead.as_owner (ground arith) (ground (arith, perm-bit mode))
      | inr e ↦ elim (Bool-cases (uint32 id.gid == gid)) [
        | inl e' ↦
            MayRead.as_group (ground arith) (inl (ground arith)) (ground (arith, perm-bit mode))
        | inr e' ↦ elim (IsMember-cases id.groups gid) [
          | inl m ↦
              MayRead.as_group (ground arith) (inr m)
                (ground (arith, perm-bit mode, (any_group_iff id.groups gid).1 m))
          | inr n ↦ elim (Bool-cases (any_group id.groups gid)) [
            | inl e'' ↦ absurd (n ((any_group_iff id.groups gid).0 e''))
            | inr e'' ↦
                MayRead.as_other (ground arith)
                  (λ g. elim g [ inl same ↦ ground arith | inr m ↦ n m ])
                  (ground (arith, perm-bit mode))
          ]
        ]
      ]
    ]

    in_group : InGroup id gid → ((uint32 id.gid == gid) || any_group id.groups gid) ≡ true
    in_group (inl e) = ground arith
    in_group (inr m) = ground (arith, (any_group_iff id.groups gid).1 m)

    not_in_group :
        ¬ InGroup id gid → ((uint32 id.gid == gid) ≡ false) × (any_group id.groups gid ≡ false)
    not_in_group n = elim (Bool-cases (any_group id.groups gid)) [
      | inl e ↦ absurd (n (inr ((any_group_iff id.groups gid).0 e)))
      | inr e ↦ elim (Bool-cases (uint32 id.gid == gid)) [
        | inl e' ↦ absurd (n (inl (ground arith)))
        | inr e' ↦ (e', e)
      ]
    ]

    back : MayRead id uid gid mode → can_read id uid gid mode ≡ true
    back (MayRead.as_owner e b) = ground (arith, perm-bit mode)
    back (MayRead.as_group n g b) = ground (arith, perm-bit mode, in_group g)
    back (MayRead.as_other n g b) = ground (arith, perm-bit mode, not_in_group g)
