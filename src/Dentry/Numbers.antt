-- ===== src/Dentry/Numbers.antt =====
-- The numbers that stat and readdir give (inode.c: ovl_map_dev_ino; readdir.c:
-- ovl_remap_lower_ino).
use fzz_overlay.Base.{
  ℕ, ◌+◌, ◌-◌, ◌*◌, ◌/◌, ◌%◌, ◌^◌, ◌<◌, ◌≡◌, ◌≢◌, Bool, Bool-cases, false, not, ◌&&◌, Option, none,
  some, ◌==◌, if◌then◌else◌, inl, inr,
}

-- The part of struct kstat that is mapped.
pub record Stat : Type 0 where
  pub dev : ℕ
  pub ino : ℕ

-- The overlay: whether all layers are on one file system, the bits for the number of a layer's
-- file system, its device, and the anonymous devices of the lower file systems.
pub record Devices : Type 0 where
  pub samefs : Bool
  pub xinobits : ℕ
  pub s_dev : ℕ
  pub pseudo_dev : ℕ → ℕ

-- ino | (u64)fsid << shift, where no bit of `ino` is at `shift` or above.
abbrev with_fsid : ℕ → ℕ → ℕ → ℕ
with_fsid shift fsid ino = ino + (fsid * 2 ^ shift) % 2 ^ 64

abbrev with_layer : ℕ → Option ℕ → ℕ → ℕ
with_layer shift none ino = ino
with_layer shift (some fsid) ino = with_fsid shift fsid ino

abbrev layer_dev : Devices → Option ℕ → ℕ → ℕ
layer_dev o none dev = dev
layer_dev o (some fsid) dev = if fsid == 0 then dev else o.pseudo_dev fsid

-- ovl_map_dev_ino of a directory or not, with the number of the overlay's inode; the lower layer,
-- if there is one, is given by the number of its file system.
unfoldable pub map_dev_ino : Devices → Bool → ℕ → Option ℕ → Stat → Stat
map_dev_ino o is_dir i_ino layer stat =
    let shift = 64 - o.xinobits in
    if o.samefs
    then record { dev = o.s_dev; ino = stat.ino }
    else if not (o.xinobits == 0) && stat.ino / 2 ^ shift == 0
    then record { dev = o.s_dev; ino = with_layer shift layer stat.ino }
    else if is_dir
    then record { dev = o.s_dev; ino = i_ino }
    else record { dev = layer_dev o layer stat.dev; ino = stat.ino }

-- ovl_remap_lower_ino
unfoldable pub remap_lower_ino : ℕ → ℕ → ℕ → ℕ
remap_lower_ino ino xinobits fsid =
    let shift = 64 - xinobits in
    if not (ino / 2 ^ shift == 0) then ino else with_fsid shift fsid ino

-- The upper layer has the number 0.
abbrev pub fsid_of : Option ℕ → ℕ
fsid_of none = 0
fsid_of (some fsid) = fsid

-- The devices of the file systems, of which `dev` is that of the upper layer, differ from each
-- other and from the overlay's.
pub record Separate (o : Devices) (dev : ℕ) : Type 0 where
  pub own : (f : ℕ) → layer_dev o (some f) dev ≢ o.s_dev
  pub others : (f g : ℕ) → layer_dev o (some f) dev ≡ layer_dev o (some g) dev → f ≡ g

-- The number of a file system fits into the bits above.
abbrev pub IsSmall : Devices → Option ℕ → Type 0
IsSmall o layer = fsid_of layer * 2 ^ (64 - o.xinobits) < 2 ^ 64

-- What is given for a file that is no directory, by whether its number fits.
abbrev given : Devices → Option ℕ → Stat → Bool → Stat
given o a s fits =
    if fits
    then record { dev = o.s_dev; ino = with_layer (64 - o.xinobits) a s.ino }
    else record { dev = layer_dev o a s.dev; ino = s.ino }

abbrev fits : Devices → Stat → Bool
fits o s = not (o.xinobits == 0) && s.ino / 2 ^ (64 - o.xinobits) == 0

-- For a file that is no directory in a lower layer, readdir gives the inode number that stat
-- gives, where there are bits for the file system and the layers are on several ones.
pub map_dev_ino-remap_lower_ino :
    (o : Devices) (f : ℕ) (s : Stat) (i : ℕ)
    → o.samefs ≡ false
    → (o.xinobits == 0) ≡ false
    → (map_dev_ino o false i (some f) s).ino ≡ remap_lower_ino s.ino o.xinobits f
unfolding map_dev_ino remap_lower_ino
map_dev_ino-remap_lower_ino o f s i other bits =
    elim (Bool-cases (s.ino / 2 ^ (64 - o.xinobits) == 0)) [
      | inl e ↦ simp (other, bits, e)
      | inr e ↦ simp (other, bits, e)
    ]
