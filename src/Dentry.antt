-- ===== src/Dentry.antt =====
-- Overlay dentries and inodes: the real paths behind them and the tests of their flags (util.c;
-- overlayfs.h, ovl_open_flags_need_copy_up).
pub mod Real
pub mod Nlink
pub mod Numbers
use fzz_overlay.Base.{
  ℕ, ◌+◌, ◌/◌, ◌%◌, Bool, true, false, not, ◌&&◌, ◌||◌, List, [], ◌∷◌, Option, none, some, ltb,
  ◌==◌, if◌then◌else◌, length,
}
use fzz_overlay.Vfs.{Res, ok, err, Vfs}
use fzz_overlay.Block.{Inode}
use fzz_overlay.Handle.Store.{Xattr, Upper, check_setxattr}

-- The file types of i_mode that are told apart.
pub data Mode : Type 0 where
  reg dir lnk special : Mode

abbrev pub is_reg : Mode → Bool
is_reg reg = true
is_reg _ = false

abbrev pub is_dir : Mode → Bool
is_dir dir = true
is_dir _ = false

abbrev pub is_lnk : Mode → Bool
is_lnk lnk = true
is_lnk _ = false

abbrev pub is_special : Mode → Bool
is_special special = true
is_special _ = false

-- `struct path`, its mount and its dentry by number.
pub record RealPath : Type 0 where
  pub mnt : ℕ
  pub dentry : ℕ

-- A dentry with its ovl_entry and its inode with its ovl_inode. The inodes of real dentries have
-- the numbers of these dentries.
pub record Node (v : Vfs) : Type 0 where
  pub lowerstack : List RealPath
  pub upper : Option ℕ  -- __upperdentry
  pub lower_inode : Option ℕ  -- OVL_I(inode)->lower
  pub lowerdata_inode : Option ℕ  -- OVL_I(inode)->lowerdata
  pub mode : Mode
  pub lower_nlink : ℕ
  pub opaque : Bool  -- OVL_E_OPAQUE
  pub upper_alias : Bool  -- OVL_E_UPPER_ALIAS
  pub disconnected : Bool  -- DCACHE_DISCONNECTED
  pub positive : Bool  -- d_inode
  pub impure : Bool  -- OVL_IMPURE
  pub whiteouts : Bool  -- OVL_WHITEOUTS
  pub index : Bool  -- OVL_INDEX
  pub upperdata : Bool  -- OVL_UPPERDATA
  pub const_ino : Bool  -- OVL_CONST_INO
  pub impure_xattr : Xattr
  pub blocks : Inode v

abbrev pub is_some {ℓ} : {A : Type ℓ} → Option A → Bool
is_some none = false
is_some (some _) = true

-- `a ?: b` on pointers.
abbrev pub or_else {ℓ} : {A : Type ℓ} → Option A → Option A → Option A
or_else (some a) b = some a
or_else none b = b

abbrev pub first : List RealPath → Option RealPath
first [] = none
first (x ∷ xs) = some x

abbrev pub last : List RealPath → Option RealPath
last [] = none
last (x ∷ []) = some x
last (x ∷ y ∷ ys) = last (y ∷ ys)

abbrev pub dentry_of : Option RealPath → Option ℕ
dentry_of none = none
dentry_of (some p) = some p.dentry

-- OPEN_FMODE(flags) & FMODE_WRITE, where OPEN_FMODE is `(flags + 1) & O_ACCMODE` in these bits.
abbrev pub opens_write : ℕ → Bool
opens_write flags = (flags + 1) % 4 / 2 == 1

-- flags & O_TRUNC
abbrev pub truncates : ℕ → Bool
truncates flags = flags / 512 % 2 == 1

unfoldable pub open_flags_need_copy_up : ℕ → Bool
open_flags_need_copy_up flags = if flags == 0 then false else opens_write flags || truncates flags

-- enum ovl_path_type, a set of three flags.
pub record PathType : Type 0 where
  pub upper : Bool
  pub merge : Bool
  pub origin : Bool

module _ {v : Vfs} where
  abbrev pub numlower : Node v → ℕ
  numlower n = length n.lowerstack

  unfoldable pub dentry_upper : Node v → Option ℕ
  dentry_upper n = n.upper

  unfoldable pub should_check_upperdata : Node v → Bool
  should_check_upperdata n =
      if not (is_reg n.mode) then false else if not (is_some n.lower_inode) then false else true

  unfoldable pub has_upperdata : Node v → Bool
  has_upperdata n =
      if not (should_check_upperdata n) then true else if not n.upperdata then false else true

  unfoldable pub path_type : Node v → PathType
  path_type n =
      if is_some (dentry_upper n)
      then record {
        upper = true;
        merge = not (numlower n == 0) && (is_dir n.mode || not (has_upperdata n));
        origin = not (numlower n == 0) && n.const_ino;
      }
      else record { upper = false; merge = ltb 1 (numlower n); origin = false }

  -- The paths, with `none` for an empty one. `upper_mnt` is that of the file system.
  unfoldable pub path_upper : ℕ → Node v → Option RealPath
  path_upper upper_mnt n = elim (dentry_upper n) [
    | none ↦ none
    | some d ↦ some (record { mnt = upper_mnt; dentry = d })
  ]

  unfoldable pub path_lower : Node v → Option RealPath
  path_lower n = first n.lowerstack

  unfoldable pub path_lowerdata : Node v → Option RealPath
  path_lowerdata n = last n.lowerstack

  unfoldable pub path_real : ℕ → Node v → PathType × Option RealPath
  path_real upper_mnt n =
      let type = path_type n in
      (type, if not type.upper then path_lower n else path_upper upper_mnt n)

  unfoldable pub dentry_lower : Node v → Option ℕ
  dentry_lower n = dentry_of (first n.lowerstack)

  unfoldable pub dentry_lowerdata : Node v → Option ℕ
  dentry_lowerdata n = dentry_of (last n.lowerstack)

  unfoldable pub dentry_real : Node v → Option ℕ
  dentry_real n = or_else (dentry_upper n) (dentry_lower n)

  unfoldable pub inode_upper : Node v → Option ℕ
  inode_upper n = n.upper

  unfoldable pub inode_lower : Node v → Option ℕ
  inode_lower n = n.lower_inode

  unfoldable pub inode_real : Node v → Option ℕ
  inode_real n = or_else (inode_upper n) (inode_lower n)

  unfoldable pub inode_lowerdata : Node v → Option ℕ
  inode_lowerdata n =
      if not (is_reg n.mode) then none else or_else n.lowerdata_inode (inode_lower n)

  unfoldable pub inode_realdata : Node v → Option ℕ
  inode_realdata n =
      if is_some (inode_upper n) && has_upperdata n then inode_upper n else inode_lowerdata n

  unfoldable pub dentry_is_whiteout : Node v → Bool
  dentry_is_whiteout n = not n.positive && n.opaque

  unfoldable pub needs_data_copy_up_locked : ℕ → Node v → Bool
  needs_data_copy_up_locked flags n =
      if not (open_flags_need_copy_up flags) then false else not n.upperdata

  unfoldable pub needs_data_copy_up : ℕ → Node v → Bool
  needs_data_copy_up flags n =
      if not (open_flags_need_copy_up flags) then false else not (has_upperdata n)

  unfoldable pub already_copied_up_locked : ℕ → Node v → Bool
  already_copied_up_locked flags n =
      is_some (dentry_upper n)
      && (n.upper_alias || n.disconnected)
      && not (needs_data_copy_up_locked flags n)

  unfoldable pub already_copied_up : ℕ → Node v → Bool
  already_copied_up flags n =
      is_some (dentry_upper n)
      && (n.upper_alias || n.disconnected)
      && not (needs_data_copy_up flags n)

  abbrev impure_if_set : Res (Unit {0}) × Upper → Node v → Res (Unit {0}) × Node v × Bool
  impure_if_set (ok _, u) n = (ok tt, record n { impure = true; impure_xattr = u.xattr }, u.noxattr)
  impure_if_set (err e, u) n = (err e, record n { impure_xattr = u.xattr }, u.noxattr)

  -- ovl_set_impure, with the file system's `noxattr` and what vfs_setxattr returns; "y" is 121.
  unfoldable pub set_impure : Res (Unit {0}) → Node v → Bool → Res (Unit {0}) × Node v × Bool
  set_impure wrote n noxattr =
      if n.impure
      then (ok tt, n, noxattr)
      else impure_if_set
          (check_setxattr 0 wrote (121 ∷ []) (record { noxattr = noxattr; xattr = n.impure_xattr }))
          n
