-- ===== src/Dir.antt =====
-- The real directories under an overlay (dir.c): what the kernel does to their entries is a
-- parameter, and `Laws` states the documented effect that is used.
pub mod Steps
pub mod Whiteout
pub mod Made
pub mod Remove
pub mod Redirect
pub mod Create
pub mod Rename
use fzz_overlay.Base.{ℕ, ◌≡◌, ◌≢◌, Bool, true, false, List, Option, none, some, ◌==◌, if◌then◌else◌}
use fzz_overlay.Vfs.{Res, ok, err}
use fzz_overlay.Dentry.{Mode, dir}
use fzz_overlay.Handle.Store.{eopnotsupp}

-- What stands under a name: a whiteout is a device with the number WHITEOUT_DEV.
pub data Kind : Type 0 where
  whiteout : Kind
  typed : Mode → Kind

pub record Ent : Type 0 where
  pub ino : ℕ
  pub kind : Kind

-- A dentry of a real directory, which has the number of its inode, under a name.
pub record Place : Type 0 where
  pub dir : ℕ
  pub name : List ℕ

-- The overlay's extended attributes that this code sets.
pub data Attribute : Type 0 where
  opaque_xattr redirect_xattr impure_xattr : Attribute

-- vfs_rename without flags, and with RENAME_EXCHANGE or RENAME_WHITEOUT.
pub data Flag : Type 0 where
  plain exchange whiteout_source : Flag

-- vfs_create, vfs_mkdir, vfs_mknod, vfs_symlink and vfs_link. A node is a whiteout if it is a
-- character device with the number 0.
pub data Make : Type 0 where
  create mkdir symlink : Make
  mknod : Bool → ℕ → Make
  link : Ent → Make

pub record Dirs : Type 1 where
  pub Fs : Type 0
  pub at : Fs → Place → Option Ent  -- d_inode of the dentry
  pub xattr : Fs → ℕ → Attribute → Option (List ℕ)
  pub lookup_one_len : Fs → Place → Res (Unit {0})
  -- The directory in front is the inode that is given besides the dentry.
  pub rmdir : Fs → ℕ → Place → Res Fs
  pub unlink : Fs → ℕ → Place → Res Fs
  pub do_whiteout : Fs → ℕ → Place → Res Fs  -- vfs_whiteout
  pub rename : Fs → Place → Place → Flag → Res Fs
  pub make : Fs → Place → Make → Res Fs
  pub setxattr : Fs → ℕ → Attribute → List ℕ → Res Fs
  pub unhashed : Fs → Place → Bool  -- d_unhashed behind a vfs_mkdir

abbrev pub whiteout_kind : Kind → Bool
whiteout_kind whiteout = true
whiteout_kind (typed m) = false

abbrev pub is_whiteout : Option Ent → Bool
is_whiteout none = false
is_whiteout (some e) = whiteout_kind e.kind

abbrev pub d_is_dir : Option Ent → Bool
d_is_dir none = false
d_is_dir (some e) = elim e.kind [ whiteout ↦ false | typed dir ↦ true | typed _ ↦ false ]

abbrev pub same_inode : Option Ent → Option Ent → Bool
same_inode none none = true
same_inode (some e) (some f) = e.ino == f.ino
same_inode _ _ = false

abbrev pub kind_of_node : Bool → ℕ → Kind
kind_of_node chr rdev =
    if chr then (if rdev == 0 then whiteout else typed Mode.special) else typed Mode.special

-- The kind of what is made; a link has the inode of its file.
abbrev pub MadeAs : Make → Ent → Type 0
MadeAs create e = e.kind ≡ typed Mode.reg
MadeAs mkdir e = e.kind ≡ typed Mode.dir
MadeAs symlink e = e.kind ≡ typed Mode.lnk
MadeAs (mknod chr rdev) e = e.kind ≡ kind_of_node chr rdev
MadeAs (link f) e = e ≡ f

module _ (r : Dirs) where
  -- One entry is changed, and no other. An inode keeps its attributes as long as it has entries.
  pub record Changes (s : r.Fs) (p : Place) (o : Option Ent) (t : r.Fs) : Type 0 where
    pub here : r.at t p ≡ o
    pub others : (q : Place) → q ≢ p → r.at t q ≡ r.at s q
    pub kept :
        (q z : Place) (e f : Ent)
        → r.at s q ≡ some e
        → r.at t z ≡ some f
        → f.ino ≡ e.ino
        → (x : Attribute) → r.xattr t f.ino x ≡ r.xattr s e.ino x

  -- Two entries are changed, and no other.
  pub record Moves (s : r.Fs) (p p' : Place) (o o' : Option Ent) (t : r.Fs) : Type 0 where
    pub old : r.at t p ≡ o
    pub new : r.at t p' ≡ o'
    pub others : (q : Place) → q ≢ p → q ≢ p' → r.at t q ≡ r.at s q
    pub kept :
        (q z : Place) (e f : Ent)
        → r.at s q ≡ some e
        → r.at t z ≡ some f
        → f.ino ≡ e.ino
        → (x : Attribute) → r.xattr t f.ino x ≡ r.xattr s e.ino x

  abbrev pub IsFresh : r.Fs → ℕ → Type 0
  IsFresh s i = (q : Place) (e : Ent) → r.at s q ≡ some e → e.ino ≢ i

  pub record Laws : Type 0 where
    pub one_kind :
        (s : r.Fs) (p q : Place) (e f : Ent)
        → r.at s p ≡ some e
        → r.at s q ≡ some f
        → e.ino ≡ f.ino
        → e.kind ≡ f.kind
    pub rmdir_lem :
        (s : r.Fs) (p : Place) (t : r.Fs) → r.rmdir s p.dir p ≡ ok t → Changes s p none t
    pub unlink_lem :
        (s : r.Fs) (p : Place) (t : r.Fs) → r.unlink s p.dir p ≡ ok t → Changes s p none t
    pub do_whiteout_lem :
        (s : r.Fs) (p : Place) (t : r.Fs)
        → r.do_whiteout s p.dir p ≡ ok t
        → (e : Ent) × (e.kind ≡ whiteout) × IsFresh s e.ino × Changes s p (some e) t
    pub make_lem :
        (s : r.Fs) (p : Place) (m : Make) (t : r.Fs)
        → r.at s p ≡ none
        → r.make s p m ≡ ok t
        → (e : Ent) × MadeAs m e × Changes s p (some e) t
    -- Two names of one inode are left as they are.
    pub plain_lem :
        (s : r.Fs) (p p' : Place) (e : Ent) (t : r.Fs)
        → r.at s p ≡ some e
        → same_inode (some e) (r.at s p') ≡ false
        → r.rename s p p' plain ≡ ok t
        → Moves s p p' none (some e) t
    pub whiteout_source_lem :
        (s : r.Fs) (p p' : Place) (e : Ent) (t : r.Fs)
        → r.at s p ≡ some e
        → same_inode (some e) (r.at s p') ≡ false
        → r.rename s p p' whiteout_source ≡ ok t
        → (w : Ent) × (w.kind ≡ whiteout) × Moves s p p' (some w) (some e) t
    -- Both entries exist.
    pub exchange_lem :
        (s : r.Fs) (p p' : Place) (t : r.Fs)
        → r.rename s p p' exchange ≡ ok t
        → (e f : Ent) × (r.at s p ≡ some e)
          × (r.at s p' ≡ some f)
          × Moves s p p' (some f) (some e) t
    pub setxattr_lem :
        (s : r.Fs) (i : ℕ) (x : Attribute) (val : List ℕ) (t : r.Fs)
        → r.setxattr s i x val ≡ ok t
        → ((q : Place) → r.at t q ≡ r.at s q)
          × (r.xattr t i x ≡ some val)
          × ((j : ℕ) (y : Attribute) → y ≢ x → r.xattr t j y ≡ r.xattr s j y)

  -- What the overlay changes: the directories, the counter of temporary names, and whether the
  -- upper layer is known to have no extended attributes.
  pub record World : Type 0 where
    pub fs : r.Fs
    pub temp_id : ℕ
    pub noxattr : Bool

module _ {T : Type 0} where
  abbrev pub next : {A B : Type 0} → Res A × T → (A → T → Res B × T) → Res B × T
  next (ok a, s) f = f a s
  next (err e, s) f = (err e, s)

  infixl 5 ◌>>=◌ ◌>>◌
  abbrev pub ◌>>=◌ : {A B : Type 0} → (T → Res A × T) → (A → T → Res B × T) → T → Res B × T
  ◌>>=◌ m f s = next (m s) f

  abbrev pub ◌>>◌ : {A B : Type 0} → (T → Res A × T) → (T → Res B × T) → T → Res B × T
  ◌>>◌ m k s = next (m s) (λ _. k)

  -- A call that changes nothing that is modelled.
  abbrev pub call : {A : Type 0} → Res A → T → Res A × T
  call x s = (x, s)

  -- `if (c) err = m`
  abbrev pub when : Bool → (T → Res (Unit {0}) × T) → T → Res (Unit {0}) × T
  when c m s = if c then m s else (ok tt, s)

  -- `goto out_cleanup` where a step fails.
  abbrev pub or_clean : {A : Type 0} → Res A × T → (T → T) → Res A × T
  or_clean (ok a, s) f = (ok a, s)
  or_clean (err e, s) f = (err e, f s)

module _ {r : Dirs} where
  abbrev changed : Res r.Fs → World r → Res (Unit {0}) × World r
  changed (ok t) w = (ok tt, record w { fs = t })
  changed (err e) w = (err e, w)

  -- A call of the kernel on the directories.
  abbrev pub change : (r.Fs → Res r.Fs) → World r → Res (Unit {0}) × World r
  change f w = changed (f w.fs) w

  abbrev set_result : ℕ → Res r.Fs → World r → Res (Unit {0}) × World r
  set_result xerr (ok t) w = (ok tt, record w { fs = t })
  set_result xerr (err e) w =
      if e == eopnotsupp
      then (if xerr == 0 then ok tt else err xerr, record w { noxattr = true })
      else (err e, w)

  -- ovl_check_setxattr on an inode.
  unfoldable pub check_set : ℕ → Attribute → List ℕ → ℕ → World r → Res (Unit {0}) × World r
  check_set i x val xerr w =
      if w.noxattr
      then (if xerr == 0 then ok tt else err xerr, w)
      else set_result xerr (r.setxattr w.fs i x val) w
