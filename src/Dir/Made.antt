-- ===== src/Dir/Made.antt =====
-- The making of upper files and directories (dir.c: ovl_create_real, ovl_mkdir_real,
-- ovl_create_temp, ovl_set_opaque; util.c: ovl_lock_rename_workdir, ovl_dir_modified).
pub mod Created
use fzz_overlay.Base.{
  ℕ, ◌+◌, ◌%◌, ◌^◌, Bool, true, false, ◌||◌, List, [], ◌∷◌, Option, none, some, ◌==◌, if◌then◌else◌,
}
use fzz_overlay.Vfs.{Res, ok, err, Vfs}
use fzz_overlay.Handle.{eio}
use fzz_overlay.Handle.Store.{estale}
use fzz_overlay.Dentry.{Node, Mode, is_some, path_type}
use fzz_overlay.Dir.{
  Dirs, World, Place, Ent, Kind, typed, whiteout, Attribute, opaque_xattr, Make, create, mkdir,
  symlink, mknod, link, kind_of_node, change, call, check_set, next, ◌>>=◌, ◌>>◌,
}
use fzz_overlay.Dir.Whiteout.{lookup_temp}

-- mode & S_IFMT
pub data Format : Type 0 where
  ifreg ifdir ifchr ifblk ififo ifsock iflnk other_format : Format

-- struct ovl_cattr; the target of a symbolic link is not modelled.
pub record Cattr : Type 0 where
  pub rdev : ℕ
  pub format : Format
  pub perm : ℕ
  pub hardlink : Option Ent  -- the inode of the upper dentry

abbrev pub eperm : ℕ
eperm = 1

abbrev by_format : Format → ℕ → Option Make
by_format ifreg rdev = some create
by_format ifdir rdev = some mkdir
by_format ifchr rdev = some (mknod true rdev)
by_format ifblk rdev = some (mknod false rdev)
by_format ififo rdev = some (mknod false rdev)
by_format ifsock rdev = some (mknod false rdev)
by_format iflnk rdev = some symlink
by_format other_format rdev = none

abbrev by_link : Option Ent → Format → ℕ → Option Make
by_link (some e) format rdev = some (link e)
by_link none format rdev = by_format format rdev

-- The switch of ovl_create_real.
unfoldable pub make_of : Cattr → Option Make
make_of a = by_link a.hardlink a.format a.rdev

-- A dentry of the overlay with the parts of its inode and its parent that are changed here.
pub record Side (v : Vfs) : Type 0 where
  pub node : Node v
  pub parent : Node v
  pub name : List ℕ
  pub dir : ℕ  -- the upper dentry of the parent, behind the copy-up of the parent
  pub upper_at : Place  -- where the upper dentry stands
  pub redirect : Option (List ℕ)
  pub nlink : ℕ
  pub version : ℕ  -- of the parent
  pub hashed : Bool

pub record St (v : Vfs) (r : Dirs) : Type 0 where
  pub world : World r
  pub side : Side v

module _ {r : Dirs} where
  abbrev hashed_again : Bool → Place → World r → Res (Unit {0}) × World r
  hashed_again b p w = if b then (r.lookup_one_len w.fs p, w) else (ok tt, w)

  -- ovl_mkdir_real: the new dentry may be unhashed, and is looked up again then.
  unfoldable pub mkdir_real : Place → World r → Res (Unit {0}) × World r
  mkdir_real p w =
      next (change (λ s. r.make s p mkdir) w) (λ _ t. hashed_again (r.unhashed t.fs p) p t)

  abbrev pub made : Option Make → Place → World r → Res (Unit {0}) × World r
  made none p w = (err eperm, w)
  made (some mkdir) p w = mkdir_real p w
  made (some m) p w = change (λ s. r.make s p m) w

  abbrev instantiated : Place → World r → Res Place × World r
  instantiated p w = if is_some (r.at w.fs p) then (ok p, w) else (err eio, w)

  unfoldable pub create_real : Place → Cattr → World r → Res Place × World r
  create_real p a w =
      if is_some (r.at w.fs p)
      then (err estale, w)
      else next (made (make_of a) p w) (λ _. instantiated p)

  unfoldable pub create_temp : ℕ → Cattr → World r → Res Place × World r
  create_temp workdir a = do p ← lookup_temp workdir; create_real p a

-- `trapped` is that lock_rename finds one of the directories above the other.
unfoldable pub lock_rename_workdir : ℕ → ℕ → Bool → Res (Unit {0})
lock_rename_workdir workdir upperdir trapped =
    if workdir == upperdir || trapped then err eio else ok tt

module _ {v : Vfs} where
  abbrev opaque_if_set : Res (Unit {0}) → Side v → Side v
  opaque_if_set (ok _) d = let n = d.node in record d { node = record n { opaque = true } }
  opaque_if_set (err e) d = d

module _ {v : Vfs} {r : Dirs} where
  abbrev pub with_side : St v r → Side v → St v r
  with_side s d = record s { side = d }

  abbrev pub on_world : {A : Type 0} → (World r → Res A × World r) → St v r → Res A × St v r
  on_world m s = let (x, w) = m s.world in (x, record s { world = w })

  -- ovl_set_opaque_xerr on the inode of an upper dentry; "y" is 121.
  unfoldable pub set_opaque_xerr : ℕ → ℕ → St v r → Res (Unit {0}) × St v r
  set_opaque_xerr upper xerr s =
      let (x, t) = on_world (check_set upper opaque_xattr (b'y' ∷ []) xerr) s in
      (x, with_side t (opaque_if_set x t.side))

  unfoldable pub set_opaque : ℕ → St v r → Res (Unit {0}) × St v r
  set_opaque upper = set_opaque_xerr upper eio

  -- ovl_dir_modified of the parent: its version, for the cache of the directory.
  unfoldable pub dir_modified : Bool → St v r → St v r
  dir_modified impurity s =
      let d = s.side in
      with_side s (
        if (path_type d.parent).merge || impurity
        then record d { version = (d.version + 1) % 2 ^ 64 }
        else d)

-- Two dentries of a link or a rename.
pub record Two (v : Vfs) (r : Dirs) : Type 0 where
  pub world : World r
  pub old : Side v
  pub new : Side v

module _ {v : Vfs} {r : Dirs} where
  abbrev pub old_of : Two v r → St v r
  old_of s = record { world = s.world; side = s.old }

  abbrev pub new_of : Two v r → St v r
  new_of s = record { world = s.world; side = s.new }

  abbrev pub on_old : {A : Type 0} → (St v r → Res A × St v r) → Two v r → Res A × Two v r
  on_old m s = let (x, t) = m (old_of s) in (x, record s { world = t.world; old = t.side })

  abbrev pub on_new : {A : Type 0} → (St v r → Res A × St v r) → Two v r → Res A × Two v r
  on_new m s = let (x, t) = m (new_of s) in (x, record s { world = t.world; new = t.side })
