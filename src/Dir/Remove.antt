-- ===== src/Dir/Remove.antt =====
-- Removal (dir.c: ovl_clear_empty, ovl_matches_upper, ovl_remove_and_whiteout, ovl_remove_upper,
-- ovl_pure_upper, ovl_do_remove).
pub mod Cleared
pub mod Gone
use fzz_overlay.Base.{
  ℕ, ◌+◌, ◌-◌, Bool, true, false, not, ◌&&◌, ◌||◌, List, [], ◌∷◌, Option, none, some, ◌==◌,
  if◌then◌else◌,
}
use fzz_overlay.Vfs.{Res, ok, err, Vfs}
use fzz_overlay.CopyUp.{erofs}
use fzz_overlay.Handle.Store.{estale}
use fzz_overlay.Dentry.{Node, Mode, is_some, path_type, dentry_lower, dentry_upper}
use fzz_overlay.Lookup.{is_nil}
use fzz_overlay.Dir.{
  Dirs, World, Place, Ent, Flag, exchange, d_is_dir, same_inode, change, call, next, or_clean, when,
  ◌>>=◌, ◌>>◌,
}
use fzz_overlay.Dir.Whiteout.{Cached, cleaned, cleanup_and_whiteout, cleanup_whiteouts}
use fzz_overlay.Dir.Made.{
  Cattr, Format, ifdir, ifreg, Side, St, with_side, on_world, create_temp, set_opaque, dir_modified,
  lock_rename_workdir,
}

-- What the kernel, and the code of other files, returns during one removal.
pub record Calls : Type 0 where
  pub workdir : Option ℕ
  pub trapped : Bool  -- lock_rename finds an ancestor
  pub getattr : Res Format  -- vfs_getattr of the upper directory
  pub copy_xattr : Res (Unit {0})
  pub set_attr : Res (Unit {0})
  pub check_empty_dir : Res (List Cached)
  pub want_write : Res (Unit {0})
  pub copy_up_parent : Res (Unit {0})
  pub nlink_start : Res (Unit {0})

abbrev is_ifdir : Format → Bool
is_ifdir ifdir = true
is_ifdir _ = false

abbrev dir_attr : Cattr
dir_attr = record { rdev = 0; format = ifdir; perm = 0; hardlink = none }

abbrev pub matches : Option ℕ → Option Ent → Bool
matches none o = false
matches (some u) none = false
matches (some u) (some e) = e.ino == u

abbrev pub same_as : Option Ent → ℕ → Bool
same_as none i = false
same_as (some e) i = e.ino == i

abbrev pub ino_of : Option Ent → ℕ
ino_of none = 0
ino_of (some e) = e.ino

module _ {r : Dirs} where
  -- The number of the inode of a new directory.
  abbrev pub ino_at : Place → World r → ℕ
  ino_at p w = ino_of (r.at w.fs p)

module _ {v : Vfs} where
  abbrev pub here : Side v → Place
  here d = record { dir = d.dir; name = d.name }

  -- ovl_matches_upper, of a dentry whose inode is given.
  unfoldable pub matches_upper : Side v → Option Ent → Bool
  matches_upper d o = matches (dentry_upper d.node) o

  -- What stands under the name is neither the new directory nor the one that is removed.
  abbrev pub moved_on : Bool → Option ℕ → Side v → Option Ent → Bool
  moved_on only_if_upper (some i) d o = not (same_as o i)
  moved_on only_if_upper none d o =
      (not only_if_upper || is_some (dentry_upper d.node)) && not (matches_upper d o)

  unfoldable pub pure_upper : Node v → Bool
  pure_upper n = not (is_some (dentry_lower n)) && not n.whiteouts

  abbrev pub listed : Calls → Bool → Bool → Node v → Res (List Cached)
  listed k lower_positive is_dir n =
      if is_dir && (lower_positive || not (pure_upper n)) then k.check_empty_dir else ok []

module _ {v : Vfs} {r : Dirs} where
  -- d_drop
  abbrev pub drop_dentry : St v r → St v r
  drop_dentry s = let d = s.side in with_side s (record d { hashed = false })

  -- `goto out_dput_upper` with -ESTALE
  abbrev pub stale_if : Bool → St v r → Res (Unit {0}) × St v r
  stale_if c s = (if c then err estale else ok tt, s)

  abbrev pub clean_on : ℕ → Place → St v r → St v r
  clean_on d p s = record s { world = cleaned d p s.world }

  -- What is done to the new directory, which is removed if a step fails.
  abbrev pub fill_opaque : Calls → Place → Place → St v r → Res (Unit {0}) × St v r
  fill_opaque k temp upper = do
    call k.copy_xattr
    λ s. set_opaque (ino_at temp s.world) s
    call k.set_attr
    on_world (change (λ t. r.rename t temp upper exchange))

  -- Behind the exchange, the directory with the whiteouts stands where the new one was made.
  abbrev pub swapped : ℕ → Place → List Cached → St v r → St v r
  swapped workdir temp list s =
      let w = cleanup_whiteouts (ino_at temp s.world) list s.world in
      drop_dentry (record s { world = cleaned workdir temp w })

  abbrev pub cleared : Calls → ℕ → List Cached → Place → St v r → Res ℕ × St v r
  cleared k workdir list temp s =
      next (or_clean (fill_opaque k temp s.side.upper_at s) (clean_on workdir temp))
        (λ _ t. (ok (ino_at s.side.upper_at t.world), swapped workdir temp list t))

  abbrev pub clear_steps : ℕ → Calls → List Cached → Side v → St v r → Res ℕ × St v r
  clear_steps workdir k list d = do
    call (lock_rename_workdir workdir d.dir k.trapped)
    format ← call k.getattr
    stale_if (not (is_ifdir format) || not (d.upper_at.dir == d.dir))
    temp ← on_world (create_temp workdir dir_attr)
    cleared k workdir list temp

  abbrev pub clear_in : Option ℕ → Calls → List Cached → St v r → Res ℕ × St v r
  clear_in none k list s = (err erofs, s)
  clear_in (some workdir) k list s = clear_steps workdir k list s.side s

  -- ovl_clear_empty, which gives the inode of the opaque directory that is in place then.
  unfoldable pub clear_empty : Calls → List Cached → St v r → Res ℕ × St v r
  clear_empty k list s = clear_in k.workdir k list s

  abbrev pub opaque_in : Calls → List Cached → St v r → Res (Option ℕ) × St v r
  opaque_in k list =
      if is_nil list then call (ok none) else clear_empty k list >>= λ i. call (ok (some i))

  abbrev check_moved : Bool → Option ℕ → St v r → Res (Unit {0}) × St v r
  check_moved only_if_upper opaque s =
      stale_if (moved_on only_if_upper opaque s.side (r.at s.world.fs (here s.side))) s

  abbrev whiteout_result : Res (Unit {0}) × St v r → Res (Unit {0}) × St v r
  whiteout_result (ok _, s) = (ok tt, drop_dentry (dir_modified true s))
  whiteout_result (err e, s) = (err e, drop_dentry s)

  abbrev put_whiteout : ℕ → St v r → Res (Unit {0}) × St v r
  put_whiteout workdir s = whiteout_result (on_world (cleanup_and_whiteout workdir (here s.side)) s)

  abbrev looked_up : St v r → Res (Unit {0}) × St v r
  looked_up s = (r.lookup_one_len s.world.fs (here s.side), s)

  abbrev pub replace_upper : Calls → ℕ → Option ℕ → St v r → Res (Unit {0}) × St v r
  replace_upper k workdir opaque = do
    λ s. (lock_rename_workdir workdir s.side.dir k.trapped, s)
    looked_up
    check_moved true opaque
    put_whiteout workdir

  abbrev pub remove_in : Option ℕ → Calls → List Cached → St v r → Res (Unit {0}) × St v r
  remove_in none k list s = (err erofs, s)
  remove_in (some workdir) k list s = (opaque_in k list >>= replace_upper k workdir) s

  unfoldable pub remove_and_whiteout : Calls → List Cached → St v r → Res (Unit {0}) × St v r
  remove_and_whiteout k list s = remove_in k.workdir k list s

  abbrev remove_result : Res (Unit {0}) × St v r → Res (Unit {0}) × St v r
  remove_result (ok _, s) = (ok tt, drop_dentry (dir_modified (path_type s.side.node).origin s))
  remove_result (err e, s) = (err e, dir_modified (path_type s.side.node).origin s)

  abbrev take_away : Bool → St v r → Res (Unit {0}) × St v r
  take_away dir s =
      let p = here s.side in
      remove_result
        (on_world (change (λ t. if dir then r.rmdir t p.dir p else r.unlink t p.dir p)) s)

  abbrev pub remove_found : Bool → Option ℕ → St v r → Res (Unit {0}) × St v r
  remove_found is_dir opaque = do looked_up; check_moved false opaque; take_away is_dir

  unfoldable pub remove_upper : Calls → Bool → List Cached → St v r → Res (Unit {0}) × St v r
  remove_upper k is_dir list = opaque_in k list >>= remove_found is_dir

  -- clear_nlink and drop_nlink
  abbrev unlinked : Bool → Res (Unit {0}) × St v r → Res (Unit {0}) × St v r
  unlinked is_dir (err e, s) = (err e, s)
  unlinked is_dir (ok _, s) =
      let d = s.side in
      (ok tt, with_side s (record d { nlink = if is_dir then 0 else d.nlink - 1 }))

  abbrev pub removed : Calls → Bool → Bool → List Cached → St v r → Res (Unit {0}) × St v r
  removed k lower_positive is_dir list s =
      unlinked is_dir
        (if lower_positive then remove_and_whiteout k list s else remove_upper k is_dir list s)

  -- ovl_do_remove; `lower_positive` is what ovl_lower_positive gives.
  unfoldable pub do_remove : Calls → Bool → Bool → St v r → Res (Unit {0}) × St v r
  do_remove k lower_positive is_dir = do
    list ← λ s. (listed k lower_positive is_dir s.side.node, s)
    call k.want_write
    call k.copy_up_parent
    call k.nlink_start
    removed k lower_positive is_dir list

  unfoldable pub unlink : Calls → Bool → St v r → Res (Unit {0}) × St v r
  unlink k lower_positive = do_remove k lower_positive false

  unfoldable pub rmdir : Calls → Bool → St v r → Res (Unit {0}) × St v r
  rmdir k lower_positive = do_remove k lower_positive true
