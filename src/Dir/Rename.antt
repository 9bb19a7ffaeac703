-- ===== src/Dir/Rename.antt =====
-- Renaming and exchanging (dir.c: ovl_rename).
pub mod Still
pub mod Checks
pub mod Moved
use fzz_overlay.Base.{
  ℕ, ◌+◌, ◌-◌, Bool, true, false, not, ◌&&◌, ◌||◌, List, [], ◌∷◌, Option, none, some, ◌==◌,
  if◌then◌else◌,
}
use fzz_overlay.Vfs.{Res, ok, err, Vfs}
use fzz_overlay.Handle.{einval}
use fzz_overlay.Handle.Store.{estale}
use fzz_overlay.Dentry.{Node, is_some, is_dir, path_type, dentry_is_whiteout, dentry_upper}
use fzz_overlay.Lookup.{is_nil}
use fzz_overlay.Dir.{
  Dirs, World, Place, Ent, Flag, plain, exchange, whiteout_source, is_whiteout, same_inode, change,
  call, next, when, ◌>>=◌, ◌>>◌,
}
use fzz_overlay.Dir.Whiteout.{Cached, cleaned}
use fzz_overlay.Dir.Made.{
  Side, St, Two, old_of, new_of, on_old, on_new, on_world, set_opaque_xerr, dir_modified,
}
use fzz_overlay.Dir.Remove.{here, matches_upper, pure_upper, same_as, ino_at, opaque_in}
use fzz_overlay.Dir.Remove as Remove
use fzz_overlay.Dir.Create as Create
use fzz_overlay.Dir.Redirect.{Step, exdev, type_merge_or_lower, can_move, set_redirect}

-- What the kernel, and the code of other files, returns during one rename.
pub record Calls : Type 0 where
  pub redirect_dir : Bool  -- the option
  pub redirect_max : ℕ
  pub old_allocated : Bool  -- kmalloc of ovl_get_redirect
  pub new_allocated : Bool
  pub old_path : List Step
  pub new_path : List Step
  pub check_empty_dir : Res (List Cached)
  pub want_write : Res (Unit {0})
  pub copy_up_old : Res (Unit {0})
  pub copy_up_parent : Res (Unit {0})
  pub copy_up_new : Res (Unit {0})
  pub nlink_start : Res (Unit {0})
  pub removal : Remove.Calls  -- for ovl_clear_empty
  pub old_impure : Create.Calls  -- for ovl_set_impure
  pub new_impure : Create.Calls
  pub trap : Option ℕ  -- lock_rename: the inode of a directory above the other one

-- The flags of the system call: RENAME_NOREPLACE, RENAME_EXCHANGE, and others.
pub record Flags : Type 0 where
  pub noreplace : Bool
  pub exchanges : Bool
  pub others : Bool

-- What is done in the upper layer, and whether a whiteout is left to remove.
pub record Way : Type 0 where
  pub flag : Flag
  pub cleanup_whiteout : Bool

module _ {v : Vfs} where
  -- The choice of flags; `lower_positive` is ovl_lower_positive of the old dentry.
  unfoldable pub way : Bool → Bool → Node v → Node v → Way
  way exchanges lower_positive old new =
      if exchanges
      then record { flag = exchange; cleanup_whiteout = false }
      else if lower_positive
      then (if not (dentry_is_whiteout new)
          then record { flag = whiteout_source; cleanup_whiteout = false }
          else record { flag = exchange; cleanup_whiteout = false })
      else if is_dir old.mode && dentry_is_whiteout new
      then record { flag = exchange; cleanup_whiteout = true }
      else record { flag = plain; cleanup_whiteout = false }

-- `dentry == trap`
abbrev is_trap : Option ℕ → Option Ent → Bool
is_trap none o = false
is_trap (some i) o = same_as o i

module _ {v : Vfs} where
  abbrev new_unlinked : Bool → Side v → Side v
  new_unlinked exchanges d =
      if not exchanges && d.node.positive
      then record d { nlink = if is_dir d.node.mode then 0 else d.nlink - 1 }
      else d

  abbrev origin_of : Side v → Bool
  origin_of d = (path_type d.node).origin

module _ {v : Vfs} {r : Dirs} where
  -- A check that fails with -ESTALE.
  abbrev pub stale_if : Bool → Two v r → Res (Unit {0}) × Two v r
  stale_if c s = (if c then err estale else ok tt, s)

  abbrev pub at_old : Two v r → Option Ent
  at_old s = r.at s.world.fs (here s.old)

  abbrev pub at_new : Two v r → Option Ent
  at_new s = r.at s.world.fs (here s.new)

  -- What stands under the new name is what the overlay knows of.
  abbrev pub new_moved : Option ℕ → Two v r → Bool
  new_moved opaque s =
      if s.new.node.positive && is_some (dentry_upper s.new.node)
      then elim opaque [
        | some i ↦ not (same_as (at_new s) i)
        | none ↦ not (matches_upper s.new (at_new s))
      ]
      else is_some (at_new s) && (not s.new.node.opaque || not (is_whiteout (at_new s)))

  abbrev pub trapped : Calls → Two v r → Bool
  trapped k s =
      is_trap k.trap (at_old s) || is_trap k.trap (at_new s) || same_inode (at_old s) (at_new s)

  unfoldable pub check_places : Calls → Option ℕ → Two v r → Res (Unit {0}) × Two v r
  check_places k opaque = do
    λ s. (r.lookup_one_len s.world.fs (here s.old), s)
    λ s. stale_if (not (matches_upper s.old (at_old s))) s
    λ s. (r.lookup_one_len s.world.fs (here s.new), s)
    λ s. stale_if (new_moved opaque s) s
    λ s. stale_if (trapped k s) s

  -- The directory stays visible as it was: by a redirect, or by opaqueness in a merged parent.
  unfoldable pub mark_moved :
      ℕ → Bool → List Step → Bool → Node v → ℕ → Bool → St v r → Res (Unit {0}) × St v r
  mark_moved max allocated path samedir into upper was_opaque s =
      if type_merge_or_lower s.side.node
      then set_redirect max allocated path samedir upper s
      else if is_dir s.side.node.mode && not was_opaque && (path_type into).merge
      then set_opaque_xerr upper exdev s
      else (ok tt, s)

  abbrev pub mark_old : Calls → Bool → Two v r → Res (Unit {0}) × Two v r
  mark_old k samedir s =
      on_old
        (mark_moved k.redirect_max k.old_allocated k.old_path samedir s.new.parent
          (ino_at (here s.old) s.world) s.old.node.opaque)
        s

  -- The state before gives the inode, and whether the directory was opaque.
  abbrev pub mark_new : Calls → Bool → Two v r → Two v r → Res (Unit {0}) × Two v r
  mark_new k samedir s = on_new (
      mark_moved k.redirect_max k.new_allocated k.new_path samedir s.old.parent
        (ino_at (here s.new) s.world) s.new.node.opaque)

  unfoldable pub mark_both : Calls → Bool → Bool → Two v r → Res (Unit {0}) × Two v r
  mark_both k exchanges samedir s =
      next (mark_old k samedir s) (λ _. when exchanges (mark_new k samedir s))

  -- Behind the rename, the whiteout stands under the old name if the two are exchanged.
  abbrev pub swept : Bool → Two v r → Two v r
  swept b s = if b then record s { world = cleaned s.old.dir (here s.old) s.world } else s

  abbrev pub finished : Bool → Two v r → Two v r
  finished exchanges s =
      let a : St v r =
        dir_modified (origin_of s.old || (exchanges && origin_of s.new)) (old_of s) in
      let b : St v r =
        dir_modified (origin_of s.old || (s.new.node.positive && origin_of s.new))
          (record { world = s.world; side = new_unlinked exchanges s.new }) in
      record s { old = a.side; new = b.side }

  unfoldable pub do_rename : Way → Bool → Two v r → Res (Unit {0}) × Two v r
  do_rename w exchanges s =
      next (on_old (on_world (change (λ t. r.rename t (here s.old) (here s.new) w.flag))) s)
        (λ _ t. (ok tt, finished exchanges (swept w.cleanup_whiteout t)))

  -- The parents that get an entry with an origin become impure.
  unfoldable pub mark_impure : Calls → Bool → Bool → Two v r → Res (Unit {0}) × Two v r
  mark_impure k exchanges samedir = do
    λ s. when (not samedir && origin_of s.old) (on_new (Create.impure_parent k.new_impure)) s
    λ s.
        when (not samedir && exchanges && origin_of s.new)
          (on_old (Create.impure_parent k.old_impure)) s

  -- What is done under the locks.
  unfoldable pub rename_locked :
      Calls → Way → Bool → Bool → Option ℕ → Two v r → Res (Unit {0}) × Two v r
  rename_locked k w exchanges samedir opaque = do
    check_places k opaque
    mark_both k exchanges samedir
    do_rename w exchanges

  abbrev movable : Calls → Bool → Two v r → Bool
  movable k exchanges s =
      can_move k.redirect_dir s.world.noxattr s.old.node
      && (not exchanges || can_move k.redirect_dir s.world.noxattr s.new.node)

  abbrev pub listed : Calls → Bool → Two v r → Res (List Cached)
  listed k exchanges s =
      if not exchanges && is_dir s.new.node.mode && not (pure_upper s.new.node)
      then k.check_empty_dir
      else ok []

  abbrev copied_up : Calls → Bool → Two v r → Res (Unit {0}) × Two v r
  copied_up k exchanges = do
    call k.want_write
    call k.copy_up_old
    call k.copy_up_parent
    λ s. (
      if exchanges then k.copy_up_new else if s.new.node.positive then k.nlink_start else ok tt,
      s,
    )

  abbrev rename_by : Calls → Flags → Way → Bool → Two v r → Res (Unit {0}) × Two v r
  rename_by k flags w samedir = do
    call (if flags.others then err einval else ok tt)
    λ s. (if not (movable k flags.exchanges s) then err exdev else ok tt, s)
    list ← λ s. (listed k flags.exchanges s, s)
    copied_up k flags.exchanges
    opaque ← on_new (opaque_in k.removal list)
    mark_impure k flags.exchanges samedir
    rename_locked k w flags.exchanges samedir opaque

  unfoldable pub rename : Calls → Flags → Bool → Bool → Two v r → Res (Unit {0}) × Two v r
  rename k flags samedir lower_positive s =
      rename_by k flags (way flags.exchanges lower_positive s.old.node s.new.node) samedir s
