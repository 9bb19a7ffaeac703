-- ===== src/Dir/Create.antt =====
-- Creation and links (dir.c: ovl_instantiate, ovl_create_upper, ovl_set_upper_acl,
-- ovl_create_over_whiteout, ovl_create_or_link, ovl_create_object, ovl_create, ovl_mkdir,
-- ovl_mknod, ovl_symlink, ovl_link).
pub mod Placed
pub mod Over
pub mod Upper
pub mod Shown
use fzz_overlay.Base.{
  ℕ, ◌+◌, ◌%◌, Bool, true, false, not, ◌&&◌, ◌||◌, List, Option, none, some, ◌==◌, if◌then◌else◌,
}
use fzz_overlay.Vfs.{Res, ok, err, Vfs}
use fzz_overlay.CopyUp.{erofs}
use fzz_overlay.Handle.{enomem}
use fzz_overlay.Handle.Store.{estale}
use fzz_overlay.Dentry.{Node, is_some, path_type, dentry_is_whiteout, dentry_upper, set_impure}
use fzz_overlay.Dir.{
  Dirs, World, Place, Ent, Kind, Flag, exchange, plain, d_is_dir, is_whiteout, change, call, next,
  or_clean, when, ◌>>=◌, ◌>>◌,
}
use fzz_overlay.Dir.Whiteout.{cleaned}
use fzz_overlay.Dir.Made.{
  Cattr, Format, ifreg, ifdir, ifchr, iflnk, eperm, Side, St, with_side, on_world, create_real,
  create_temp, set_opaque, Two, on_old, on_new, dir_modified, lock_rename_workdir,
}
use fzz_overlay.Dir.Remove.{here, drop_dentry, ino_at, stale_if, clean_on}
use fzz_overlay.Dir.Redirect.{Step, set_redirect}

-- What ovl_set_upper_acl calls.
pub record Acl : Type 0 where
  pub given : Bool  -- the kernel has access control lists, and there is one
  pub allocated : Bool
  pub to_xattr : Res ℕ
  pub stored : Res (Unit {0})

-- What the kernel, and the code of other files, returns during one creation.
pub record Calls : Type 0 where
  pub workdir : Option ℕ
  pub trapped : Bool
  pub is_posixacl : Bool
  pub umasked : ℕ → ℕ  -- the permissions without those of the umask
  pub acl_create : Res ℕ  -- posix_acl_create, with the permissions that it leaves
  pub acl : Acl
  pub default_acl : Acl
  pub mode_differs : Bool
  pub notify_change : Res (Unit {0})
  pub get_inode : Res (Unit {0})  -- ovl_get_inode
  pub want_write : Res (Unit {0})
  pub new_inode : Bool
  pub owned : ℕ → ℕ  -- the permissions behind inode_init_owner
  pub copy_up_parent : Res (Unit {0})
  pub impure_set : Res (Unit {0})  -- vfs_setxattr of the parent
  pub creds : Bool
  pub security : Res (Unit {0})
  pub copy_up_old : Res (Unit {0})
  pub nlink_start : Res (Unit {0})

unfoldable pub set_upper_acl : Acl → Res (Unit {0})
set_upper_acl a =
    if not a.given
    then ok tt
    else if not a.allocated
    then err enomem
    else elim a.to_xattr [ err e ↦ err e | ok _ ↦ a.stored ]

abbrev pub is_ifdir : Format → Bool
is_ifdir ifdir = true
is_ifdir _ = false

abbrev is_iflnk : Format → Bool
is_iflnk iflnk = true
is_iflnk _ = false

abbrev pub is_link : Cattr → Bool
is_link a = is_some a.hardlink

abbrev pub masked : Calls → Cattr → Cattr
masked k a =
    if not (is_link a) && not k.is_posixacl then record a { perm = k.umasked a.perm } else a

abbrev pub acl_attr : Res ℕ → Cattr → Res Cattr
acl_attr (err e) a = err e
acl_attr (ok perm) a = ok (record a { perm = perm })

abbrev pub is_ifchr : Format → Bool
is_ifchr ifchr = true
is_ifchr _ = false

abbrev after : Res (Unit {0}) → Res (Unit {0}) → Res (Unit {0})
after (ok _) y = y
after (err e) y = err e

-- What is done to the new file in the working directory, but for its place.
unfoldable pub prepare_new : Calls → Cattr → Res (Unit {0})
prepare_new k a =
    after
      (if not (is_link a) && not (is_iflnk a.format) && k.mode_differs
        then k.notify_change
        else ok tt)
      (if is_link a then ok tt else after (set_upper_acl k.acl) (set_upper_acl k.default_acl))

module _ {v : Vfs} {r : Dirs} where
  -- d_instantiate. The new name of a link is looked up again.
  abbrev pub instantiate_as : Bool → ℕ → St v r → St v r
  instantiate_as hardlink upper s =
      let d = s.side in
      let n = d.node in
      let n' = record n { positive = true; upper = some upper } in
      with_side s (
        if hardlink
        then record d { node = n'; nlink = d.nlink + 1; hashed = false }
        else record d { node = n' })

  abbrev add_alias : St v r → St v r
  add_alias s =
      let d = s.side in
      let n = d.node in with_side s (record d { node = record n { upper_alias = true } })

  -- ovl_instantiate, for the upper dentry at a place.
  unfoldable pub instantiate : Calls → Bool → Place → St v r → Res (Unit {0}) × St v r
  instantiate k hardlink p s =
      let t = add_alias (dir_modified false s) in
      next (if hardlink then ok tt else k.get_inode, t)
        (λ _ u. (ok tt, instantiate_as hardlink (ino_at p u.world) u))

  -- An optimisation that may fail.
  abbrev pub opaque_if : Bool → ℕ → St v r → St v r
  opaque_if c upper s = if c then (set_opaque upper s).1 else s

  abbrev pub made_upper : Calls → Bool → Place → St v r → Res (Unit {0}) × St v r
  made_upper k hardlink p s =
      let merge = (path_type s.side.parent).merge in
      let t = opaque_if (merge && d_is_dir (r.at s.world.fs p)) (ino_at p s.world) s in
      or_clean (instantiate k hardlink p t) (clean_on s.side.dir p)

  -- ovl_create_upper
  unfoldable pub create_upper : Calls → Cattr → St v r → Res (Unit {0}) × St v r
  create_upper k a = do
    λ s. (r.lookup_one_len s.world.fs (here s.side), s)
    p ← λ s. on_world (create_real (here s.side) (masked k a)) s
    made_upper k (is_link a) p

  -- The new directory is opaque, and the whiteout that it replaces is removed.
  abbrev pub put_dir : ℕ → Place → Place → St v r → Res (Unit {0}) × St v r
  put_dir workdir temp upper = do
    λ s. set_opaque (ino_at temp s.world) s
    on_world (change (λ t. r.rename t temp upper exchange))
    λ s. (ok tt, clean_on workdir temp s)

  abbrev pub put_new : ℕ → Cattr → Place → Place → St v r → Res (Unit {0}) × St v r
  put_new workdir a temp upper s =
      if not (is_link a) && is_ifdir a.format
      then put_dir workdir temp upper s
      else on_world (change (λ t. r.rename t temp upper plain)) s

  -- Where ovl_instantiate fails, the new file is not in the working directory any more, and is
  -- still cleaned up as if it were.
  abbrev pub placed : Calls → ℕ → Cattr → Place → St v r → Res (Unit {0}) × St v r
  placed k workdir a temp s =
      next
        (or_clean (next (prepare_new k a, s) (λ _. put_new workdir a temp (here s.side)))
          (clean_on workdir temp))
        (λ _ t.
          or_clean (instantiate k (is_link a) (here t.side) t) (clean_on workdir (here t.side)))

  abbrev pub over_whiteout : ℕ → Calls → Cattr → St v r → Res (Unit {0}) × St v r
  over_whiteout workdir k a = do
    λ s. (lock_rename_workdir workdir s.side.dir k.trapped, s)
    λ s. (r.lookup_one_len s.world.fs (here s.side), s)
    λ s. stale_if (not (is_whiteout (r.at s.world.fs (here s.side)))) s
    temp ← on_world (create_temp workdir a)
    placed k workdir a temp

  abbrev over_in : Option ℕ → Calls → Cattr → St v r → Res (Unit {0}) × St v r
  over_in none k a s = (err erofs, s)
  over_in (some workdir) k a s =
      next (if is_link a then ok a else acl_attr k.acl_create a, s) (λ b. over_whiteout workdir k b)

  unfoldable pub create_over_whiteout : Calls → Cattr → St v r → Res (Unit {0}) × St v r
  create_over_whiteout k a s = over_in k.workdir k a s

  abbrev pub impure_result : Res (Unit {0}) × Node v × Bool → St v r → Res (Unit {0}) × St v r
  impure_result (x, p, b) s =
      let d = s.side in
      let w = s.world in
      (x, record { world = record w { noxattr = b }; side = record d { parent = p } })

  -- ovl_set_impure of the parent
  abbrev pub impure_parent : Calls → St v r → Res (Unit {0}) × St v r
  impure_parent k s = impure_result (set_impure k.impure_set s.side.parent s.world.noxattr) s

  -- ovl_create_or_link, with what prepare_creds and the security module say.
  unfoldable pub create_or_link : Calls → Cattr → Bool → St v r → Res (Unit {0}) × St v r
  create_or_link k a origin = do
    call k.copy_up_parent
    when origin (impure_parent k)
    call (if k.creds then ok tt else err enomem)
    call (if is_link a then ok tt else k.security)
    λ s.
        if not (dentry_is_whiteout s.side.node)
        then create_upper k a s
        else create_over_whiteout k a s

  unfoldable pub create_object : Calls → Format → ℕ → ℕ → St v r → Res (Unit {0}) × St v r
  create_object k format perm rdev = do
    call k.want_write
    call (if k.new_inode then ok tt else err enomem)
    create_or_link k (record { rdev = rdev; format = format; perm = k.owned perm; hardlink = none })
        false

  unfoldable pub do_create : Calls → ℕ → St v r → Res (Unit {0}) × St v r
  do_create k mode = create_object k ifreg (mode % 4096) 0

  unfoldable pub do_mkdir : Calls → ℕ → St v r → Res (Unit {0}) × St v r
  do_mkdir k mode = create_object k ifdir (mode % 4096) 0

  unfoldable pub do_mknod : Calls → Format → ℕ → ℕ → St v r → Res (Unit {0}) × St v r
  do_mknod k format mode rdev s =
      if is_ifchr format && rdev == 0 then (err eperm, s) else create_object k format mode rdev s

  unfoldable pub do_symlink : Calls → St v r → Res (Unit {0}) × St v r
  do_symlink k = create_object k iflnk 0 0

  -- The link's inode is that of the old dentry, with its link count.
  abbrev link_new : Calls → Bool → Ent → Two v r → Res (Unit {0}) × Two v r
  link_new k origin upper s =
      let n = s.new in
      let a : Cattr = record { rdev = 0; format = ifreg; perm = 0; hardlink = some upper } in
      let (x, t) =
        on_new (create_or_link k a origin) (record s { new = record n { nlink = s.old.nlink } }) in
      let o = t.old in (x, record t { old = record o { nlink = t.new.nlink } })

  -- ovl_link, with the inode of the old dentry's upper one. A metacopy gets an absolute redirect
  -- first (ovl_set_link_redirect).
  unfoldable pub do_link :
      Calls → Bool → ℕ → Bool → List Step → Ent → Two v r → Res (Unit {0}) × Two v r
  do_link k metacopy redirect_max allocated path upper = do
    call k.want_write
    call k.copy_up_old
    call k.copy_up_parent
    when metacopy (on_old (set_redirect redirect_max allocated path false upper.ino))
    call k.nlink_start
    λ s. link_new k (path_type s.old.node).origin upper s
