-- ===== src/CopyUp.antt =====
-- Copy-up of one dentry (copy_up.c): the file is made in a working directory or as a temporary
-- file, comes under block copy-up, and is moved or linked to its place.
pub mod Progress
pub mod Single
pub mod Metadata
pub mod Walk
use fzz_overlay.Base.{
  ℕ, Bool, true, false, not, ◌&&◌, ◌||◌, List, [], ◌∷◌, Option, none, some, ◌==◌, ltb,
  if◌then◌else◌,
}
use fzz_overlay.Vfs.{Res, ok, err, Vfs}
use fzz_overlay.Handle.{Fh, Alloc, Real, enodata, eio}
use fzz_overlay.Handle.Store.{Xattr, Upper, check_setxattr, set_origin, eopnotsupp}
use fzz_overlay.Block.Start.{start_blocks}
use fzz_overlay.Dentry.{
  Mode, Node, RealPath, is_reg, is_dir, is_lnk, is_some, numlower, dentry_lower, dentry_upper,
  path_lowerdata, set_impure, already_copied_up_locked, needs_data_copy_up_locked, opens_write,
  truncates,
}

abbrev pub erofs : ℕ
erofs = 30

-- The part of ovl_fs that is read, and `noxattr`, which is written.
pub record Fs : Type 0 where
  pub workdir : Bool
  pub indexdir : Bool
  pub nfs_export : Bool
  pub index_config : Bool
  pub metacopy_config : Bool
  pub tmpfile : Bool
  pub noxattr : Bool

pub record Stat : Type 0 where
  pub size : ℕ
  pub mode : Mode
  pub nlink : ℕ

-- What the kernel, and the helpers that only call it, return during one copy-up.
pub record Calls : Type 0 where
  pub getattr : Res Stat
  pub parent_getattr : Res (Unit {0})
  pub get_link : Res (Unit {0})
  pub inode_lock : Res (Unit {0})
  pub index_name : Res (Unit {0})  -- ovl_get_index_name
  pub set_impure : Res (Unit {0})  -- vfs_setxattr, by ovl_set_impure
  pub set_nlink_lower : Res (Unit {0})
  pub set_nlink_upper : Res (Unit {0})
  pub lock_rename : Res (Unit {0})  -- ovl_lock_rename_workdir
  pub prep_creds : Res (Unit {0})  -- ovl_prep_cu_creds
  pub create_temp : Res ℕ  -- ovl_create_temp: the new dentry
  pub do_tmpfile : Res ℕ  -- ovl_do_tmpfile
  pub allocated : Bool  -- kmalloc of the statuses
  pub copy_xattr : Res (Unit {0})
  pub alloc : Alloc
  pub can_decode : Bool  -- ovl_can_decode_fh
  pub origin : Real  -- exportfs_encode_fh of the lower dentry
  pub origin_set : Res (Unit {0})
  pub metacopy_set : Res (Unit {0})
  pub set_size : Res (Unit {0})
  pub set_attr : Res (Unit {0})
  pub create_index : Res (Unit {0})
  pub lookup : Res (Unit {0})
  pub rename : Res (Unit {0})
  pub link : Res (Unit {0})
  pub link_up_lookup : Res (Unit {0})
  pub link_up_link : Res (Unit {0})
  pub getxattr : Res (Unit {0})  -- ovl_getxattr of the capability
  pub capability_set : Res (Unit {0})
  pub removexattr : Res (Unit {0})

-- The attributes of the file that is made.
pub record Temp : Type 0 where
  pub origin_xattr : Xattr
  pub metacopy_xattr : Xattr

-- The dentry that is copied up, its parent if one is given, and the file system.
pub record St (v : Vfs) : Type 0 where
  pub node : Node v
  pub parent : Option (Node v)
  pub fs : Fs
  pub temp : Temp

-- struct ovl_copy_up_ctx
pub record Ctx : Type 0 where
  pub stat : Stat
  pub origin : Bool
  pub indexed : Bool
  pub metacopy : Bool

-- ovl_need_meta_copy_up
unfoldable pub need_meta_copy_up : Fs → Mode → ℕ → Bool
need_meta_copy_up fs mode flags =
    if not fs.metacopy_config
    then false
    else if not (is_reg mode)
    then false
    else if not (flags == 0) && (opens_write flags || truncates flags)
    then false
    else true

abbrev with_noxattr : Fs → Bool → Fs
with_noxattr fs b = record fs { noxattr = b }

-- ovl_copy_up_data, which returns before it opens a file.
unfoldable pub copy_up_data : ℕ → Res (Unit {0})
copy_up_data len = if len == 0 then ok tt else ok tt

abbrev capability_of : ℕ → Res (Unit {0}) → Res Bool
capability_of size (ok _) = ok (not (size == 0))
capability_of size (err e) = if not (size == 0) && not (e == enodata) then err e else ok false

-- The context of ovl_copy_up_one; O_TRUNC makes the size 0.
abbrev pub ctx_of : Fs → ℕ → Stat → Ctx
ctx_of fs flags t = record {
  stat = record { size = if truncates flags then 0 else t.size; mode = t.mode; nlink = t.nlink };
  origin = false;
  indexed = false;
  metacopy = need_meta_copy_up fs t.mode flags;
}

-- A call behind an `if`.
abbrev pub needed : Bool → Res (Unit {0}) → Res (Unit {0})
needed c r = if c then r else ok tt

module _ {v : Vfs} where
  abbrev pub next : {A B : Type 0} → Res A × St v → (A → St v → Res B × St v) → Res B × St v
  next (ok a, s) f = f a s
  next (err e, s) f = (err e, s)

  infixl 5 ◌>>=◌ ◌>>◌
  unfoldable pub ◌>>=◌ :
      {A B : Type 0} → (St v → Res A × St v) → (A → St v → Res B × St v) → St v → Res B × St v
  ◌>>=◌ m f s = next (m s) f

  unfoldable pub ◌>>◌ :
      {A B : Type 0} → (St v → Res A × St v) → (St v → Res B × St v) → St v → Res B × St v
  ◌>>◌ m k s = next (m s) (λ _. k)

  -- A call that changes nothing that is modelled.
  unfoldable pub call : {A : Type 0} → Res A → St v → Res A × St v
  call r s = (r, s)

  abbrev pub with_node : St v → Node v → St v
  with_node s n = record s { node = n }

  -- ovl_need_index. The lower dentry is of the type of the overlay dentry.
  unfoldable pub need_index : Fs → Node v → Bool
  need_index fs n =
      if not (is_some (dentry_lower n)) || not fs.indexdir
      then false
      else if fs.nfs_export && fs.index_config
      then true
      else not (is_dir n.mode) && ltb 1 n.lower_nlink

  abbrev impure_result : Res (Unit {0}) × Node v × Bool → St v → Res (Unit {0}) × St v
  impure_result (r, p, b) s = (r, record s { parent = some p; fs = with_noxattr s.fs b })

  -- ovl_set_impure on the parent, which is called only where there is one.
  abbrev impure_parent_of : Res (Unit {0}) → Option (Node v) → St v → Res (Unit {0}) × St v
  impure_parent_of wrote none s = (ok tt, s)
  impure_parent_of wrote (some p) s = impure_result (set_impure wrote p s.fs.noxattr) s

  unfoldable pub impure_parent : Res (Unit {0}) → St v → Res (Unit {0}) × St v
  impure_parent wrote s = impure_parent_of wrote s.parent s

  -- The first step of ovl_copy_up_inode.
  unfoldable pub start : Calls → Ctx → St v → Res (Unit {0}) × St v
  start k c s =
      let n = s.node in
      let (r, b) =
        start_blocks v (is_reg c.stat.mode) c.metacopy c.stat.size k.allocated n.blocks in
      (r, with_node s (record n { blocks = b }))

  abbrev origin_result : Res (Unit {0}) × Upper → St v → Res (Unit {0}) × St v
  origin_result (r, u) s =
      let t = s.temp in
      (r, record s { temp = record t { origin_xattr = u.xattr }; fs = with_noxattr s.fs u.noxattr })

  -- ovl_set_origin on the new file; native code is little endian.
  unfoldable pub store_origin : Calls → Bool → St v → Res (Unit {0}) × St v
  store_origin k false s = (ok tt, s)
  store_origin k true s =
      origin_result
        (set_origin false k.alloc k.origin_set k.can_decode k.origin
          (record { noxattr = s.fs.noxattr; xattr = s.temp.origin_xattr }))
        s

  abbrev metacopy_result : Res (Unit {0}) × Upper → St v → Res (Unit {0}) × St v
  metacopy_result (r, u) s =
      let t = s.temp in
      (
        r,
        record s { temp = record t { metacopy_xattr = u.xattr }; fs = with_noxattr s.fs u.noxattr },
      )

  unfoldable pub store_metacopy : Calls → Bool → St v → Res (Unit {0}) × St v
  store_metacopy k false s = (ok tt, s)
  store_metacopy k true s =
      metacopy_result
        (check_setxattr eopnotsupp k.metacopy_set []
          (record { noxattr = s.fs.noxattr; xattr = s.temp.metacopy_xattr }))
        s

  -- ovl_copy_up_inode
  unfoldable pub copy_up_inode : Calls → Ctx → St v → Res (Unit {0}) × St v
  copy_up_inode k c = do
    start k c
    call k.copy_xattr
    store_origin k c.origin
    store_metacopy k c.metacopy
    call (if c.metacopy then k.set_size else ok tt)
    call k.set_attr

  -- ovl_set_upperdata, unless the copy is metadata only, and ovl_inode_update.
  unfoldable pub publish : Ctx → ℕ → St v → Res (Unit {0}) × St v
  publish c t s =
      let n = s.node in
      (ok tt, with_node s (record n { upper = some t; upperdata = n.upperdata || not c.metacopy }))

  unfoldable pub set_whiteouts : St v → Res (Unit {0}) × St v
  set_whiteouts s =
      let n = s.node in
      (ok tt, with_node s (if is_dir n.mode then record n { whiteouts = true } else n))

  -- ovl_copy_up_workdir
  unfoldable pub copy_up_workdir : Calls → Ctx → St v → Res (Unit {0}) × St v
  copy_up_workdir k c = do
    call k.lock_rename
    call k.prep_creds
    t ← call k.create_temp
    copy_up_inode k c
    call (if is_dir c.stat.mode && c.indexed then k.create_index else ok tt)
    call k.lookup
    call k.rename
    publish c t
    set_whiteouts

  -- ovl_copy_up_tmpfile
  unfoldable pub copy_up_tmpfile : Calls → Ctx → St v → Res (Unit {0}) × St v
  copy_up_tmpfile k c = do
    call k.prep_creds
    t ← call k.do_tmpfile
    copy_up_inode k c
    call k.lookup
    call k.link
    publish c t

  unfoldable pub set_index : Bool → St v → Res (Unit {0}) × St v
  set_index indexed s =
      let n = s.node in (ok tt, with_node s (if indexed then record n { index = true } else n))

  unfoldable pub set_upper_alias : St v → Res (Unit {0}) × St v
  set_upper_alias s = let n = s.node in (ok tt, with_node s (record n { upper_alias = true }))

  -- Where the copy goes: to the index, or into the parent, which becomes impure.
  unfoldable pub choose_dir : Calls → Bool → St v → Res (Unit {0}) × St v
  choose_dir k true s = (k.index_name, s)
  choose_dir k false s =
      if not (is_some s.parent) then (err eio, s) else impure_parent k.set_impure s

  unfoldable pub finish_copy_up : Calls → Bool → St v → Res (Unit {0}) × St v
  finish_copy_up k true = call k.set_nlink_upper
  finish_copy_up k false = set_upper_alias

  -- ovl_do_copy_up
  unfoldable pub do_copy_up : Calls → Ctx → St v → Res (Unit {0}) × St v
  do_copy_up k c s =
      let indexed = c.indexed || need_index s.fs s.node in
      let to_index = need_index s.fs s.node && not (is_dir c.stat.mode) in
      let c' = record c {
        indexed = indexed;
        origin = c.origin || is_dir c.stat.mode || c.stat.nlink == 1 || to_index;
      } in
      (choose_dir k to_index
          >> (if is_reg c.stat.mode && s.fs.tmpfile
              then copy_up_tmpfile k c'
              else copy_up_workdir k c')
          >> set_index indexed
          >> finish_copy_up k to_index)
        s

  -- ovl_link_up
  unfoldable pub link_up : Calls → St v → Res (Unit {0}) × St v
  link_up k = do
    impure_parent k.set_impure
    call k.set_nlink_lower
    call k.link_up_lookup
    call k.link_up_link
    set_upper_alias
    call k.set_nlink_upper

  unfoldable pub set_upperdata : St v → Res (Unit {0}) × St v
  set_upperdata s = let n = s.node in (ok tt, with_node s (record n { upperdata = true }))

  abbrev meta_paths : Node v → Res (Unit {0})
  meta_paths n =
      if not (is_some (dentry_upper n))
      then err eio
      else if not (is_some (path_lowerdata n))
      then err eio
      else ok tt

  -- ovl_copy_up_meta_inode_data
  unfoldable pub copy_up_meta_inode_data : Calls → ℕ → St v → Res (Unit {0}) × St v
  copy_up_meta_inode_data k size = do
    λ s. (meta_paths s.node, s)
    capability ← call (capability_of size k.getxattr)
    call (copy_up_data size)
    call (needed capability k.capability_set)
    call k.removexattr
    set_upperdata

  -- ovl_copy_up_start: whether there is still something to copy, with the inode locked.
  unfoldable pub copy_up_start : Calls → ℕ → St v → Res Bool × St v
  copy_up_start k flags s = elim k.inode_lock [
    | err e ↦ (err e, s)
    | ok _ ↦ (ok (not (already_copied_up_locked flags s.node)), s)
  ]

  -- `if (c) err = m`, behind a step that succeeded.
  unfoldable pub when :
      (St v → Bool) → (St v → Res (Unit {0}) × St v) → St v → Res (Unit {0}) × St v
  when c m s = if c s then m s else (ok tt, s)

  -- What is done under the lock.
  unfoldable pub copy_up_locked : Calls → ℕ → Ctx → St v → Res (Unit {0}) × St v
  copy_up_locked k flags c = do
    when (λ s. not (is_some (dentry_upper s.node))) (do_copy_up k c)
    when (λ s. is_some s.parent && not s.node.upper_alias) (link_up k)
    when (λ s. needs_data_copy_up_locked flags s.node) (copy_up_meta_inode_data k c.stat.size)

  -- Behind the attributes: the lock, and what is done under it.
  unfoldable pub copy_up_rest : Calls → ℕ → Stat → St v → Res (Unit {0}) × St v
  copy_up_rest k flags t s =
      (copy_up_start k flags
          >>= (λ more. when (λ _. more) (copy_up_locked k flags (ctx_of s.fs flags t))))
        s

  unfoldable pub copy_up_stat : Calls → ℕ → Stat → St v → Res (Unit {0}) × St v
  copy_up_stat k flags t = do
    λ s. (needed (is_some s.parent) k.parent_getattr, s)
    call (needed (is_lnk t.mode) k.get_link)
    copy_up_rest k flags t

  -- ovl_copy_up_one
  unfoldable pub copy_up_one : Calls → ℕ → St v → Res (Unit {0}) × St v
  copy_up_one k flags s =
      if not s.fs.workdir
      then (err erofs, s)
      else (call k.getattr >>= (λ t. copy_up_stat k flags t)) s
