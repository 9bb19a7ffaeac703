-- ===== src/Lookup/Index.antt =====
-- Entries of the index directory (namei.c: ovl_index_upper, ovl_verify_index, ovl_get_index_name,
-- ovl_get_index_fh, ovl_lookup_index).
pub mod Named
use fzz_overlay.Base.{
  ℕ, ◌*◌, ◌/◌, Bool, true, false, not, ◌&&◌, ◌||◌, List, Option, none, some, ◌==◌, ltb,
  if◌then◌else◌, length, get_or, take,
}
use fzz_overlay.Vfs.{Res, ok, err}
use fzz_overlay.Handle.{
  Fh, Real, Alloc, fh_len, check_fh_len, encode_real_fh, header_size, einval, eio, enomem,
}
use fzz_overlay.Handle.Store.{get_fh, verify_fh, estale}
use fzz_overlay.Dentry.{is_some}
use fzz_overlay.Lookup.{Layers, enoent}
use fzz_overlay.Lookup.Merge.{Lower}
use fzz_overlay.Lookup.Origin.{Mounts, decode_real_fh, check_origin_fh}

-- What the kernel gives for the entries of the index directory.
pub record Indices (l : Layers) : Type 0 where
  pub bin2hex : List ℕ → List ℕ
  pub hex2bin : List ℕ → Option (List ℕ)
  pub name : l.Dentry → List ℕ
  pub is_dir : l.Dentry → Bool
  pub inode : l.Dentry → ℕ
  pub nlink : l.Dentry → ℕ
  pub overlay_nlink : l.Dentry → l.Dentry → ℕ  -- ovl_get_nlink(origin, index, 0)
  pub lookup_name : List ℕ → Res l.Dentry
  pub name_allocated : Bool
  pub verify_upper : l.Dentry → l.Dentry → Res (Unit {0})
  -- The mount options and the layers: the upper mount, and the lower ones from the top.
  pub nfs_export : Bool
  pub upper_mnt : ℕ
  pub lower_mnts : List ℕ

module _ (l : Layers) (k : Mounts l) (x : Indices l) where
  abbrev pub only_dir : Res (Option l.Dentry) → Res (Option l.Dentry)
  only_dir (err e) = err e
  only_dir (ok none) = err estale
  only_dir (ok (some upper)) = if not (x.is_dir upper) then err eio else ok (some upper)

  abbrev pub upper_of : Res (Option Fh) → Res (Option l.Dentry)
  upper_of (err e) = err e
  upper_of (ok none) = ok none
  upper_of (ok (some fh)) = only_dir (decode_real_fh l k fh x.upper_mnt true)

  -- ovl_index_upper; `ok none` is NULL.
  unfoldable pub index_upper : l.Dentry → Res (Option l.Dentry)
  index_upper index =
      if not (x.is_dir index)
      then ok (some index)
      else upper_of (get_fh k.big_endian k.allocated (k.upper_xattr index))

  -- A link count of one: the origin has to be there, and the overlay inode has to have links.
  abbrev pub orphan : l.Dentry → Res (Lower l) → Res (Unit {0})
  orphan index (err e) = err e
  orphan index (ok origin) = if x.overlay_nlink origin.dentry index == 0 then err enoent else ok tt

  abbrev pub origin_verified : l.Dentry → Fh → Res (Unit {0}) → Res (Unit {0})
  origin_verified index fh (err e) = err e
  origin_verified index fh (ok _) =
      if not (x.is_dir index) && x.nlink index == 1
      then orphan index (check_origin_fh l k x.lower_mnts fh false (some index) true)
      else ok tt

  abbrev pub upper_verified : l.Dentry → Fh → Res (Option l.Dentry) → Res (Unit {0})
  upper_verified index fh (err e) = if e == estale then err enoent else err e
  upper_verified index fh (ok none) = err estale
  upper_verified index fh (ok (some upper)) =
      origin_verified index fh (verify_fh k.big_endian k.allocated (k.origin_xattr upper) fh)

  abbrev pub fh_verified : l.Dentry → Fh → Res (Unit {0}) → Res (Unit {0})
  fh_verified index fh (err e) = err e
  fh_verified index fh (ok _) =
      if l.whiteout index || (x.is_dir index && not x.nfs_export)
      then ok tt
      else upper_verified index fh (index_upper index)

  abbrev pub name_decoded : l.Dentry → Option (List ℕ) → Res (Unit {0})
  name_decoded index none = err einval
  name_decoded index (some fh) =
      fh_verified index fh (check_fh_len k.big_endian fh (length (x.name index) / 2))

  -- ovl_verify_index
  unfoldable pub verify_index : l.Dentry → Res (Unit {0})
  verify_index index =
      if not (l.positive index)
      then ok tt
      else if get_or (x.name index) 0 0 == b'#'
      then err estale
      else if ltb (length (x.name index)) (header_size * 2)
      then err einval
      else if not k.allocated
      then err enomem
      else name_decoded index (x.hex2bin (take (length (x.name index) / 2 * 2) (x.name index)))

  -- ovl_get_index_name_fh
  unfoldable pub index_name_fh : Fh → Res (List ℕ)
  index_name_fh fh =
      if not x.name_allocated then err enomem else ok (x.bin2hex (take (fh_len fh) fh))

  abbrev pub named_by : Res Fh → Res (List ℕ)
  named_by (err e) = err e
  named_by (ok fh) = index_name_fh fh

  -- ovl_get_index_name, of the origin that `real` describes.
  unfoldable pub index_name : Alloc → Real → Res (List ℕ)
  index_name alloc real = named_by (encode_real_fh k.big_endian alloc real false)

  abbrev pub entry_or_null : Res l.Dentry → Res (Option l.Dentry)
  entry_or_null (err e) = if e == enoent then ok none else err e
  entry_or_null (ok index) =
      if not (l.positive index)
      then ok none
      else if l.whiteout index
      then err estale
      else if l.weird index
      then err eio
      else ok (some index)

  abbrev pub entry_by_fh : Res (List ℕ) → Res (Option l.Dentry)
  entry_by_fh (err e) = err e
  entry_by_fh (ok name) = entry_or_null (x.lookup_name name)

  -- ovl_get_index_fh
  unfoldable pub index_by_fh : Fh → Res (Option l.Dentry)
  index_by_fh fh = entry_by_fh (index_name_fh fh)

  abbrev pub upper_matches : l.Dentry → Res (Unit {0}) → Res (Option l.Dentry)
  upper_matches index (err e) = err eio
  upper_matches index (ok _) = ok (some index)

  abbrev pub dir_index : Option l.Dentry → l.Dentry → Res (Option l.Dentry)
  dir_index none index = err eio
  dir_index (some upper) index = upper_matches index (x.verify_upper index upper)

  abbrev pub same_inode : Option l.Dentry → l.Dentry → Bool
  same_inode none index = true
  same_inode (some upper) index = x.inode upper == x.inode index

  -- An entry that was looked up for an origin.
  unfoldable pub check_index : Option l.Dentry → l.Dentry → Bool → l.Dentry → Res (Option l.Dentry)
  check_index upper origin verify index =
      if not (l.positive index)
      then ok none
      else if l.whiteout index && not verify
      then err estale
      else if l.weird index || l.whiteout index || not (k.format index == k.format origin)
      then err eio
      else if x.is_dir origin && verify
      then dir_index upper index
      else if same_inode upper index
      then ok (some index)
      else ok none

  abbrev pub index_looked_up :
      Option l.Dentry → l.Dentry → Bool → Res l.Dentry → Res (Option l.Dentry)
  index_looked_up upper origin verify (err e) = if e == enoent then ok none else err e
  index_looked_up upper origin verify (ok index) = check_index upper origin verify index

  abbrev pub index_with : Option l.Dentry → l.Dentry → Bool → Res (List ℕ) → Res (Option l.Dentry)
  index_with upper origin verify (err e) = err e
  index_with upper origin verify (ok name) =
      index_looked_up upper origin verify (x.lookup_name name)

  -- ovl_lookup_index, of the origin that `real` describes.
  unfoldable pub lookup_index :
      Alloc → Real → Option l.Dentry → l.Dentry → Bool → Res (Option l.Dentry)
  lookup_index alloc real upper origin verify =
      index_with upper origin verify (index_name alloc real)
