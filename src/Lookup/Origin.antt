-- ===== src/Lookup/Origin.antt =====
-- The origin of an upper dentry (namei.c: ovl_decode_real_fh, ovl_check_origin_fh,
-- ovl_check_origin): a stored handle is decoded in the lower layers, the topmost first.
use fzz_overlay.Base.{
  ℕ, Bool, Bool-cases, false, not, ◌&&◌, List, [], ◌∷◌, Option, none, some, ◌==◌, ◌≡◌, ◌⊎◌, refl,
  inl, inr, sym, if◌then◌else◌, arith,
}
use fzz_overlay.Vfs.{Res, ok, err}
use fzz_overlay.Handle.{Fh, fh_len, fh_flags, fh_type, fh_uuid, fh_fid, flag_bit, eio, enomem}
use fzz_overlay.Handle.Store.{Xattr, get_fh, bytes_eq, estale}
use fzz_overlay.Lookup.{Layers}
use fzz_overlay.Lookup.Merge.{Lower}

-- What the kernel knows of the mounts of the layers, named by the index of the layer, and of the
-- inodes of dentries.
pub record Mounts (l : Layers) : Type 0 where
  pub big_endian : Bool
  pub uuid : ℕ → List ℕ
  -- exportfs_decode_fh: an identifier, the length of the handle (the identifier has a quarter of
  -- what is behind the header, in words), the type, and whether the dentry has to be connected.
  pub decode : ℕ → List ℕ → ℕ → ℕ → Bool → Res l.Dentry
  pub format : l.Dentry → ℕ  -- i_mode & S_IFMT
  pub origin_xattr : l.Dentry → Xattr
  pub upper_xattr : l.Dentry → Xattr
  pub allocated : Bool  -- kzalloc of the handle that is read
  pub path_allocated : Bool  -- kmalloc of the path

module _ (l : Layers) (k : Mounts l) where
  abbrev pub decoded : Fh → Res l.Dentry → Res (Option l.Dentry)
  decoded fh (err e) = if e == estale && not (flag_bit (fh_flags fh) 2) then ok none else err e
  decoded fh (ok real) = if l.weird real then ok none else ok (some real)

  -- ovl_decode_real_fh; `ok none` is NULL.
  unfoldable pub decode_real_fh : Fh → ℕ → Bool → Res (Option l.Dentry)
  decode_real_fh fh mnt connected =
      if not (bytes_eq (fh_uuid fh) (k.uuid mnt))
      then ok none
      else decoded fh (k.decode mnt (fh_fid fh) (fh_len fh) (fh_type fh) connected)

  abbrev pub or_next : ℕ → Res (Option l.Dentry) → Res (Option (Lower l)) → Res (Option (Lower l))
  or_next mnt (err e) rest = err e
  or_next mnt (ok none) rest = rest
  or_next mnt (ok (some real)) rest = ok (some record { dentry = real; idx = mnt })

  -- The loop of ovl_check_origin_fh over the lower layers.
  unfoldable pub first_origin : List ℕ → Fh → Bool → Res (Option (Lower l))
  first_origin [] fh connected = ok none
  first_origin (mnt ∷ mnts) fh connected =
      let rest = first_origin mnts fh connected in
      or_next mnt (decode_real_fh fh mnt connected) rest

  -- The formats differ, where there is an upper dentry that is no whiteout.
  abbrev pub mismatch : Option l.Dentry → l.Dentry → Bool
  mismatch none origin = false
  mismatch (some upper) origin = not (l.whiteout upper) && not (k.format origin == k.format upper)

  abbrev pub origin_found : Option l.Dentry → Bool → Res (Option (Lower l)) → Res (Lower l)
  origin_found upper has_path (err e) = err e
  origin_found upper has_path (ok none) = err estale
  origin_found upper has_path (ok (some origin)) =
      if mismatch upper origin.dentry
      then err eio
      else if not has_path && not k.path_allocated
      then err enomem
      else ok origin

  -- ovl_check_origin_fh; `has_path` says that the caller gives the path to fill in.
  unfoldable pub check_origin_fh : List ℕ → Fh → Bool → Option l.Dentry → Bool → Res (Lower l)
  check_origin_fh mnts fh connected upper has_path =
      origin_found upper has_path (first_origin mnts fh connected)

  -- A stale handle is no origin.
  abbrev pub origin_or_none : ℕ → Res (Lower l) → Res (Option (Lower l))
  origin_or_none ctr (err e) = if e == estale then ok none else err e
  origin_or_none ctr (ok path) = if ctr == 0 then ok (some path) else err eio

  abbrev pub origin_of : List ℕ → l.Dentry → ℕ → Res (Option Fh) → Res (Option (Lower l))
  origin_of mnts upper ctr (err e) = err e
  origin_of mnts upper ctr (ok none) = ok none
  origin_of mnts upper ctr (ok (some fh)) =
      origin_or_none ctr (check_origin_fh mnts fh false (some upper) false)

  -- ovl_check_origin
  unfoldable pub check_origin : List ℕ → l.Dentry → ℕ → Res (Option (Lower l))
  check_origin mnts upper ctr =
      origin_of mnts upper ctr (get_fh k.big_endian k.allocated (k.origin_xattr upper))

  -- `mnt` is the topmost of the layers `mnts` in which the handle is not unknown.
  abbrev pub Topmost : List ℕ → Fh → Bool → ℕ → Type 0
  Topmost [] fh connected mnt = ⊥
  Topmost (x ∷ mnts) fh connected mnt =
      (x ≡ mnt) ⊎ ((decode_real_fh fh x connected ≡ ok none) × Topmost mnts fh connected mnt)

  or_next-Topmost :
      (x : ℕ) (mnts : List ℕ) (fh : Fh) (c : Bool) (path : Lower l) (r : Res (Option l.Dentry))
      → decode_real_fh fh x c ≡ r
      → or_next x r (first_origin mnts fh c) ≡ ok (some path)
      → (first_origin mnts fh c ≡ ok (some path)
          → (decode_real_fh fh path.idx c ≡ ok (some path.dentry)) × Topmost mnts fh c path.idx)
      → (decode_real_fh fh path.idx c ≡ ok (some path.dentry)) × Topmost (x ∷ mnts) fh c path.idx
  or_next-Topmost x mnts fh c path (err e) d h ih = absurd (ground (arith, h))
  or_next-Topmost x mnts fh c path (ok none) d h ih = let q = ih h in (q.0, inr (d, q.1))
  or_next-Topmost x mnts fh c path (ok (some real)) d h ih =
      let p : record { dentry = real; idx = x } ≡ path = cc in rw (sym p) (d, inl refl)

  first_origin-Topmost :
      (mnts : List ℕ) (fh : Fh) (c : Bool) (path : Lower l)
      → first_origin mnts fh c ≡ ok (some path)
      → (decode_real_fh fh path.idx c ≡ ok (some path.dentry)) × Topmost mnts fh c path.idx
  unfolding first_origin
  first_origin-Topmost [] fh c path h = absurd (ground (arith, h))
  first_origin-Topmost (x ∷ mnts) fh c path h =
      or_next-Topmost x mnts fh c path (decode_real_fh fh x c) refl h
        (first_origin-Topmost mnts fh c path)

  origin_found_lem :
      (upper : Option l.Dentry) (has_path : Bool) (r : Res (Option (Lower l))) (path : Lower l)
      → origin_found upper has_path r ≡ ok path
      → (r ≡ ok (some path)) × (mismatch upper path.dentry ≡ false)
  origin_found_lem upper has_path (err e) path h = absurd (ground (arith, h))
  origin_found_lem upper has_path (ok none) path h = absurd (ground (arith, h))
  origin_found_lem upper has_path (ok (some origin)) path h =
      elim (Bool-cases (mismatch upper origin.dentry)) [
        | inl e ↦ absurd (ground (arith, e, h))
        | inr e ↦ elim (Bool-cases (not has_path && not k.path_allocated)) [
          | inl f ↦ absurd (ground (arith, e, f, h))
          | inr f ↦ let p : origin ≡ path = ground (arith, e, f, h) in rw (sym p) (refl, e)
        ]
      ]

  origin_or_none_lem :
      (ctr : ℕ) (r : Res (Lower l)) (path : Lower l)
      → origin_or_none ctr r ≡ ok (some path)
      → r ≡ ok path
  origin_or_none_lem ctr (err e) path h = absurd (ground (arith, h))
  origin_or_none_lem ctr (ok p) path h = ground (arith, h)

  origin_of_lem :
      (mnts : List ℕ) (upper : l.Dentry) (ctr : ℕ) (r : Res (Option Fh)) (path : Lower l)
      → origin_of mnts upper ctr r ≡ ok (some path)
      → (fh : Fh) × (r ≡ ok (some fh))
        × (check_origin_fh mnts fh false (some upper) false ≡ ok path)
  origin_of_lem mnts upper ctr (err e) path h = absurd (ground (arith, h))
  origin_of_lem mnts upper ctr (ok none) path h = absurd (ground (arith, h))
  origin_of_lem mnts upper ctr (ok (some fh)) path h =
      (fh, refl, origin_or_none_lem ctr (check_origin_fh mnts fh false (some upper) false) path h)

  -- An origin that ovl_check_origin gives for an upper dentry is what the handle stored on it decodes
  -- to in a lower layer, in the topmost one where it is not unknown, and it is of the upper dentry's
  -- format, unless that is a whiteout.
  pub check_origin_lem :
      (mnts : List ℕ) (upper : l.Dentry) (ctr : ℕ) (path : Lower l)
      → check_origin mnts upper ctr ≡ ok (some path)
      → (fh : Fh) × (get_fh k.big_endian k.allocated (k.origin_xattr upper) ≡ ok (some fh))
        × (decode_real_fh fh path.idx false ≡ ok (some path.dentry))
        × Topmost mnts fh false path.idx
        × (l.whiteout upper ≡ false → k.format path.dentry ≡ k.format upper)
  unfolding check_origin check_origin_fh
  check_origin_lem mnts upper ctr path h =
      let stored = get_fh k.big_endian k.allocated (k.origin_xattr upper) in
      let a = origin_of_lem mnts upper ctr stored path h in
      let fh = a.0 in
      let b = origin_found_lem (some upper) false (first_origin mnts fh false) path a.2 in
      let t = first_origin-Topmost mnts fh false path b.0 in
      (fh, a.1, t.0, t.1, λ w. ground (arith, b.1, w))
