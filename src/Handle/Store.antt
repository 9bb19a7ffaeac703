-- ===== src/Handle/Store.antt =====
-- File handles in extended attributes (namei.c: ovl_get_fh, ovl_verify_fh, ovl_verify_set_fh;
-- util.c: ovl_check_setxattr; copy_up.c: ovl_set_origin, ovl_set_upper_fh).
use fzz_overlay.Base.{
  ℕ, Bool, true, false, not, ◌&&◌, ◌||◌, List, [], ◌∷◌, Option, none, some, ◌==◌, if◌then◌else◌,
  length, take,
}
use fzz_overlay.Vfs.{Res, ok, err}
use fzz_overlay.Handle.{Fh, Real, Alloc, fh_len, enodata, enomem, check_fh_len, encode_real_fh}

abbrev pub eopnotsupp : ℕ
eopnotsupp = 95

abbrev pub estale : ℕ
estale = 116

-- An extended attribute as vfs_getxattr gives it: its bytes, or an error.
abbrev pub Xattr : Type 0
Xattr = Res Fh

-- The value that was read: a handle that is not valid counts as none.
abbrev pub checked : Fh → Res (Unit {0}) → Res (Option Fh)
checked fh (ok _) = ok (some fh)
checked fh (err e) = ok none

-- ovl_get_fh. An attribute that cannot be read is warned of, and counts as none.
unfoldable pub get_fh : Bool → Bool → Xattr → Res (Option Fh)
get_fh big allocated (err e) = ok none
get_fh big allocated (ok []) = ok none
get_fh big allocated (ok (b ∷ fh)) =
    if not allocated
    then err enomem
    else checked (b ∷ fh) (check_fh_len big (b ∷ fh) (length (b ∷ fh)))

-- memcmp
abbrev pub bytes_eq : List ℕ → List ℕ → Bool
bytes_eq [] [] = true
bytes_eq (x ∷ xs) (y ∷ ys) = x == y && bytes_eq xs ys
bytes_eq _ _ = false

abbrev pub compared : Fh → Res (Option Fh) → Res (Unit {0})
compared fh (ok none) = err enodata
compared fh (err e) = err e
compared fh (ok (some ofh)) =
    if not (fh_len fh == fh_len ofh) || not (bytes_eq (take (fh_len fh) fh) (take (fh_len fh) ofh))
    then err estale
    else ok tt

unfoldable pub verify_fh : Bool → Bool → Xattr → Fh → Res (Unit {0})
verify_fh big allocated x fh = compared fh (get_fh big allocated x)

-- ovl_do_setxattr, by what vfs_setxattr returns.
abbrev pub stored : Res (Unit {0}) → Fh → Xattr → Res (Unit {0}) × Xattr
stored (ok _) fh x = (ok tt, ok (take (fh_len fh) fh))
stored (err e) fh x = (err e, x)

abbrev pub is_err : Res (Unit {0}) → ℕ → Bool
is_err (ok _) e = false
is_err (err x) e = x == e

abbrev pub set_or_keep :
    Bool → Res (Unit {0}) → Res (Unit {0}) → Fh → Xattr → Res (Unit {0}) × Xattr
set_or_keep set wrote r fh x = if set && is_err r enodata then stored wrote fh x else (r, x)

-- ovl_verify_set_fh: `wrote` is what vfs_setxattr returns if it is called.
abbrev pub verify_set :
    Bool → Bool → Res (Unit {0}) → Bool → Res Fh → Xattr → Res (Unit {0}) × Xattr
verify_set big allocated wrote set (err e) x = (err e, x)
verify_set big allocated wrote set (ok fh) x =
    set_or_keep set wrote (verify_fh big allocated x fh) fh x

unfoldable pub verify_set_fh :
    Bool → Alloc → Bool → Res (Unit {0}) → Real → Bool → Bool → Xattr → Res (Unit {0}) × Xattr
verify_set_fh big alloc allocated wrote real is_upper set x =
    verify_set big allocated wrote set (encode_real_fh big alloc real is_upper) x

-- The upper layer as ovl_check_setxattr sees it: no extended attributes, and the attribute.
pub record Upper : Type 0 where
  pub noxattr : Bool
  pub xattr : Xattr

-- Behind the call: the first refusal by the file system is remembered.
abbrev pub after_set : ℕ → Upper → Res (Unit {0}) × Xattr → Res (Unit {0}) × Upper
after_set xerr u (r, x) =
    if is_err r eopnotsupp
    then (if xerr == 0 then ok tt else err xerr, record { noxattr = true; xattr = x })
    else (r, record u { xattr = x })

-- ovl_check_setxattr: `xerr` is returned where there are no extended attributes, 0 for success.
unfoldable pub check_setxattr : ℕ → Res (Unit {0}) → Fh → Upper → Res (Unit {0}) × Upper
check_setxattr xerr wrote value u =
    if u.noxattr
    then (if xerr == 0 then ok tt else err xerr, u)
    else after_set xerr u (elim wrote [ ok _ ↦ (ok tt, ok value) | err e ↦ (err e, u.xattr) ])

-- The value of ovl_set_origin: the handle, or nothing if the lower layer cannot decode handles.
abbrev pub origin_value : Res Fh → Res (Unit {0}) → Upper → Res (Unit {0}) × Upper
origin_value (err e) wrote u = (err e, u)
origin_value (ok fh) wrote u = check_setxattr 0 wrote (take (fh_len fh) fh) u

unfoldable pub set_origin :
    Bool → Alloc → Res (Unit {0}) → Bool → Real → Upper → Res (Unit {0}) × Upper
set_origin big alloc wrote can_decode real u =
    if can_decode
    then origin_value (encode_real_fh big alloc real false) wrote u
    else check_setxattr 0 wrote [] u
