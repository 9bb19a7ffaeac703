-- ===== src/Handle/Refusal.antt =====
-- ovl_check_setxattr (util.c) on an upper file system without extended attributes.
use fzz_overlay.Base.{ℕ, ◌≡◌, false, ◌==◌, if◌then◌else◌, arith}
use fzz_overlay.Vfs.{Res, ok, err}
use fzz_overlay.Handle.{Fh}
use fzz_overlay.Handle.Store.{Upper, eopnotsupp, check_setxattr}

-- If no refusal is remembered and the file system refuses the attribute with EOPNOTSUPP, the call
-- returns the caller's `xerr` and leaves the attribute. Every later call with the same `xerr`
-- returns the same and changes nothing, whatever the file system would say.
pub check_setxattr_remembers :
    (xerr : ℕ) (value later : Fh) (wrote : Res (Unit {0})) (u : Upper)
    → u.noxattr ≡ false
    → let (r, u') = check_setxattr xerr (err eopnotsupp) value u in
      (r ≡ (if xerr == 0 then ok tt else err xerr))
      × (u'.xattr ≡ u.xattr)
      × (check_setxattr xerr wrote later u' ≡ (r, u'))
unfolding check_setxattr
check_setxattr_remembers xerr value later wrote u h = simp h (ground arith)
