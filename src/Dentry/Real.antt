-- ===== src/Dentry/Real.antt =====
-- The real paths and the flags of a dentry (util.c) agree with each other.
use fzz_overlay.Base.{ℕ, ◌≡◌, true, arith}
use fzz_overlay.Vfs.{Vfs}
use fzz_overlay.Dentry.{
  Node, dentry_of, dentry_upper, dentry_lower, dentry_real, path_type, path_upper, path_lower,
  path_real, has_upperdata, should_check_upperdata, is_some, needs_data_copy_up,
  needs_data_copy_up_locked, already_copied_up, already_copied_up_locked,
}

module _ {v : Vfs} where
  -- ovl_path_real gives the dentry of ovl_dentry_real, and reports an upper type just if there is
  -- an upper dentry.
  pub path_real-dentry_real :
      (upper_mnt : ℕ) (n : Node v)
      → (dentry_of (path_real upper_mnt n).1 ≡ dentry_real n)
        × ((path_real upper_mnt n).0.upper ≡ is_some n.upper)
  unfolding path_real dentry_real path_type dentry_upper dentry_lower path_lower path_upper
  path_real-dentry_real upper_mnt n = ground arith

  -- What is copied up for a test under the inode lock is copied up for the test without it.
  pub already_copied_up_of_locked :
      (flags : ℕ) (n : Node v)
      → already_copied_up_locked flags n ≡ true
      → already_copied_up flags n ≡ true
  unfolding already_copied_up already_copied_up_locked needs_data_copy_up needs_data_copy_up_locked
      has_upperdata should_check_upperdata
  already_copied_up_of_locked flags n h = ground arith
