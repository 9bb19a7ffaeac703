-- ===== src/CopyUp/Metadata.antt =====
-- ovl_copy_up_meta_inode_data (copy_up.c): the data of a dentry that was copied up without it.
use fzz_overlay.Base.{ℕ, ◌≡◌, true, refl, arith, inl, inr}
use fzz_overlay.Vfs.{ok, Vfs}
use fzz_overlay.Block.Copy.Range.{Res-cases}
use fzz_overlay.CopyUp.{
  St, Calls, ◌>>=◌, ◌>>◌, call, needed, copy_up_data, capability_of, meta_paths, set_upperdata,
  copy_up_meta_inode_data,
}
use fzz_overlay.CopyUp.Progress.{meta-Ensures}

module _ {v : Vfs} (k : Calls) (size : ℕ) where
  blocks_same : (s : St v) → (copy_up_meta_inode_data k size s).1.node.blocks ≡ s.node.blocks
  unfolding copy_up_meta_inode_data set_upperdata call ◌>>=◌ ◌>>◌
  blocks_same s = elim (Res-cases (meta_paths s.node)) [
    | inr (x, e) ↦ simp e refl
    | inl (x, e) ↦ simp e (elim (Res-cases (capability_of size k.getxattr)) [
      | inr (y, d) ↦ simp d refl
      | inl (y, d) ↦ simp d (elim (Res-cases (copy_up_data size)) [
        | inr (z, c) ↦ simp c refl
        | inl (z, c) ↦ simp c (elim (Res-cases (needed y k.capability_set)) [
          | inr (w, b) ↦ simp b refl
          | inl (w, b) ↦ simp b (ground arith)
        ])
      ])
    ])
  ]

  -- A copy-up of the data that was left out. If it returns 0, the dentry counts as having its data
  -- in the upper file, but no byte of that file has changed and no block copy-up has begun.
  pub copy_up_meta_inode_data_skips :
      (s : St v) (a : Unit {0})
      → (copy_up_meta_inode_data k size s).0 ≡ ok a
      → let s' = (copy_up_meta_inode_data k size s).1 in
        (s'.node.upperdata ≡ true) × (s'.node.blocks ≡ s.node.blocks)
  copy_up_meta_inode_data_skips s a h = ((meta-Ensures k size).done s a h, blocks_same s)
