-- ===== src/Block/Write/View.antt =====
-- block_write_iter (file.c) against the bytes that a reader is promised.
use fzz_overlay.Base.{
  ℕ, ◌+◌, ◌-◌, ◌<◌, ◌≡◌, ◌⊎◌, refl, false, ◌&&◌, List, arith, ltb, leb, ◌==◌, if◌then◌else◌, length,
  get_or, inl, inr,
}
use fzz_overlay.Vfs.{Vfs, Laws}
use fzz_overlay.Block.{Inode, Outcome, returns, fails, fault, loops, copied}
use fzz_overlay.Block.View.{status_of}
use fzz_overlay.Block.Write.{mark_blocks, queue_meta, finish_copy, copy_done}
use fzz_overlay.Block.Write.Prepare.{IsDefined}
use fzz_overlay.Block.Write.Mark.{mark_blocks_lem, write_loop_lem, WritesAll}

pub Outcome-cases {ℓ} :
    {A : Type ℓ} (o : Outcome A)
    → IsDefined o
    → ((a : A) × (o ≡ returns a)) ⊎ ((e : ℕ) × (o ≡ fails e))
Outcome-cases (returns a) h = inl (a, refl)
Outcome-cases (fails e) h = inr (e, refl)
Outcome-cases fault h = absurd h
Outcome-cases loops h = absurd h

module _ (v : Vfs) where
  -- The queue and the end of the copy-up leave what a read depends on.
  tail_same :
      (a b : ℕ) (s : Inode v)
      → let s' = finish_copy v (queue_meta v a b s) in
        (s'.block_count ≡ s.block_count)
        × (s'.block_status ≡ s.block_status)
        × (s'.lower ≡ s.lower)
        × (s'.upper ≡ s.upper)
        × (s'.lower_file ≡ s.lower_file)
        × (s'.upper_file ≡ s.upper_file)
        × (s'.copy_count ≡ s.copy_count)
  unfolding finish_copy queue_meta
  tail_same a b s = ground arith

module _ (v : Vfs) (k : Laws v) (all : WritesAll v) where
  -- What follows the copies: a failure leaves everything, a success writes and marks.
  pub record CopyDone (j p start_block end_block pos : ℕ) (ds : List ℕ) (s : Inode v)
      (o : Outcome ℕ) (s' : Inode v) : Type 0 where
    pub defined : IsDefined o
    pub failed : (e : ℕ) → o ≡ fails e → s' ≡ s
    pub count : (n : ℕ) → o ≡ returns n → n ≡ length ds
    pub lower : s'.lower ≡ s.lower
    pub lower_file : s'.lower_file ≡ s.lower_file
    pub upper_file : s'.upper_file ≡ s.upper_file
    pub block_count : s'.block_count ≡ s.block_count
    pub length_same : length s'.block_status ≡ length s.block_status
    pub written :
        (n : ℕ)
        → o ≡ returns n
        → v.byte s'.upper p ≡ (
            if leb pos p && ltb p (pos + length ds)
            then get_or ds (p - pos) 0
            else v.byte s.upper p)
    pub marked :
        (n : ℕ)
        → o ≡ returns n
        → status_of s' j ≡ (
            if leb start_block j
              && ltb j (start_block + (end_block + 1 - start_block))
              && leb j s.block_count
              && status_of s j == 0
            then copied
            else status_of s j)

  pub copy_done_lem :
      (j p start_block end_block pos : ℕ) (ds : List ℕ) (s : Inode v)
      → 0 < length ds
      → length s.block_status ≡ s.block_count + 1
      → CopyDone j p start_block end_block pos ds s
          (copy_done v false start_block end_block pos ds s).0
          (copy_done v false start_block end_block pos ds s).1
  unfolding copy_done
  copy_done_lem j p a b pos ds s hd hl = elim (write_loop_lem v k all false pos ds s hd) [
    | inl e ↦ rw e (ground arith)
    | inr (f, e, w) ↦
        let s2 : Inode v = record s { upper = f } in
        let m = mark_blocks_lem v j (b + 1 - a) a s2 hl in
        let s3 = (mark_blocks v (b + 1 - a) a s2).1 in
        rw e (rw m.0 (ground (arith, m, tail_same v a b s3, w.inside p, w.before p, w.after p)))
  ]
