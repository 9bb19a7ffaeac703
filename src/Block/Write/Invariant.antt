-- ===== src/Block/Write/Invariant.antt =====
-- What block_write_iter (file.c) keeps of an inode under block copy-up.
use fzz_overlay.Base.{
  ℕ, zero, suc, ◌+◌, ◌-◌, ◌^◌, ◌≤◌, ◌<◌, ◌≡◌, ◌≢◌, true, false, List, [], ◌∷◌, arith, length,
  get_or, inl, inr,
}
use fzz_overlay.Vfs.{Vfs, Laws}
use fzz_overlay.Block.{Inode, returns, get_block}
use fzz_overlay.Block.View.{status_of, view, IsValid, max_pos, get_block_lem}
use fzz_overlay.Block.Write.{prepare, queue_meta, finish_copy, copy_done, block_write_iter}
use fzz_overlay.Block.Write.Prepare.{prepare_lem}
use fzz_overlay.Block.Write.Mark.{
  mark_blocks_lem, mark_blocks-count, write_loop_lem, WritesAll, count_copied, count_copied-lt,
}
use fzz_overlay.Block.Write.View.{Outcome-cases, copy_done_lem}

-- With every block counted, no counted block has status 0.
count_copied-all :
    (xs : List ℕ) (j : ℕ)
    → get_or xs 0 0 ≡ 0
    → suc (count_copied xs) ≡ length xs
    → 0 < j
    → j < length xs
    → get_or xs j 0 ≢ 0
unfolding count_copied
count_copied-all [] j z e h0 hj q = absurd (omega arith)
count_copied-all (x ∷ xs) zero z e h0 hj q = absurd (omega arith)
count_copied-all (x ∷ xs) (suc j) z e h0 hj q = ground (arith, count_copied-lt xs j)

module _ {v : Vfs} where
  -- The counter counts the copied blocks, block 0 is never used, and the copy-up is over only
  -- when all blocks are copied.
  pub record IsCounted (s : Inode v) : Type 0 where
    pub count : s.copy_count ≡ count_copied s.block_status
    pub unused : status_of s 0 ≡ 0
    pub ended : s.cow_status ≡ false → s.copy_count ≡ s.block_count

  -- When the copy-up is over, a reader that goes to the upper file alone reads what is promised.
  pub view-upper :
      (s : Inode v) (p : ℕ)
      → IsValid s
      → IsCounted s
      → s.cow_status ≡ false
      → p ≤ max_pos
      → view s p ≡ v.byte s.upper p
  unfolding view
  view-upper s p i c e hp = ground (
    arith,
    i.counted,
    c.count,
    c.ended e,
    get_block_lem p hp,
    count_copied-all s.block_status (get_block p) c.unused,
  )

module _ (v : Vfs) (k : Laws v) (all : WritesAll v) where
  copy_done-IsCounted :
      (a b pos : ℕ) (ds : List ℕ) (s : Inode v)
      → 0 < a
      → 0 < length ds
      → length s.block_status ≡ s.block_count + 1
      → s.block_count + 1 < 2 ^ 32
      → IsCounted s
      → s.cow_status ≡ true
      → IsCounted (copy_done v false a b pos ds s).1
  unfolding copy_done finish_copy queue_meta
  copy_done-IsCounted a b pos ds s ha hd hl hf c e =
      elim (write_loop_lem v k all false pos ds s hd) [
        | inl q ↦ rw q c
        | inr (f, q, w) ↦
            let s2 : Inode v = record s { upper = f } in
            let m = mark_blocks_lem v 0 (b + 1 - a) a s2 hl in
            let n = mark_blocks-count v (b + 1 - a) a s2 hl hf c.count in
            rw q (rw m.0 (ground (arith, m, n, c.unused)))
      ]

  -- Whatever block_write_iter returns, the counter counts the copied blocks, and the copy-up is
  -- over only when all are copied.
  pub block_write_iter-IsCounted :
      (pos : ℕ) (ds : List ℕ) (s : Inode v)
      → IsValid s
      → IsCounted s
      → s.cow_status ≡ true
      → 0 < length ds
      → v.size s.lower ≤ max_pos
      → pos + length ds ≤ max_pos
      → get_block (pos + length ds) ≤ s.block_count
      → IsCounted (block_write_iter v false pos ds s).1
  unfolding block_write_iter
  block_write_iter-IsCounted pos ds s i c w hd hs hc hb =
      let len = length ds in
      let s1 = (prepare v false pos len s).1 in
      let first = prepare_lem v k 0 pos len s i (omega arith) hs hc hb in
      let same = first.same in
      let c1 : IsCounted s1 = ground (arith, same, c) in
      let at = get_block_lem pos (omega arith) in
      let l1 : length s1.block_status ≡ s1.block_count + 1 =
        rw (same.block_status, same.block_count) i.counted in
      let f1 : s1.block_count + 1 < 2 ^ 32 = rw same.block_count i.fits in
      elim (Outcome-cases (prepare v false pos len s).0 first.defined) [
        | inl (r, e) ↦
            let b = first.blocks r e in
            rw e (
              copy_done-IsCounted r.0 r.1 pos ds s1 (ground (arith, b, at)) hd l1 f1 c1
                (rw same.cow_status w))
        | inr (x, e) ↦ rw e c1
      ]

  -- A write that returns keeps the inode valid.
  pub block_write_iter-IsValid :
      (pos n : ℕ) (ds : List ℕ) (s : Inode v)
      → IsValid s
      → 0 < length ds
      → v.size s.lower ≤ max_pos
      → pos + length ds ≤ max_pos
      → get_block (pos + length ds) ≤ s.block_count
      → (block_write_iter v false pos ds s).0 ≡ returns n
      → IsValid (block_write_iter v false pos ds s).1
  unfolding block_write_iter
  block_write_iter-IsValid pos n ds s i hd hs hc hb =
      let len = length ds in
      let s1 = (prepare v false pos len s).1 in
      let first = λ (p : ℕ) (hp : p ≤ max_pos). prepare_lem v k p pos len s i hp hs hc hb in
      let at0 = first 0 (omega arith) in
      elim (Outcome-cases (prepare v false pos len s).0 at0.defined) [
        | inl (r, e) ↦
            let start_block = get_block pos in
            let end_block = get_block (pos + len) in
            let l1 : length s1.block_status ≡ s1.block_count + 1 =
              rw (at0.same.block_status, at0.same.block_count) i.counted in
            let done =
              λ (j p : ℕ). copy_done_lem v k all j p start_block end_block pos ds s1 hd l1 in
            let d0 = done 0 0 in
            rw e (
              rw (at0.blocks r e) λ h. record {
                counted = omega (arith, d0.length_same, d0.block_count, l1);
                fits = omega (arith, d0.block_count, at0.same.block_count, i.fits);
                lower_usable = rw d0.lower_file (at0.handles r e).1;
                upper_usable = rw d0.upper_file (at0.handles r e).0;
                hole = λ p hp sz bl z.
                    let d = done (get_block p) p in
                    let f = first p hp in
                    ground (
                      arith,
                      d.written n h,
                      d.marked n h,
                      d.lower,
                      d.block_count,
                      f.same,
                      f.touched,
                      i.hole p hp,
                      k.past_end s.lower p,
                      get_block_lem p hp,
                      get_block_lem pos (omega arith),
                      get_block_lem (pos + len) hc,
                    );
              })
        | inr (x, e) ↦ rw e λ h. cc
      ]
