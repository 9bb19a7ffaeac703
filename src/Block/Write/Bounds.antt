-- ===== src/Block/Write/Bounds.antt =====
-- block_write_iter (file.c) where the write ends behind the last counted block.
use fzz_overlay.Base.{
  ℕ, ◌+◌, ◌%◌, ◌≤◌, ◌<◌, ◌≡◌, ◌⊎◌, arith, length, get_elem?_past, Bool-cases, true, false, ltb,
  List, inl, inr,
}
use fzz_overlay.Vfs.{Vfs}
use fzz_overlay.Block.{Inode, fault, get_block, block_begin, status}
use fzz_overlay.Block.View.{max_pos, get_block_lem, block_begin_lem}
use fzz_overlay.Block.Write.{needs_copy, copy_if, prepare, prepare_end, block_write_iter}
use fzz_overlay.Block.Write.Prepare.{end_inside}

module _ (v : Vfs) where
  needs_copy_past :
      (b : ℕ) (s : Inode v) → length s.block_status ≤ b → needs_copy v true b s ≡ (fault, s)
  unfolding needs_copy status
  needs_copy_past b s h = rw (get_elem?_past s.block_status b h)

  -- A write that is not in append mode, starts on a block boundary or behind the counted blocks,
  -- and ends behind the counted blocks, reads its last or first status past the end of the array
  -- of statuses, before anything is written.
  pub block_write_iter_overruns :
      (pos : ℕ) (ds : List ℕ) (s : Inode v)
      → length s.block_status ≡ s.block_count + 1
      → pos + length ds ≤ max_pos
      → s.block_count < get_block (pos + length ds)
      → (pos % 4096 ≡ 0) ⊎ (s.block_count < get_block pos)
      → block_write_iter v false pos ds s ≡ (fault, s)
  unfolding block_write_iter prepare prepare_end copy_if needs_copy
  block_write_iter_overruns pos ds s hl hm hb h =
      let e = pos + length ds in
      let at = get_block_lem pos (omega arith) in
      let to = get_block_lem e hm in
      let begin = block_begin_lem (get_block pos) (omega (arith, at)) (omega (arith, at)) in
      let past = needs_copy_past (get_block e) s (omega (arith, hl, hb)) in
      elim (Bool-cases (ltb (block_begin (get_block pos)) pos)) [
        | inl t ↦
            rw t (rw (needs_copy_past (get_block pos) s (ground (arith, h, hl, at, begin, t))))
        | inr t ↦ rw t (rw (end_inside v e hm) (rw past))
      ]
