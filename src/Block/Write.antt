-- ===== src/Block/Write.antt =====
-- file.c, block_write_iter: a write to a file that is copied up block by block.
pub mod Prepare
pub mod Mark
pub mod View
pub mod Invariant
pub mod Bounds
use fzz_overlay.Base.{
  ℕ, zero, suc, ◌+◌, ◌-◌, ◌*◌, Bool, true, false, not, ◌&&◌, List, [], ◌∷◌, ◌++◌, none, some, ltb,
  ◌==◌, if◌then◌else◌, length, drop, set, get_elem?,
}
use fzz_overlay.Base.Words.{u32, u64, sub32, sub64}
use fzz_overlay.Vfs.{Res, ok, err, Vfs}
use fzz_overlay.Block.{
  Inode, Outcome, returns, fails, fault, loops, pure, ◌>>=◌, ◌>>◌, open_upper, open_lower,
  use_upper, use_lower, status, get_block, block_begin, block_size, copied,
}
use fzz_overlay.Block.Copy.{copy_up_block}

module _ (v : Vfs) where
  abbrev pub result : Res (Unit {0}) → Outcome (Unit {0})
  result (ok _) = returns tt
  result (err e) = fails e

  -- `ret = ovl_copy_up_block(...)`, and the return of its error.
  unfoldable pub copy_up : ℕ → ℕ → Inode v → Outcome (Unit {0}) × Inode v
  copy_up pos len s =
      let (r, u) = copy_up_block v s.lower s.upper pos len in (result r, record s { upper = u })

  -- The length of a block that starts at `off`: what the lower file has, in 64 bits, or a block.
  unfoldable pub block_len : ℕ → ℕ → ℕ
  block_len lower_size off =
      if ltb (sub64 lower_size off) block_size then sub64 lower_size off else block_size

  -- The copy of the first or the last block of a write, which stands twice in the source.
  unfoldable pub copy_up_one_block : ℕ → Inode v → Outcome (Unit {0}) × Inode v
  copy_up_one_block b = do
    open_upper v
    open_lower v
    use_lower v
    use_upper v
    λ s. copy_up (block_begin b) (block_len (v.size s.lower) (block_begin b)) s

  -- `c && !oi->block_status[b]`: the status is read only if `c` holds.
  unfoldable pub needs_copy : Bool → ℕ → Inode v → Outcome Bool × Inode v
  needs_copy false b = pure v false
  needs_copy true b = do x ← status v b; pure v (x == 0)

  unfoldable pub copy_if : Bool → ℕ → Inode v → Outcome (Unit {0}) × Inode v
  copy_if false b = pure v tt
  copy_if true b = copy_up_one_block b

  abbrev pub last_begin : Inode v → ℕ
  last_begin s = u64 (sub32 s.block_count 1 * block_size)

  unfoldable pub copy_last : Bool → Inode v → Outcome (Unit {0}) × Inode v
  copy_last false = pure v tt
  copy_last true = do
    use_lower v
    use_upper v
    λ s. copy_up (last_begin s) (sub64 (v.size s.lower) (last_begin s)) s

  -- The append case: the last block is copied, so that the upper file ends where the lower does.
  unfoldable pub prepare_append : Inode v → Outcome (ℕ × ℕ) × Inode v
  prepare_append = do
    open_upper v
    open_lower v
    x ← λ s. status v s.block_count s
    copy_last (x == 0)
    λ s. (returns (s.block_count, s.block_count), s)

  -- The second half: the last block, unless it is the first one and that was copied.
  unfoldable pub prepare_end : Bool → ℕ → ℕ → Inode v → Outcome (ℕ × ℕ) × Inode v
  prepare_end partial pos count = do
    let start_block = get_block pos
    let end_block = get_block (pos + count)
    last ← needs_copy (ltb (pos + count) (u64 (end_block * block_size))) end_block
    copy_if (last && not (partial && end_block == start_block)) end_block
    pure v (start_block, end_block)

  -- Everything before the label `copy_done`: the blocks that are written in part are copied.
  unfoldable pub prepare : Bool → ℕ → ℕ → Inode v → Outcome (ℕ × ℕ) × Inode v
  prepare true pos count = prepare_append
  prepare false pos count = do
    partial ← needs_copy (ltb (block_begin (get_block pos)) pos) (get_block pos)
    copy_if partial (get_block pos)
    prepare_end partial pos count

  -- `while (ret < iter->count)`: the iterator loses what was written. `ds` is what is left of it.
  unfoldable pub write_loop : ℕ → Bool → ℕ → ℕ → List ℕ → Inode v → Outcome ℕ × Inode v
  write_loop zero append ret pos ds s = (if ltb ret (length ds) then loops else returns ret, s)
  write_loop (suc fuel) append ret pos ds s =
      let written = elim (v.iter_write append s.upper pos ds) as (λ _. Outcome ℕ × Inode v) [
        | err e ↦ (fails 1, s)
        | ok (n, u) ↦
            let at = if append then v.size s.upper else pos in
            write_loop fuel append (ret + n) (at + n) (drop n ds) (record s { upper = u })
      ] in
      if ltb ret (length ds) then written else (returns ret, s)

  -- `for (i = start_block; i <= end_block; i++)`, over the rounds that are left.
  unfoldable pub mark_blocks : ℕ → ℕ → Inode v → Outcome (Unit {0}) × Inode v
  mark_blocks zero i s = (returns tt, s)
  mark_blocks (suc rounds) i s =
      let marked = elim (get_elem? s.block_status i) as (λ _. Outcome (Unit {0}) × Inode v) [
        | none ↦ (fault, s)
        | some x ↦ mark_blocks rounds (i + 1) (
            if x == 0
            then record s {
              block_status = set s.block_status i copied;
              copy_count = u32 (s.copy_count + 1);
            }
            else s)
      ] in
      if ltb s.block_count i then (returns tt, s) else marked

  -- The queue of blocks to be saved, when the inode has a meta file.
  unfoldable pub queue_meta : ℕ → ℕ → Inode v → Inode v
  queue_meta start_block end_block s =
      let last = if ltb s.block_count end_block then s.block_count else end_block in
      if s.meta_file && not (v.fifo_full s.meta_fifo)
      then record s { meta_fifo = s.meta_fifo ++ ((u32 start_block, u32 last) ∷ []) }
      else s

  unfoldable pub finish_copy : Inode v → Inode v
  finish_copy s = if s.copy_count == s.block_count then record s { cow_status = false } else s

  -- From the label `copy_done` on: the write, the marks, the queue and the end of the copy-up.
  unfoldable pub copy_done : Bool → ℕ → ℕ → ℕ → List ℕ → Inode v → Outcome ℕ × Inode v
  copy_done append start_block end_block pos ds = do
    ret ← write_loop (suc (length ds)) append 0 pos ds
    mark_blocks (end_block + 1 - start_block) start_block
    λ s. (returns ret, finish_copy (queue_meta start_block end_block s))

  unfoldable pub block_write_iter : Bool → ℕ → List ℕ → Inode v → Outcome ℕ × Inode v
  block_write_iter append pos ds = do
    r ← prepare append pos (length ds)
    copy_done append r.0 r.1 pos ds
