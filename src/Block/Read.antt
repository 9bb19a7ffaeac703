-- ===== src/Block/Read.antt =====
-- file.c, block_read_iter: a read of a file that is copied up block by block.
pub mod Inner
pub mod Total
pub mod Hang
use fzz_overlay.Base.{
  ℕ, zero, suc, ◌+◌, ◌-◌, ◌*◌, ◌^◌, Bool, true, false, List, [], ◌∷◌, ◌++◌, ltb, ◌==◌,
  if◌then◌else◌, length,
}
use fzz_overlay.Base.Words.{u64, sub64}
use fzz_overlay.Vfs.{Res, ok, err, Vfs}
use fzz_overlay.Block.{
  Inode, Outcome, returns, fails, fault, loops, ◌>>=◌, ◌>>◌, open_upper, open_lower, use_upper,
  use_lower, status, get_block, block_size,
}

-- The variables of the loop: `iocb->ki_pos`, `count`, `lower_end`, and the bytes delivered, whose
-- number is `ret`.
pub record Cursor : Type 0 where
  pub pos : ℕ
  pub count : ℕ
  pub lower_end : Bool
  pub out : List ℕ

-- How an inner loop ends: `goto read_done`, or on with the outer loop.
pub data Exit : Type 0 where
  read_done go_on : Exit

module _ (v : Vfs) where
  -- `c_count -= cnt; ret += cnt; count -= cnt`, with the position moved by vfs_iter_read.
  abbrev pub advance : Cursor → List ℕ → Cursor
  advance c bs = record c {
    pos = c.pos + length bs;
    count = c.count - length bs;
    out = c.out ++ bs;
  }

  -- The inner loop over a copied block. `iter->count` is `c_count` in every round.
  pub read_upper : ℕ → v.File → ℕ → Cursor → Outcome Exit × Cursor
  read_upper zero f c_count c = ((if 0 == c_count then returns go_on else loops), c)
  read_upper (suc fuel) f c_count c =
      let got = elim (v.iter_read f c.pos c_count) as (λ _. Outcome Exit × Cursor) [
        | err e ↦ (returns go_on, c)
        | ok bs ↦
            let rest = read_upper fuel f (c_count - length bs) (advance c bs) in
            if length bs == 0 then (returns (if c.lower_end then read_done else go_on), c) else rest
      ] in
      if 0 == c_count then (returns go_on, c) else got

  -- The inner loop over a block that is not copied.
  pub read_lower : ℕ → v.File → ℕ → Cursor → Outcome Exit × Cursor
  read_lower zero f c_count c = ((if 0 == c_count then returns go_on else loops), c)
  read_lower (suc fuel) f c_count c =
      let got = elim (v.iter_read f c.pos c_count) as (λ _. Outcome Exit × Cursor) [
        | err e ↦ (returns go_on, c)
        | ok bs ↦
            let rest = read_lower fuel f (c_count - length bs) (advance c bs) in
            if length bs == 0 then (returns go_on, record c { lower_end = true }) else rest
      ] in
      if 0 == c_count then (returns go_on, c) else if c.lower_end then (returns go_on, c) else got

  -- How much of the request lies in the block of the position.
  unfoldable pub chunk : Cursor → ℕ
  chunk c =
      let start_block = get_block c.pos in
      if start_block == get_block (c.pos + c.count)
      then c.count
      else sub64 (u64 (start_block * block_size)) c.pos

  -- The read behind the counted blocks, which is the last one.
  abbrev pub read_tail : Cursor → Inode v → Res (List ℕ) → Outcome (Exit × Cursor) × Inode v
  read_tail c s (err e) = (returns (read_done, record c { out = [] }), s)
  read_tail c s (ok bs) = (returns (read_done, advance c bs), s)

  abbrev pub with_cursor : Outcome Exit × Cursor → Inode v → Outcome (Exit × Cursor) × Inode v
  with_cursor (returns x, c) s = (returns (x, c), s)
  with_cursor (fails e, c) s = (fails e, s)
  with_cursor (fault, c) s = (fault, s)
  with_cursor (loops, c) s = (loops, s)

  -- A block by its status: copied ones are read from the upper file, the others from the lower
  -- one, unless that has ended.
  unfoldable pub read_block : ℕ → Bool → Cursor → Inode v → Outcome (Exit × Cursor) × Inode v
  read_block fuel true c = do
    open_lower v
    use_lower v
    λ s. with_cursor (read_lower fuel s.lower (chunk c) c) s
  read_block fuel false c = do
    open_upper v
    use_upper v
    λ s. with_cursor (read_upper fuel s.upper (chunk c) c) s

  abbrev pub stop : Cursor → Inode v → Outcome (Exit × Cursor) × Inode v
  stop c s = (returns (read_done, c), s)

  -- Behind the counted blocks there is only the upper file.
  unfoldable pub read_behind : Cursor → Inode v → Outcome (Exit × Cursor) × Inode v
  read_behind c = do
    open_upper v
    use_upper v
    λ s. read_tail c s (v.iter_read s.upper c.pos c.count)

  abbrev pub by_status : ℕ → Cursor → Bool → Inode v → Outcome (Exit × Cursor) × Inode v
  by_status fuel c uncopied =
      if uncopied
      then (if c.lower_end then stop c else read_block fuel true c)
      else read_block fuel false c

  unfoldable pub read_inside : ℕ → Cursor → Inode v → Outcome (Exit × Cursor) × Inode v
  read_inside fuel c = do x ← status v (get_block c.pos); by_status fuel c (x == 0)

  -- One round of `while (count > 0)`.
  unfoldable pub read_round : ℕ → Cursor → Inode v → Outcome (Exit × Cursor) × Inode v
  read_round fuel c s =
      if ltb s.block_count (get_block c.pos) then read_behind c s else read_inside fuel c s

  -- The loop, with fuel for its rounds and for those of the inner loops.
  pub read_loop : ℕ → ℕ → Cursor → Inode v → Outcome Cursor × Inode v
  read_loop zero inner c s = (if 0 == c.count then (returns c) else loops, s)
  read_loop (suc fuel) inner c s =
      let r = read_round inner c s in
      let again = elim r.0 as (λ _. Outcome Cursor × Inode v) [
        | returns (x, c') ↦
            let rest = read_loop fuel inner c' r.1 in
            elim x [ read_done ↦ (returns c', r.1) | go_on ↦ rest ]
        | fails e ↦ (fails e, r.1)
        | fault ↦ (fault, r.1)
        | loops ↦ (loops, r.1)
      ] in
      if 0 == c.count then (returns c, s) else again

  -- A read of `count` bytes at `pos`, with fuel for the rounds. The return value is the number of
  -- the bytes delivered.
  unfoldable pub block_read_iter : ℕ → ℕ → ℕ → Inode v → Outcome Cursor × Inode v
  block_read_iter fuel pos count =
      read_loop fuel (suc count) (record { pos = pos; count = count; lower_end = false; out = [] })
