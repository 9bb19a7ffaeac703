-- ===== src/Block/Read/Total.antt =====
-- block_read_iter (file.c) ends and delivers what is promised, where the real files can be read.
use fzz_overlay.Base.{ℕ, ◌+◌, ◌≤◌, ◌<◌, ◌≡◌, ◌≢◌, arith}
use fzz_overlay.Vfs.{Vfs, Laws}
use fzz_overlay.Block.{Inode, Handle, Outcome, returns}
use fzz_overlay.Block.View.{view, Same, max_pos, get_block_lem}
use fzz_overlay.Block.Read.{Cursor, Exit, go_on, chunk, read_loop}
use fzz_overlay.Block.Read.Inner.{Moved}

module _ (v : Vfs) (k : Laws v) (i : ℕ) where
  pub record Ready (s s' : Inode v) : Type 0 where
    pub same : Same s s'
    pub upper : s'.upper ≡ s.upper
    pub lower_usable : s'.lower_file ≢ Handle.bad
    pub upper_usable : s'.upper_file ≢ Handle.bad

  -- A chunk is not empty, is no more than is asked for, and lies in one block.
  pub chunk_lem :
      (c : Cursor)
      → 0 < c.count
      → c.pos + c.count ≤ max_pos
      → (0 < chunk v c) × (chunk v c ≤ c.count)
  unfolding chunk
  chunk_lem c h0 hm =
      ground (arith, get_block_lem c.pos (omega arith), get_block_lem (c.pos + c.count) hm)

  -- One round inside the counted blocks.
  record Round (n : ℕ) (c : Cursor) (s : Inode v) (r : Outcome (Exit × Cursor) × Inode v)
      : Type 0 where
    outcome : (c' : Cursor) × (r.0 ≡ returns (go_on, c')) × Moved v k i (view s) n c c'
    ready : Ready s r.1

  -- The loop from a cursor delivers what is left of the request.
  abbrev pub Delivered : ℕ → ℕ → Cursor → Inode v → Type 0
  Delivered fuel inner c s =
      (c' : Cursor) × ((read_loop v fuel inner c s).0 ≡ returns c')
      × Moved v k i (view s) c.count c c'
