-- ===== src/Block/Finished.antt =====
-- A block copy-up from its start in ovl_copy_up_inode (copy_up.c) over the writes of
-- block_write_iter (file.c) to its end.
use fzz_overlay.Base.{
  ℕ, ◌+◌, ◌-◌, ◌≤◌, ◌<◌, ◌≡◌, true, false, ◌&&◌, List, [], ◌∷◌, length, get_or, ltb, leb,
  if◌then◌else◌,
}
use fzz_overlay.Vfs.{Vfs}
use fzz_overlay.Block.{Inode, returns, get_block}
use fzz_overlay.Block.View.{max_pos}
use fzz_overlay.Block.Write.{block_write_iter}

pub record Write : Type 0 where
  pub pos : ℕ
  pub bytes : List ℕ

-- The byte at `p` after the writes, in their order, to a file where it was `b`.
abbrev pub byte_after : List Write → ℕ → ℕ → ℕ
byte_after [] p b = b
byte_after (w ∷ ws) p b =
    byte_after ws p
      (if leb w.pos p && ltb p (w.pos + length w.bytes) then get_or w.bytes (p - w.pos) 0 else b)

module _ (v : Vfs) where
  abbrev pub write_all : List Write → Inode v → Inode v
  write_all [] s = s
  write_all (w ∷ ws) s = write_all ws (block_write_iter v false w.pos w.bytes s).1

  -- Each write finds the copy-up going on, writes inside the counted blocks, and returns a count.
  abbrev pub Proceeds : List Write → Inode v → Type 0
  Proceeds [] s = Unit
  Proceeds (w ∷ ws) s =
      (s.cow_status ≡ true)
      × (0 < length w.bytes)
      × (w.pos + length w.bytes ≤ max_pos)
      × (get_block (w.pos + length w.bytes) ≤ s.block_count)
      × ((n : ℕ) × ((block_write_iter v false w.pos w.bytes s).0 ≡ returns n))
      × Proceeds ws (block_write_iter v false w.pos w.bytes s).1
