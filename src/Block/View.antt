-- ===== src/Block/View.antt =====
-- What a reader of a file under block copy-up is promised: each byte comes from the upper file
-- where its block is copied or lies behind the blocks counted, and from the lower file elsewhere.
use fzz_overlay.Base.{
  ℕ, ◌+◌, ◌*◌, ◌-◌, ◌/◌, ◌^◌, ◌≤◌, ◌<◌, ◌≡◌, ◌≢◌, arith, ltb, ◌==◌, if◌then◌else◌, length, get_or,
}
use fzz_overlay.Vfs.{Vfs}
use fzz_overlay.Block.{Inode, Handle, get_block, block_begin}

-- Positions are of type loff_t and not negative.
abbrev pub max_pos : ℕ
max_pos = 2 ^ 63

pub get_block_lem : (p : ℕ) → p ≤ max_pos → get_block p ≡ p / 4096 + 1
unfolding get_block
get_block_lem p h = omega arith

pub block_begin_lem : (b : ℕ) → 0 < b → b * 4096 < 2 ^ 64 → block_begin b ≡ (b - 1) * 4096
unfolding block_begin
block_begin_lem b h k = omega arith

module _ {v : Vfs} where
  abbrev pub status_of : Inode v → ℕ → ℕ
  status_of s b = get_or s.block_status b 0

  unfoldable pub view : Inode v → ℕ → ℕ
  view s p =
      if ltb s.block_count (get_block p)
      then v.byte s.upper p
      else if status_of s (get_block p) == 0
      then v.byte s.lower p
      else v.byte s.upper p

  -- An inode under block copy-up: one status for each block and one for the unused block 0, no
  -- handle that a failed open left, and nothing in the upper file behind the end of the lower one
  -- in a block that is not copied.
  pub record IsValid (s : Inode v) : Type 0 where
    pub counted : length s.block_status ≡ s.block_count + 1
    pub fits : s.block_count + 1 < 2 ^ 32
    pub lower_usable : s.lower_file ≢ Handle.bad
    pub upper_usable : s.upper_file ≢ Handle.bad
    pub hole :
        (p : ℕ)
        → p ≤ max_pos
        → v.size s.lower ≤ p
        → get_block p ≤ s.block_count
        → status_of s (get_block p) ≡ 0
        → v.byte s.upper p ≡ 0

  -- What the copies before a write leave alone.
  pub record Same (s s1 : Inode v) : Type 0 where
    pub block_count : s1.block_count ≡ s.block_count
    pub copy_count : s1.copy_count ≡ s.copy_count
    pub cow_status : s1.cow_status ≡ s.cow_status
    pub block_status : s1.block_status ≡ s.block_status
    pub lower : s1.lower ≡ s.lower
    pub meta_fifo : s1.meta_fifo ≡ s.meta_fifo
