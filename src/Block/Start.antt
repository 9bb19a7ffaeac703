-- ===== src/Block/Start.antt =====
-- copy_up.c, ovl_copy_up_inode: how a regular file comes under block copy-up.
use fzz_overlay.Base.{
  ℕ, zero, suc, ◌+◌, ◌*◌, ◌/◌, ◌%◌, ◌^◌, ◌≤◌, ◌<◌, ◌≡◌, refl, Bool, true, false, not, ◌&&◌, arith,
  ◌==◌, if◌then◌else◌, replicate, length-replicate, get_or-replicate,
}
use fzz_overlay.Base.Words.{u32}
use fzz_overlay.Vfs.{Vfs, Laws, Res, ok, err}
use fzz_overlay.Block.{Inode, Handle, block_size, get_block}
use fzz_overlay.Block.View.{IsValid, view, max_pos, get_block_lem}
use fzz_overlay.Block.Write.Invariant.{IsCounted}
use fzz_overlay.Block.Write.Mark.{count_copied}

abbrev pub enomem : ℕ
enomem = 12

-- `size % BLOCK_SIZE ? size / BLOCK_SIZE + 1 : size / BLOCK_SIZE`, stored in an unsigned int.
unfoldable pub blocks_of : ℕ → ℕ
blocks_of size = u32 (if size % block_size == 0 then size / block_size else size / block_size + 1)

pos_test : (n : ℕ) → 0 < n → (n == 0) ≡ false
pos_test n h = ground arith

module _ (v : Vfs) where
  -- The first step of ovl_copy_up_inode: `regular`, `metacopy` and `size` are those of the context,
  -- and `allocated` says whether kmalloc gave memory.
  unfoldable pub start_blocks : Bool → Bool → ℕ → Bool → Inode v → Res (Unit {0}) × Inode v
  start_blocks regular metacopy size allocated s =
      let counting = record s { cow_status = true; block_count = blocks_of size } in
      let cleared = record s {
        cow_status = true;
        block_count = blocks_of size;
        block_status = replicate (blocks_of size + 1) 0;
      } in
      if regular && not metacopy && not (size == 0)
      then (if allocated then (ok tt, cleared) else (err enomem, counting))
      else (ok tt, s)

  count_copied-replicate : (n : ℕ) → count_copied (replicate n 0) ≡ 0
  unfolding count_copied
  count_copied-replicate zero = refl
  count_copied-replicate (suc n) = count_copied-replicate n

  -- The blocks counted cover the file, and no more.
  pub blocks_of_bounds :
      (size : ℕ)
      → size < 2 ^ 43
      → (size ≤ blocks_of size * 4096) × (blocks_of size * 4096 < size + 4096)
  unfolding blocks_of
  blocks_of_bounds size h = ground arith

  -- A copy-up of a lower file of at most 8 TiB into an empty upper file, by a fresh inode: the
  -- inode is valid and its blocks are counted, and a reader is promised the lower file, behind its
  -- end too.
  pub start_blocks-view :
      (k : Laws v) (s : Inode v) (p : ℕ)
      → s.lower_file ≡ Handle.closed
      → s.upper_file ≡ Handle.closed
      → s.copy_count ≡ 0
      → ((q : ℕ) → v.byte s.upper q ≡ 0)
      → 0 < v.size s.lower
      → v.size s.lower < 2 ^ 43
      → p ≤ max_pos
      → let (r, s') = start_blocks true false (v.size s.lower) true s in
        (r ≡ ok tt) × IsValid s' × IsCounted s' × (view s' p ≡ v.byte s.lower p)
  unfolding start_blocks view
  start_blocks-view k s p hl hu hc empty h0 hs hp =
      let b = blocks_of (v.size s.lower) in
      let bounds = blocks_of_bounds (v.size s.lower) hs in
      let zeros = λ (i : ℕ). get_or-replicate {A = ℕ} (b + 1) i 0 in
      let past = k.past_end s.lower p in
      let whole = length-replicate {A = ℕ} (b + 1) 0 in
      let none = count_copied-replicate (b + 1) in
      rw (pos_test (v.size s.lower) h0) (
        refl,
        record {
          counted = whole;
          fits = omega (arith, bounds);
          lower_usable = ground (arith, hl);
          upper_usable = ground (arith, hu);
          hole = λ q hq hz hb z. empty q;
        },
        record { count = omega (arith, none, hc); unused = zeros 0; ended = λ e. cc },
        ground (arith, zeros (get_block p), empty p, past, bounds, get_block_lem p hp),
      )
