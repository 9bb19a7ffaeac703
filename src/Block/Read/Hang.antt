-- ===== src/Block/Read/Hang.antt =====
-- block_read_iter (file.c) at the end of a copied last block.
use fzz_overlay.Base.{
  ℕ, zero, suc, ◌+◌, ◌≤◌, ◌<◌, ◌≡◌, ◌≢◌, ap, false, [], arith, length, get_elem?-eq-get_or,
}
use fzz_overlay.Vfs.{Vfs, Laws}
use fzz_overlay.Block.{Inode, Handle, returns, loops, get_block, open_upper, use_upper, status}
use fzz_overlay.Block.View.{status_of, max_pos}
use fzz_overlay.Block.Read.{
  Cursor, go_on, read_upper, chunk, read_block, read_inside, read_round, read_loop, block_read_iter,
}
use fzz_overlay.Block.Read.Total.{chunk_lem}

module _ (v : Vfs) (k : Laws v) (c : Cursor) (s : Inode v) where
  -- The position lies in a copied block, at or behind the end of the open upper file.
  pub record IsStuck : Type 0 where
    pub opened : s.upper_file ≡ Handle.opened
    pub counted : length s.block_status ≡ s.block_count + 1
    pub inside : get_block c.pos ≤ s.block_count
    pub copied : status_of s (get_block c.pos) ≢ 0
    pub at_end : v.size s.upper ≤ c.pos
    pub more : 0 < c.count
    pub fits : c.pos + c.count ≤ max_pos
    pub not_ended : c.lower_end ≡ false

  stuck_upper :
      (fuel n : ℕ) → IsStuck → 0 < n → read_upper v (suc fuel) s.upper n c ≡ (returns go_on, c)
  unfolding read_upper
  stuck_upper fuel n h hn = rw (k.read_at_end s.upper c.pos n h.at_end) (ground (arith, h))

  -- A round delivers nothing and goes on with the same cursor and the same inode.
  stuck_round : (fuel : ℕ) → IsStuck → read_round v (suc fuel) c s ≡ (returns (go_on, c), s)
  unfolding read_round read_inside read_block status open_upper use_upper
  stuck_round fuel h =
      let n = chunk_lem v k 0 c h.more h.fits in
      ground (
        arith,
        h,
        stuck_upper fuel (chunk v c) h n.0,
        get_elem?-eq-get_or s.block_status (get_block c.pos) 0 (omega (arith, h.counted, h.inside)),
      )

  stuck_loop : (fuel inner : ℕ) → IsStuck → read_loop v fuel (suc inner) c s ≡ (loops, s)
  unfolding read_loop
  stuck_loop zero inner h = ground (arith, h)
  stuck_loop (suc fuel) inner h =
      let r = stuck_round inner h in
      let stays : (read_round v (suc inner) c s).1 ≡ s = ap (λ t. t.1) r in
      let goes : (read_round v (suc inner) c s).0 ≡ returns (go_on, c) = ap (λ t. t.0) r in
      rw goes (rw stays (rw (stuck_loop fuel inner h) (ground (arith, h.more))))

-- A read that starts at or behind the end of the upper file, in a counted block that is copied,
-- never ends: whatever the fuel, it runs out of it. The loop leaves a copied block at its end only
-- if the lower file has ended before.
pub block_read_iter_hangs :
    (v : Vfs) (k : Laws v) (fuel pos count : ℕ) (s : Inode v)
    → IsStuck v k (record { pos = pos; count = count; lower_end = false; out = [] }) s
    → block_read_iter v fuel pos count s ≡ (loops, s)
unfolding block_read_iter
block_read_iter_hangs v k fuel pos count s h =
    stuck_loop v k (record { pos = pos; count = count; lower_end = false; out = [] }) s fuel count h
