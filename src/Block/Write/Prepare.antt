-- ===== src/Block/Write/Prepare.antt =====
-- The copies that block_write_iter (file.c) makes before it writes.
use fzz_overlay.Base.{
  ℕ, ◌+◌, ◌*◌, ◌≤◌, ◌<◌, ◌≡◌, ◌≢◌, refl, ◌⊎◌, inl, inr, arith, ltb, ◌==◌, length, Bool, Bool-cases,
  true, false, not, ◌&&◌, get_elem?-eq-get_or,
}
use fzz_overlay.Base.Words.{u64}
use fzz_overlay.Vfs.{Vfs, Laws}
use fzz_overlay.Block.{
  Inode, Handle, Outcome, returns, fails, get_block, block_begin, block_size, open_upper,
  open_lower, use_upper, use_lower, status,
}
use fzz_overlay.Block.Copy.Range.{Touched, copy_up_block_lem}
use fzz_overlay.Block.View.{Same, IsValid, status_of, max_pos, get_block_lem, block_begin_lem}
use fzz_overlay.Block.Write.{
  copy_up_one_block, block_len, copy_up, needs_copy, copy_if, prepare_end, prepare,
}

-- No invalid access, and no loop that does not end.
abbrev pub IsDefined {ℓ} : {A : Type ℓ} → Outcome A → Type 0
IsDefined (returns a) = Unit
IsDefined (fails e) = Unit
IsDefined _ = ⊥

module _ (v : Vfs) where
  block_len-le : (size off : ℕ) → block_len v size off ≤ 4096
  unfolding block_len
  block_len-le size off = ground arith

  block_len-covers :
      (size off q : ℕ)
      → size ≤ max_pos
      → off ≤ max_pos
      → q < off + 4096
      → q < size
      → q < off + block_len v size off
  unfolding block_len
  block_len-covers size off q hs ho h hq = ground arith

module _ (v : Vfs) (k : Laws v) (p : ℕ) where
  copy_up_one_block_range :
      (b : ℕ) (s : Inode v)
      → let (o, s1) = copy_up_one_block v b s in
        let len = block_len v (v.size s.lower) (block_begin b) in
        Same s s1
        × Touched v k s.lower p s.upper (block_begin b) len s1.upper
        × (o ≡ returns tt
            → block_begin b ≤ p
            → p < block_begin b + len
            → p < v.size s.lower
            → v.byte s1.upper p ≡ v.byte s.lower p)
        × (o ≡ returns tt → (s1.upper_file ≢ Handle.bad) × (s1.lower_file ≢ Handle.bad))
        × (s.upper_file ≢ Handle.bad → s.lower_file ≢ Handle.bad → IsDefined o)
  unfolding copy_up_one_block open_upper open_lower use_upper use_lower copy_up
  copy_up_one_block_range b s = ground (
    arith,
    copy_up_block_lem v k s.lower p s.upper (block_begin b)
        (block_len v (v.size s.lower) (block_begin b)),
  )

  in_block :
      (b : ℕ) → p ≤ max_pos → get_block p ≡ b → (block_begin b ≤ p) × (p < block_begin b + 4096)
  in_block b hp e = omega (
    arith,
    get_block_lem p hp,
    block_begin_lem b (omega (arith, get_block_lem p hp)) (omega (arith, get_block_lem p hp)),
  )

  of_block :
      (b : ℕ)
      → p ≤ max_pos
      → 0 < b
      → b * 4096 ≤ max_pos + 4096
      → block_begin b ≤ p
      → p < block_begin b + 4096
      → get_block p ≡ b
  of_block b hp h0 hb lo hi = omega (arith, get_block_lem p hp, block_begin_lem b h0 (omega arith))

  -- What one copy of block `b` does to the byte at `p`, by the block of `p`.
  pub record CopiesBlock (b : ℕ) (s : Inode v) (o : Outcome (Unit {0})) (s1 : Inode v)
      : Type 0 where
    pub same : Same s s1
    pub touched :
        (v.byte s1.upper p ≡ v.byte s.upper p)
        ⊎ ((get_block p ≡ b) × (v.byte s1.upper p ≡ v.byte s.lower p))
    pub filled :
        o ≡ returns tt → get_block p ≡ b → p < v.size s.lower → v.byte s1.upper p ≡ v.byte s.lower p
    pub handles : o ≡ returns tt → (s1.upper_file ≢ Handle.bad) × (s1.lower_file ≢ Handle.bad)
    pub defined : s.upper_file ≢ Handle.bad → s.lower_file ≢ Handle.bad → IsDefined o

  copy_up_one_block_lem :
      (b : ℕ) (s : Inode v)
      → p ≤ max_pos
      → v.size s.lower ≤ max_pos
      → 0 < b
      → b * 4096 ≤ max_pos + 4096
      → CopiesBlock b s (copy_up_one_block v b s).0 (copy_up_one_block v b s).1
  copy_up_one_block_lem b s hp hs h0 hb = ground (
    arith,
    copy_up_one_block_range b s,
    in_block b hp,
    of_block b hp h0 hb,
    block_len-le v (v.size s.lower) (block_begin b),
    block_len-covers v (v.size s.lower) (block_begin b) p hs,
    block_begin_lem b h0 (omega arith),
  )

module _ (v : Vfs) where
  -- Within the array the status is read, and nothing changes.
  needs_copy_lem :
      (c : Bool) (b : ℕ) (s : Inode v)
      → b < length s.block_status
      → needs_copy v c b s ≡ (returns (c && status_of s b == 0), s)
  unfolding needs_copy status
  needs_copy_lem false b s h = refl
  needs_copy_lem true b s h = rw (get_elem?-eq-get_or s.block_status b 0 h)

  -- The end of a write lies before the end of its last block.
  pub end_inside : (q : ℕ) → q ≤ max_pos → ltb q (u64 (get_block q * block_size)) ≡ true
  end_inside q h = ground (arith, get_block_lem q h)

module _ (v : Vfs) (k : Laws v) (p : ℕ) where
  -- The second half of the copies, by the byte at `p`.
  record PreparesEnd (partial : Bool) (pos count : ℕ) (s : Inode v) (o : Outcome (ℕ × ℕ))
      (s1 : Inode v) : Type 0 where
    same : Same s s1
    touched :
        (v.byte s1.upper p ≡ v.byte s.upper p)
        ⊎ ((get_block p ≡ get_block (pos + count))
            × (status_of s (get_block p) ≡ 0)
            × (v.byte s1.upper p ≡ v.byte s.lower p))
    blocks : (r : ℕ × ℕ) → o ≡ returns r → r ≡ (get_block pos, get_block (pos + count))
    filled :
        (r : ℕ × ℕ)
        → o ≡ returns r
        → status_of s (get_block p) ≡ 0
        → (partial && get_block (pos + count) == get_block pos) ≡ false
        → get_block p ≡ get_block (pos + count)
        → p < v.size s.lower
        → v.byte s1.upper p ≡ v.byte s.lower p
    handles :
        (r : ℕ × ℕ)
        → o ≡ returns r
        → s.upper_file ≢ Handle.bad
        → s.lower_file ≢ Handle.bad
        → (s1.upper_file ≢ Handle.bad) × (s1.lower_file ≢ Handle.bad)
    defined : s.upper_file ≢ Handle.bad → s.lower_file ≢ Handle.bad → IsDefined o

  prepare_end_lem :
      (partial : Bool) (pos count : ℕ) (s : Inode v)
      → p ≤ max_pos
      → v.size s.lower ≤ max_pos
      → pos + count ≤ max_pos
      → get_block (pos + count) < length s.block_status
      → PreparesEnd partial pos count s
          (prepare_end v partial pos count s).0
          (prepare_end v partial pos count s).1
  unfolding prepare_end copy_if
  prepare_end_lem partial pos count s hp hs hc hb =
      let b = get_block (pos + count) in
      let to = get_block_lem (pos + count) hc in
      let one = copy_up_one_block_lem v k p b s hp hs (omega (arith, to)) (omega (arith, to)) in
      rw (end_inside v (pos + count) hc) (
        rw (needs_copy_lem v true b s hb)
          (elim (Bool-cases (status_of s b == 0 && not (partial && b == get_block pos))) [
            | inl e ↦ rw e (ground (arith, one, e))
            | inr e ↦ rw e (ground (arith, e))
          ]))

  -- The copies before a write of `count` bytes at `pos`, by the byte at `p`.
  pub record Prepares (pos count : ℕ) (s : Inode v) (o : Outcome (ℕ × ℕ)) (s1 : Inode v)
      : Type 0 where
    pub same : Same s s1
    pub touched :
        (v.byte s1.upper p ≡ v.byte s.upper p)
        ⊎ ((get_block p ≤ s.block_count)
            × (status_of s (get_block p) ≡ 0)
            × (v.byte s1.upper p ≡ v.byte s.lower p))
    pub blocks : (r : ℕ × ℕ) → o ≡ returns r → r ≡ (get_block pos, get_block (pos + count))
    pub filled :
        (r : ℕ × ℕ)
        → o ≡ returns r
        → status_of s (get_block p) ≡ 0
        → ((get_block p ≡ get_block pos) × (p < pos))
          ⊎ ((get_block p ≡ get_block (pos + count)) × (pos + count ≤ p))
        → p < v.size s.lower
        → v.byte s1.upper p ≡ v.byte s.lower p
    pub handles :
        (r : ℕ × ℕ) → o ≡ returns r → (s1.upper_file ≢ Handle.bad) × (s1.lower_file ≢ Handle.bad)
    pub defined : IsDefined o

  pub prepare_lem :
      (pos count : ℕ) (s : Inode v)
      → IsValid s
      → p ≤ max_pos
      → v.size s.lower ≤ max_pos
      → pos + count ≤ max_pos
      → get_block (pos + count) ≤ s.block_count
      → Prepares pos count s (prepare v false pos count s).0 (prepare v false pos count s).1
  unfolding prepare copy_if
  prepare_lem pos count s i hp hs hc hb =
      let b = get_block pos in
      let e = get_block (pos + count) in
      let at = get_block_lem pos (omega arith) in
      let to = get_block_lem (pos + count) hc in
      let begin = block_begin_lem b (omega (arith, at)) (omega (arith, at)) in
      let whose = in_block v k p b hp in
      let one = copy_up_one_block_lem v k p b s hp hs (omega (arith, at)) (omega (arith, at)) in
      let s' = (copy_up_one_block v b s).1 in
      rw (needs_copy_lem v (ltb (block_begin b) pos) b s (omega (arith, i.counted, at, to)))
        (elim (Bool-cases (ltb (block_begin b) pos && status_of s b == 0)) [
          | inl c ↦
              let rest =
                prepare_end_lem true pos count s' hp (rw one.same.lower hs) hc
                  (rw one.same.block_status (omega (arith, i.counted))) in
              rw c (ground (arith, one, rest, c, i.lower_usable, i.upper_usable))
          | inr c ↦
              let rest = prepare_end_lem false pos count s hp hs hc (omega (arith, i.counted)) in
              rw c (ground (arith, rest, c, begin, whose))
        ])
