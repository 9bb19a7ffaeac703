-- ===== src/Block/Write/Mark.antt =====
-- The loops of block_write_iter (file.c) behind the label copy_done: the write, and the marks.
use fzz_overlay.Base.{
  ℕ, zero, suc, ◌+◌, ◌^◌, ◌≤◌, ◌<◌, ◌≡◌, ◌⊎◌, refl, ◌∙◌, ap, Bool, Bool-cases, ◌&&◌, List, [], ◌∷◌,
  arith, ltb, leb, ltb→ge, ltb→lt, lt→ltb, ◌==◌, if◌then◌else◌, length, get_or, set, drop, inl, inr,
  length-drop, length-set, get_or-set_self, get_or-set_ne, get_elem?-eq-get_or,
}
use fzz_overlay.Base.Words.{u32}
use fzz_overlay.Vfs.{Vfs, Laws, Res, Wrote}
use fzz_overlay.Block.{Inode, returns, fails, copied}
use fzz_overlay.Block.Copy.Range.{Res-cases}
use fzz_overlay.Block.View.{status_of}
use fzz_overlay.Block.Write.{write_loop, mark_blocks}

-- How many blocks are not uncopied.
unfoldable pub count_copied : List ℕ → ℕ
count_copied [] = 0
count_copied (x ∷ xs) = if x == 0 then count_copied xs else suc (count_copied xs)

count_copied-set :
    (xs : List ℕ) (i : ℕ)
    → i < length xs
    → get_or xs i 0 ≡ 0
    → count_copied (set xs i copied) ≡ suc (count_copied xs)
unfolding count_copied
count_copied-set [] i h e = absurd (omega arith)
count_copied-set (x ∷ xs) zero h e = ground arith
count_copied-set (x ∷ xs) (suc i) h e = ground (arith, count_copied-set xs i)

pub count_copied-le : (xs : List ℕ) → count_copied xs ≤ length xs
unfolding count_copied
count_copied-le [] = omega arith
count_copied-le (x ∷ xs) = ground (arith, count_copied-le xs)

-- With a status that is 0 at some place, not all are counted.
pub count_copied-lt :
    (xs : List ℕ) (i : ℕ) → i < length xs → get_or xs i 0 ≡ 0 → count_copied xs < length xs
unfolding count_copied
count_copied-lt [] i h e = absurd (omega arith)
count_copied-lt (x ∷ xs) zero h e = ground (arith, count_copied-le xs)
count_copied-lt (x ∷ xs) (suc i) h e = ground (arith, count_copied-lt xs i)

module _ (v : Vfs) where
  -- The fields that the marks leave alone.
  pub record Unmarked (s s' : Inode v) : Type 0 where
    pub block_count : s'.block_count ≡ s.block_count
    pub length_same : length s'.block_status ≡ length s.block_status
    pub lower : s'.lower ≡ s.lower
    pub upper : s'.upper ≡ s.upper
    pub lower_file : s'.lower_file ≡ s.lower_file
    pub upper_file : s'.upper_file ≡ s.upper_file
    pub cow_status : s'.cow_status ≡ s.cow_status

  -- What one round of the loop leaves.
  mark_one : ℕ → Inode v → Inode v
  mark_one i s =
      if status_of s i == 0
      then record s {
        block_status = set s.block_status i copied;
        copy_count = u32 (s.copy_count + 1);
      }
      else s

  mark_one_lem :
      (j i : ℕ) (s : Inode v)
      → i < length s.block_status
      → Unmarked s (mark_one i s)
        × (status_of (mark_one i s) j
            ≡ (if i == j && status_of s j == 0 then copied else status_of s j))
  unfolding mark_one
  mark_one_lem j i s h = ground (
    arith,
    length-set s.block_status i copied,
    get_or-set_self s.block_status i copied 0,
    get_or-set_ne s.block_status i j copied 0,
  )

  mark_one-count :
      (i : ℕ) (s : Inode v)
      → i < length s.block_status
      → length s.block_status < 2 ^ 32
      → s.copy_count ≡ count_copied s.block_status
      → (mark_one i s).copy_count ≡ count_copied (mark_one i s).block_status
  unfolding mark_one
  mark_one-count i s h hl e =
      ground (arith, count_copied-set s.block_status i h, count_copied-lt s.block_status i h)

  mark_blocks_step :
      (rounds i : ℕ) (s : Inode v)
      → length s.block_status ≡ s.block_count + 1
      → mark_blocks v (suc rounds) i s ≡ (
          if ltb s.block_count i
          then (returns tt, s)
          else mark_blocks v rounds (i + 1) (mark_one i s))
  unfolding mark_blocks mark_one
  mark_blocks_step rounds i s h = elim (Bool-cases (ltb s.block_count i)) [
    | inl e ↦ rw e
    | inr e ↦
        rw e (rw (get_elem?-eq-get_or s.block_status i 0 (omega (arith, ltb→ge s.block_count i e))))
  ]

  -- The marks: every block of the range that is counted and not copied becomes copied, no other
  -- status changes, and the loop ends.
  pub mark_blocks_lem :
      (j rounds i : ℕ) (s : Inode v)
      → length s.block_status ≡ s.block_count + 1
      → let (o, s') = mark_blocks v rounds i s in
        (o ≡ returns tt)
        × Unmarked s s'
        × (status_of s' j ≡ (
            if leb i j && ltb j (i + rounds) && leb j s.block_count && status_of s j == 0
            then copied
            else status_of s j))
  mark_blocks_lem j zero i s h = unfold mark_blocks in ground arith
  mark_blocks_lem j (suc rounds) i s h =
      rw (mark_blocks_step rounds i s h) (elim (Bool-cases (ltb s.block_count i)) [
        | inl e ↦ rw e (ground (arith, ltb→lt s.block_count i e))
        | inr e ↦
            let bound = ltb→ge s.block_count i e in
            let one = mark_one_lem j i s (omega arith) in
            let rest =
              mark_blocks_lem j rounds (i + 1) (mark_one i s)
                (omega (arith, one.0.length_same, one.0.block_count)) in
            rw e (ground (arith, one, rest, bound))
      ])

  -- `copy_count` keeps the number of copied blocks.
  pub mark_blocks-count :
      (rounds i : ℕ) (s : Inode v)
      → length s.block_status ≡ s.block_count + 1
      → s.block_count + 1 < 2 ^ 32
      → s.copy_count ≡ count_copied s.block_status
      → let s' = (mark_blocks v rounds i s).1 in s'.copy_count ≡ count_copied s'.block_status
  mark_blocks-count zero i s h hb e = unfold mark_blocks in e
  mark_blocks-count (suc rounds) i s h hb e =
      rw (mark_blocks_step rounds i s h) (elim (Bool-cases (ltb s.block_count i)) [
        | inl c ↦ rw c e
        | inr c ↦
            let bound = ltb→ge s.block_count i c in
            let one = mark_one_lem 0 i s (omega arith) in
            let kept = mark_one-count i s (omega arith) (omega arith) e in
            rw c (
              mark_blocks-count rounds (i + 1) (mark_one i s)
                (omega (arith, one.0.length_same, one.0.block_count))
                (omega (arith, one.0.block_count)) kept)
      ])

  -- A kernel whose writes take all or fail.
  abbrev pub WritesAll : Type 0
  WritesAll =
      (a : Bool) (f : v.File) (pos : ℕ) (ds : List ℕ) (n : ℕ) (f' : v.File)
      → v.iter_write a f pos ds ≡ Res.ok (n, f')
      → n ≡ length ds

  write_loop_done :
      (append : Bool) (fuel ret pos : ℕ) (ds : List ℕ) (s : Inode v)
      → length ds ≤ ret
      → write_loop v fuel append ret pos ds s ≡ (returns ret, s)
  unfolding write_loop
  write_loop_done append zero ret pos ds s h = ground arith
  write_loop_done append (suc fuel) ret pos ds s h = ground arith

  -- The write loop then makes one call: it fails with -1 and leaves the file, or writes all.
  pub write_loop_lem :
      (k : Laws v) (all : WritesAll) (append : Bool) (pos : ℕ) (ds : List ℕ) (s : Inode v)
      → 0 < length ds
      → (write_loop v (suc (length ds)) append 0 pos ds s ≡ (fails 1, s))
        ⊎ ((f' : v.File) × (write_loop v (suc (length ds)) append 0 pos ds s
              ≡ (returns (length ds), record s { upper = f' }))
            × Wrote v s.upper (if append then v.size s.upper else pos) ds (length ds) f')
  unfolding write_loop
  write_loop_lem k all append pos ds s h = elim (Res-cases (v.iter_write append s.upper pos ds)) [
    | inl (r, e) ↦
        let w = k.write_lem append s.upper pos ds r.0 r.1 e in
        let n = all append s.upper pos ds r.0 r.1 e in
        let at = if append then v.size s.upper else pos in
        let left : length (drop r.0 ds) ≤ 0 + r.0 = omega (arith, length-drop r.0 ds, n) in
        let done =
          write_loop_done append (length ds) (0 + r.0) (at + r.0) (drop r.0 ds)
            (record s { upper = r.1 }) left in
        let ret : 0 + r.0 ≡ length ds = omega (arith, n) in
        rw (lt→ltb 0 (length ds) h)
          (rw e (inr (r.1, done ∙ ap (λ z. (returns z, record s { upper = r.1 })) ret, rw (← n) w)))
    | inr (x, e) ↦ rw (lt→ltb 0 (length ds) h) (rw e (inl refl))
  ]
