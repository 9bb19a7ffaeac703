-- ===== src/Block/Read/Inner.antt =====
-- The inner loops of block_read_iter (file.c) deliver the whole of what they are asked for.
use fzz_overlay.Base.{
  ℕ, zero, suc, ◌+◌, ◌-◌, ◌≤◌, ◌<◌, ◌≡◌, ◌≢◌, refl, Bool-cases, false, List, arith, ltb, ltb→lt,
  ltb→ge, ◌∙◌, ap, length, get_or, inl, inr, length-append, length-eq-zero, get_or-append_left,
  get_or-append_right,
}
use fzz_overlay.Vfs.{Vfs, Laws, Res, Access}
use fzz_overlay.Block.{Inode, Outcome, returns, get_block}
use fzz_overlay.Block.View.{status_of}
use fzz_overlay.Block.Copy.Range.{Res-cases}
use fzz_overlay.Block.Read.{Cursor, Exit, go_on, advance, read_upper, read_lower}

module _ (v : Vfs) where
  -- A kernel that reads without errors. A read may still be short.
  abbrev pub ReadsAlways : Type 0
  ReadsAlways = (f : v.File) (pos n e : ℕ) → v.iter_read f pos n ≢ Res.err e

  -- The position can be read: the file that its block is read from goes on behind it.
  abbrev pub Served : Inode v → ℕ → Type 0
  Served s p =
      (get_block p ≤ s.block_count)
      × (status_of s (get_block p) ≡ 0 → p < v.size s.lower)
      × (status_of s (get_block p) ≢ 0 → p < v.size s.upper)

  -- The kernel opens the files.
  abbrev pub OpensAlways : Type 0
  OpensAlways = (a : Access) (f : v.File) (e : ℕ) → v.dentry_open a f ≢ Res.err e

module _ (v : Vfs) (k : Laws v) (i : ℕ) where
  -- `c'` is `c` moved on by `n` bytes of `byte`, seen at the index `i` of what was delivered.
  pub record Moved (byte : ℕ → ℕ) (n : ℕ) (c c' : Cursor) : Type 0 where
    pub pos : c'.pos ≡ c.pos + n
    pub count : c'.count ≡ c.count - n
    pub lower_end : c'.lower_end ≡ c.lower_end
    pub size : length c'.out ≡ length c.out + n
    pub old : i < length c.out → get_or c'.out i 0 ≡ get_or c.out i 0
    pub new :
        length c.out ≤ i
        → i < length c.out + n
        → get_or c'.out i 0 ≡ byte (c.pos + (i - length c.out))

  pub advance-Moved :
      (f : v.File) (c : Cursor) (n : ℕ) (bs : List ℕ)
      → v.iter_read f c.pos n ≡ Res.ok bs
      → Moved (v.byte f) (length bs) c (advance v c bs)
  advance-Moved f c n bs e = ground (
    arith,
    length-append c.out bs,
    get_or-append_left c.out bs i 0,
    get_or-append_right c.out bs i 0,
    k.read_bytes f c.pos n bs e (i - length c.out),
  )

  pub Moved-trans :
      (byte : ℕ → ℕ) (m n : ℕ) (c c' c'' : Cursor)
      → Moved byte m c c'
      → Moved byte n c' c''
      → Moved byte (m + n) c c''
  Moved-trans byte m n c c' c'' a b = record {
    pos = omega (arith, a.pos, b.pos);
    count = omega (arith, a.count, b.count);
    lower_end = ground (arith, a.lower_end, b.lower_end);
    size = omega (arith, a.size, b.size);
    old = λ h. ground (arith, a, b);
    new = λ h h'. elim (Bool-cases (ltb i (length c'.out))) [
      | inl e ↦ b.old (ltb→lt _ _ e) ∙ a.new h (omega (arith, a.size, ltb→lt _ _ e))
      | inr e ↦
          let g = ltb→ge i (length c'.out) e in
          b.new g (omega (arith, a.size)) ∙ ap byte (omega (arith, a.pos, a.size, g))
    ];
  }

  -- A read that is asked for something before the end delivers something.
  read_some :
      (always : ReadsAlways v) (f : v.File) (pos n : ℕ)
      → 0 < n
      → pos < v.size f
      → (bs : List ℕ) × (v.iter_read f pos n ≡ Res.ok bs) × (0 < length bs) × (length bs ≤ n)
  read_some always f pos n hn hp = elim (Res-cases (v.iter_read f pos n)) [
    | inl (bs, e) ↦ (
      bs,
      e,
      elim (Bool-cases (ltb 0 (length bs))) [
        | inl q ↦ ltb→lt _ _ q
        | inr q ↦
            let none : length bs ≡ 0 = omega (arith, ltb→ge 0 (length bs) q) in
            absurd (omega (arith, k.read_end f pos n hn (rw (length-eq-zero bs none) at e)))
      ],
      k.read_short f pos n bs e,
    )
    | inr (x, e) ↦ absurd (always f pos n x e)
  ]

  -- An inner loop over a block delivers the whole of it.
  abbrev Delivers : v.File → ℕ → Cursor → Outcome Exit × Cursor → Type 0
  Delivers f n c (o, c') = (o ≡ returns go_on) × Moved (v.byte f) n c c'

  pub Moved-zero : (byte : ℕ → ℕ) (c : Cursor) → Moved byte 0 c c
  Moved-zero byte c = ground arith

  pub read_upper_lem :
      (always : ReadsAlways v) (fuel : ℕ) (f : v.File) (n : ℕ) (c : Cursor)
      → n ≤ fuel
      → c.pos + n ≤ v.size f
      → Delivers f n c (read_upper v fuel f n c)
  unfolding read_upper
  read_upper_lem always zero f zero c hf hs = (refl, Moved-zero (v.byte f) c)
  read_upper_lem always (suc fuel) f zero c hf hs = (refl, Moved-zero (v.byte f) c)
  read_upper_lem always zero f (suc n) c hf hs = absurd (omega arith)
  read_upper_lem always (suc fuel) f (suc n) c hf hs =
      let (bs, e, some, short) = read_some always f c.pos (suc n) (omega arith) (omega arith) in
      let c' = advance v c bs in
      let rest = read_upper_lem always fuel f (suc n - length bs) c' (omega arith) (omega arith) in
      let one = advance-Moved f c (suc n) bs e in
      let all = Moved-trans (v.byte f) (length bs) (suc n - length bs) c c' _ one rest.1 in
      rw e (ground (arith, some, rest.0, all))

  pub read_lower_lem :
      (always : ReadsAlways v) (fuel : ℕ) (f : v.File) (n : ℕ) (c : Cursor)
      → n ≤ fuel
      → c.pos + n ≤ v.size f
      → c.lower_end ≡ false
      → Delivers f n c (read_lower v fuel f n c)
  unfolding read_lower
  read_lower_lem always zero f zero c hf hs hl = (refl, Moved-zero (v.byte f) c)
  read_lower_lem always (suc fuel) f zero c hf hs hl = (refl, Moved-zero (v.byte f) c)
  read_lower_lem always zero f (suc n) c hf hs hl = absurd (omega arith)
  read_lower_lem always (suc fuel) f (suc n) c hf hs hl =
      let (bs, e, some, short) = read_some always f c.pos (suc n) (omega arith) (omega arith) in
      let c' = advance v c bs in
      let rest =
        read_lower_lem always fuel f (suc n - length bs) c' (omega arith) (omega arith) hl in
      let one = advance-Moved f c (suc n) bs e in
      let all = Moved-trans (v.byte f) (length bs) (suc n - length bs) c c' _ one rest.1 in
      rw e (ground (arith, some, rest.0, all))

  pub Moved-by :
      (f g : ℕ → ℕ) (n : ℕ) (c c' : Cursor)
      → ((q : ℕ) → c.pos ≤ q → q < c.pos + n → f q ≡ g q)
      → Moved f n c c'
      → Moved g n c c'
  Moved-by f g n c c' h m = ground (arith, m, h (c.pos + (i - length c.out)))
