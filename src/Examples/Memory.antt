-- ===== src/Examples/Memory.antt =====
-- A kernel that keeps files in memory meets what is assumed of the real one.
use fzz_overlay.Base.{
  ℕ, zero, suc, ◌+◌, ◌-◌, ◌≤◌, ◌<◌, ◌≡◌, refl, ap, false, ◌&&◌, List, [], ◌∷◌, arith, ltb, leb,
  if◌then◌else◌, length, get_or, min, max,
}
use fzz_overlay.Vfs.{ok, err, Vfs, Laws, Wrote, Copied}

-- A size, and the bytes below it.
pub record Mem : Type 0 where
  pub size : ℕ
  pub at : ℕ → ℕ

abbrev byte : Mem → ℕ → ℕ
byte f q = if ltb q f.size then f.at q else 0

abbrev slice : Mem → ℕ → ℕ → List ℕ
slice f pos zero = []
slice f pos (suc n) = byte f pos ∷ slice f (pos + 1) n

length-slice : (f : Mem) (pos n : ℕ) → length (slice f pos n) ≡ n
length-slice f pos zero = refl
length-slice f pos (suc n) = omega (arith, length-slice f (pos + 1) n)

get_or-slice : (f : Mem) (pos n i : ℕ) → i < n → get_or (slice f pos n) i 0 ≡ byte f (pos + i)
get_or-slice f pos zero i h = elim h [ ]
get_or-slice f pos (suc n) zero h = ground arith
get_or-slice f pos (suc n) (suc i) h = ground (arith, get_or-slice f (pos + 1) n i)

abbrev write_at : Mem → ℕ → List ℕ → Mem
write_at f pos ds = record {
  size = max f.size (pos + length ds);
  at = λ q. if leb pos q && ltb q (pos + length ds) then get_or ds (q - pos) 0 else byte f q;
}

abbrev splice_at : Mem → Mem → ℕ → ℕ → Mem
splice_at l u pos n = record {
  size = max u.size (pos + n);
  at = λ q. if leb pos q && ltb q (pos + n) then byte l q else byte u q;
}

-- No clones, no signals, no errors, and a queue with room.
abbrev pub memory : Vfs
memory = record {
  File = Mem;
  size = λ f. f.size;
  byte = byte;
  iter_read = λ f pos n. ok (slice f pos (min n (f.size - pos)));
  iter_write = λ a f pos ds. ok (length ds, write_at f (if a then f.size else pos) ds);
  clone_range = λ l u pos len. err 95;
  splice_direct =
      λ l u pos len. ok (min len (l.size - pos), splice_at l u pos (min len (l.size - pos)));
  signal_pending = λ len. false;
  dentry_open = λ a f. ok tt;
  fifo_full = λ q. false;
}

write_at-Wrote :
    (f : Mem) (pos : ℕ) (ds : List ℕ) → Wrote memory f pos ds (length ds) (write_at f pos ds)
write_at-Wrote f pos ds = record {
  short = omega arith;
  inside = λ q lo hi. ground arith;
  before = λ q h. ground arith;
  after = λ q h. ground arith;
}

splice_at-Copied :
    (l u : Mem) (pos len n : ℕ) → n ≤ len → Copied memory l u pos len n (splice_at l u pos n)
splice_at-Copied l u pos len n h = record {
  short = h;
  inside = λ q lo hi. ground arith;
  before = λ q k. ground arith;
  after = λ q k. ground arith;
}

slice-nil : (f : Mem) (pos n : ℕ) → slice f pos n ≡ [] → n ≡ 0
slice-nil f pos zero e = refl
slice-nil f pos (suc n) e = cc

pub memory-Laws : Laws memory
memory-Laws = record {
  past_end = λ f q h. ground arith;
  read_short = λ f pos n bs e.
      let m = min n (f.size - pos) in
      let b : bs ≡ slice f pos m = cc in rw b (omega (arith, length-slice f pos m));
  read_bytes = λ f pos n bs e i h.
      let m = min n (f.size - pos) in
      let b : bs ≡ slice f pos m = cc in
      rw b (get_or-slice f pos m i (omega (arith, ap length b, length-slice f pos m)));
  read_at_end = λ f pos n h.
      let z : min n (f.size - pos) ≡ 0 = omega arith in ap (λ (m : ℕ). ok (slice f pos m)) z;
  read_end = λ f pos n h e. omega (arith, slice-nil f pos (min n (f.size - pos)) (cc));
  write_lem = λ a f pos ds n f' e.
      let p : n ≡ length ds = cc in
      let q : f' ≡ write_at f (if a then f.size else pos) ds = cc in
      rw (p, q) (write_at-Wrote f (if a then f.size else pos) ds);
  clone_lem = λ l u pos len n u' e. cc;
  splice_lem = λ l u pos len n u' e.
      let p : n ≡ min len (l.size - pos) = cc in
      let q : u' ≡ splice_at l u pos (min len (l.size - pos)) = cc in
      rw (p, q) (splice_at-Copied l u pos len (min len (l.size - pos)) (omega arith));
  splice_end = λ l u pos len u' h e. let p : min len (l.size - pos) ≡ 0 = cc in omega (arith, p);
}
