-- ===== src/Block/Copy/Range.antt =====
-- What ovl_copy_up_block (copy_up.c) does to the bytes of the upper file.
use fzz_overlay.Base.{ℕ, zero, suc, ◌+◌, ◌-◌, ◌≤◌, ◌<◌, ◌≡◌, refl, ◌⊎◌, inl, inr, true, arith}
use fzz_overlay.Vfs.{Res, ok, err, Vfs, Laws, Copied}
use fzz_overlay.Block.Copy.{splice_loop, cloned, copy_up_block, this_len}

pub this_len-le : (len : ℕ) → this_len len ≤ len
unfolding this_len
this_len-le len = ground arith

pub this_len-pos : (len : ℕ) → 0 < len → 0 < this_len len
unfolding this_len
this_len-pos len h = ground arith

pub Res-cases {ℓ} :
    {A : Type ℓ} (r : Res A) → ((a : A) × (r ≡ Res.ok a)) ⊎ ((e : ℕ) × (r ≡ Res.err e))
Res-cases (ok a) = inl (a, refl)
Res-cases (err e) = inr (e, refl)

module _ (v : Vfs) (k : Laws v) (l : v.File) (q : ℕ) where
  -- The byte at `q` is as it was, or lies in the range and is that of the lower file.
  abbrev pub Touched : v.File → ℕ → ℕ → v.File → Type 0
  Touched u pos len u' =
      (v.byte u' q ≡ v.byte u q) ⊎ ((pos ≤ q) × (q < pos + len) × (v.byte u' q ≡ v.byte l q))

  Copied-Touched :
      (u : v.File) (pos len n : ℕ) (u' : v.File) → Copied v l u pos len n u' → Touched u pos len u'
  Copied-Touched u pos len n u' c = ground (arith, c.before q, c.after q, c.inside q, c.short)

  Touched-trans :
      (u u' u'' : v.File) (pos len n : ℕ)
      → n ≤ len
      → Touched u pos len u'
      → Touched u' (pos + n) (len - n) u''
      → Touched u pos len u''
  Touched-trans u u' u'' pos len n h s t = ground arith

  Touched-widen :
      (u u' : v.File) (pos len len' : ℕ) → len ≤ len' → Touched u pos len u' → Touched u pos len' u'
  Touched-widen u u' pos len len' h t = ground arith

  splice_loop-Touched :
      (fuel : ℕ) (u : v.File) (pos len : ℕ) → Touched u pos len (splice_loop v fuel l u pos len).1
  unfolding splice_loop
  splice_loop-Touched zero u pos len = inl refl
  splice_loop-Touched (suc fuel) u pos len =
      elim (Res-cases (v.splice_direct l u pos (this_len len))) [
        | inl (r, e) ↦
            let c = k.splice_lem l u pos (this_len len) r.0 r.1 e in
            let first = Copied-Touched u pos (this_len len) r.0 r.1 c in
            let wide = Touched-widen u r.1 pos (this_len len) len (this_len-le len) first in
            let rest = splice_loop-Touched fuel r.1 (pos + r.0) (len - r.0) in
            let all =
              Touched-trans u r.1 _ pos len r.0 (omega (arith, c.short, this_len-le len)) wide
                rest in
            rw e (ground (arith, wide, all))
        | inr (x, e) ↦ rw e (ground arith)
      ]

  -- A loop that returns 0 has copied every byte of the range that the lower file has.
  splice_loop_complete :
      (fuel : ℕ) (u : v.File) (pos len : ℕ)
      → len ≤ fuel
      → pos ≤ q
      → q < pos + len
      → q < v.size l
      → (splice_loop v fuel l u pos len).0 ≡ Res.ok tt
      → v.byte (splice_loop v fuel l u pos len).1 q ≡ v.byte l q
  unfolding splice_loop
  splice_loop_complete zero u pos len hf lo hi hs = absurd (omega arith)
  splice_loop_complete (suc fuel) u pos len hf lo hi hs =
      elim (Res-cases (v.splice_direct l u pos (this_len len))) [
        | inl (r, e) ↦
            let c = k.splice_lem l u pos (this_len len) r.0 r.1 e in
            let rest = splice_loop-Touched fuel r.1 (pos + r.0) (len - r.0) in
            let done = splice_loop_complete fuel r.1 (pos + r.0) (len - r.0) in
            rw e λ h. ground (
              arith,
              c.short,
              c.inside q,
              this_len-le len,
              this_len-pos len,
              rest,
              done,
              λ (z : r.0 ≡ 0).
                  k.splice_end l u pos (this_len len) r.1 (this_len-pos len (omega arith))
                    (rw z at e),
            )
        | inr (x, e) ↦ rw e λ h. ground arith
      ]

  cloned_lem :
      (u : v.File) (pos len : ℕ)
      → Touched u pos len (cloned v l u pos len).1
        × ((cloned v l u pos len).0 ≡ true
            → pos ≤ q
            → q < pos + len
            → v.byte (cloned v l u pos len).1 q ≡ v.byte l q)
  unfolding cloned
  cloned_lem u pos len = elim (Res-cases (v.clone_range l u pos len)) [
    | inl (r, e) ↦
        let c = k.clone_lem l u pos len r.0 r.1 e in
        rw (e, cloned) (Copied-Touched u pos len r.0 r.1 c, λ h lo hi. ground (arith, c.inside q))
    | inr (x, e) ↦ rw (e, cloned) (inl refl, λ h lo hi. cc)
  ]

  -- Whatever ovl_copy_up_block returns, the byte at `q` of the upper file is as it was, or `q` is
  -- in the range and the byte is that of the lower file. If it returns 0, every byte of the range
  -- that the lower file has is the lower file's.
  pub copy_up_block_lem :
      (u : v.File) (pos len : ℕ)
      → let (r, u') = copy_up_block v l u pos len in
        Touched u pos len u'
        × (r ≡ Res.ok tt → pos ≤ q → q < pos + len → q < v.size l → v.byte u' q ≡ v.byte l q)
  unfolding copy_up_block
  copy_up_block_lem u pos len =
      let u' = (cloned v l u pos len).1 in
      let first = cloned_lem u pos len in
      let rest = splice_loop-Touched len u' pos len in
      let done = splice_loop_complete len u' pos len (omega arith) in
      (ground (arith, first, rest), λ h lo hi hs. ground (arith, first, done))
