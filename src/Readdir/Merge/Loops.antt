-- ===== src/Readdir/Merge/Loops.antt =====
-- The loops of ovl_dir_read (readdir.c) keep an invariant of what is left to be read.
use fzz_overlay.Base.{
  ℕ, ◌≡◌, refl, sym, inl, inr, Bool, Bool-cases, true, ◌&&◌, List, [], ◌∷◌, ◌++◌, ◌==◌, arith,
}
use fzz_overlay.Vfs.{Res, ok, err}
use fzz_overlay.Readdir.Merge.{
  Dirent, Rdd, Reader, fill_merge, fill_all, read_batches, mark, mark_whiteouts, if_locked, any,
  check_whiteouts, if_open, dir_read,
}
use fzz_overlay.Readdir.Merge.Cells.{mark-Keeps, Keeps-At}
use fzz_overlay.Readdir.Merge.Steps.{
  or_else, or_else_assoc, or_else-none, named, named-append, delivered, all, Reads,
}

-- An invariant of the loops of ovl_dir_read, `J` of what is left to be read.
pub record Invariant {D : Type 0} (k : Reader D) (u : Bool) (J : List Dirent → Rdd → Type 0)
    : Type 0 where
  pub step :
      (r : Rdd) (x : Dirent) (xs : List Dirent)
      → J (x ∷ xs) r
      → ((fill_merge k r x).error == 0) ≡ true
      → J xs (fill_merge k r x) × Reads k r (fill_merge k r x) u (x ∷ [])
  pub marks : (n : List ℕ) (w : Res Bool) (r : Rdd) → J [] r → J [] (mark n w r)

module _ {D : Type 0} (k : Reader D) where
  Reads-then :
      (r q s : Rdd) (u : Bool) (xs ys : List Dirent)
      → Reads k r q u xs
      → Reads k q s u ys
      → Reads k r s u (xs ++ ys)
  Reads-then r q s u xs ys f g n o h = rw (named-append n u xs ys) (
      rw⁻¹ (or_else_assoc {A = Bool × Dirent} o (named n u xs) (named n u ys))
        (g n (or_else o (named n u xs)) (f n o h)))

  Reads-none : (r : Rdd) (u : Bool) → Reads k r r u []
  Reads-none r u n o h = rw (or_else-none {A = Bool × Dirent} o) h

  module _ (u : Bool) (J : List Dirent → Rdd → Type 0) (i : Invariant k u J) where
    fill_all_lem :
        (r : Rdd) (xs ys : List Dirent)
        → J (xs ++ ys) r
        → ((fill_all k r xs).error == 0) ≡ true
        → J ys (fill_all k r xs) × Reads k r (fill_all k r xs) u xs
    unfolding fill_all
    fill_all_lem r [] ys j z = (j, Reads-none r u)
    fill_all_lem r (x ∷ xs) ys j z =
        let q = fill_merge k r x in
        elim (Bool-cases (q.error == 0)) [
          | inr e ↦ absurd (ground (arith, e, z))
          | inl e ↦
              let one = i.step r x (xs ++ ys) j e in
              let rest = fill_all_lem q xs ys one.0 (simp e at z) in
              simp e (rest.0, Reads-then r q (fill_all k q xs) u (x ∷ []) xs one.1 rest.1)
        ]

    read_batches_lem :
        (r s : Rdd) (bs : List (Res (List Dirent)))
        → J (delivered bs) r
        → read_batches k r bs ≡ ok s
        → J [] s × Reads k r s u (delivered bs)
    unfolding read_batches
    read_batches_lem r s [] j h = let same : r ≡ s = cc in rw (sym same) (j, Reads-none r u)
    read_batches_lem r s (err e ∷ bs) j h = absurd (ground (arith, h))
    read_batches_lem r s (ok [] ∷ bs) j h =
        let same : r ≡ s = cc in rw (sym same) (j, Reads-none r u)
    read_batches_lem r s (ok (x ∷ xs) ∷ bs) j h =
        let q = fill_all k r (x ∷ xs) in
        elim (Bool-cases (q.error == 0)) [
          | inr e ↦ absurd (ground (arith, e, h))
          | inl e ↦
              let one = fill_all_lem r (x ∷ xs) (delivered bs) j e in
              let rest = read_batches_lem q s bs one.0 (simp e at h) in
              (rest.0, Reads-then r q s u (x ∷ xs) (delivered bs) one.1 rest.1)
        ]

    mark_whiteouts_lem :
        (d : D) (ns : List (List ℕ)) (r : Rdd)
        → J [] r
        → J [] (mark_whiteouts k d ns r) × Reads k r (mark_whiteouts k d ns r) u []
    unfolding mark_whiteouts
    mark_whiteouts_lem d [] r j = (j, Reads-none r u)
    mark_whiteouts_lem d (n ∷ ns) r j =
        let q = mark n (k.whiteout d n) r in
        let rest = mark_whiteouts_lem d ns q (i.marks n (k.whiteout d n) r j) in
        (
          rest.0,
          λ m o h. rest.1 m o (Keeps-At (all r) (all q) m o (mark-Keeps n (k.whiteout d n) r) h),
        )

    check_whiteouts_lem :
        (d : D) (r s : Rdd) → J [] r → check_whiteouts k d (ok r) ≡ ok s → J [] s × Reads k r s u []
    check_whiteouts_lem d r s j h = elim (Bool-cases (any k r.maybe_whiteout && k.iterates)) [
      | inr e ↦ let same : r ≡ s = ground (arith, e, h) in rw (sym same) (j, Reads-none r u)
      | inl e ↦ locked (k.locked d) (simp e at h)
    ]
      where
        locked : (l : Res (Unit {0})) → if_locked k d r l ≡ ok s → J [] s × Reads k r s u []
        locked (err x) g = absurd (ground (arith, g))
        locked (ok _) g =
            let same : mark_whiteouts k d r.maybe_whiteout r ≡ s = cc in
            rw (sym same) (mark_whiteouts_lem d r.maybe_whiteout r j)

    pub dir_read_lem :
        (d : D) (r s : Rdd)
        → J (delivered (k.batches d)) (record r { maybe_whiteout = []; error = 0 })
        → dir_read k d r ≡ ok s
        → J [] s × Reads k r s u (delivered (k.batches d))
    unfolding dir_read
    dir_read_lem d r s j h = opened (k.opens d) h
      where
        r0 : Rdd
        r0 = record r { maybe_whiteout = []; error = 0 }

        looped :
            (l : Res Rdd)
            → read_batches k r0 (k.batches d) ≡ l
            → check_whiteouts k d l ≡ ok s
            → J [] s × Reads k r s u (delivered (k.batches d))
        looped (err e) g c = absurd (ground (arith, c))
        looped (ok q) g c =
            let one = read_batches_lem r0 q (k.batches d) j g in
            let rest = check_whiteouts_lem d q s one.0 c in
            (
              rest.0,
              λ n o a.
                  rw⁻¹
                    (or_else-none {A = Bool × Dirent}
                      (or_else o (named n u (delivered (k.batches d)))))
                    (rest.1 n (or_else o (named n u (delivered (k.batches d)))) (one.1 n o a)),
            )

        opened :
            (l : Res (Unit {0}))
            → if_open k d r l ≡ ok s
            → J [] s × Reads k r s u (delivered (k.batches d))
        opened (err e) g = absurd (ground (arith, g))
        opened (ok _) g = looped (read_batches k r0 (k.batches d)) refl g
