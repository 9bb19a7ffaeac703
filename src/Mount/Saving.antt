-- ===== src/Mount/Saving.antt =====
-- The thread that saves which blocks are copied (super.c: ovl_meta_save; ovl_entry.h:
-- struct meta_save_task).
use fzz_overlay.Base.{
  ℕ, zero, suc, ◌^◌, ◌∙◌, ◌+◌, ◌-◌, ◌≤◌, ◌<◌, ◌≡◌, refl, inl, inr, Bool-cases, true, false, Option,
  none, some, ltb, ◌==◌, if◌then◌else◌, arith,
}
use fzz_overlay.Base.Words.{u32, sub32}
use fzz_overlay.Vfs.{Res, ok, err}

-- struct meta_save_task, where there is a file.
pub record Task : Type 0 where
  pub first : ℕ
  pub last : ℕ

abbrev pub page : ℕ
page = 4096

module _ {F : Type 0} (kernel_write : F → ℕ → ℕ → Res (ℕ × F)) where
  -- A write, and the position after it: the kernel moves it on, and the loop once more.
  abbrev pub saved : Res (ℕ × F) → F → (F → ℕ → Option F) → Option F
  saved (err e) f go = some f
  saved (ok (cnt, g)) f go = go g cnt

  -- The loop of one task: `len` bytes are left, and the next goes to `written`.
  unfoldable pub save_loop : ℕ → F → ℕ → ℕ → Option F
  save_loop zero f len written = none
  save_loop (suc fuel) f len written =
      if len == 0
      then some f
      else saved (kernel_write f (if ltb page len then page else len) written) f
          (λ g cnt. save_loop fuel g (len - cnt) (written + cnt + cnt))

  -- One task of ovl_meta_save: a byte for each block, from position 5 on.
  unfoldable pub save_task : ℕ → F → Task → Option F
  save_task fuel f t = save_loop fuel f (u32 (sub32 t.last t.first + 1)) 5

  chunk_positive : (len : ℕ) → (len == 0) ≡ false → 0 < (if ltb page len then page else len)
  chunk_positive len e = elim (Bool-cases (ltb page len)) [
    | inl t ↦ rw t (omega arith)
    | inr t ↦ rw t (ground (arith, e))
  ]

  saved_ends :
      (fuel : ℕ) (f : F) (len written : ℕ) (r : Res (ℕ × F))
      → ((cnt : ℕ) (g : F)
          → r ≡ ok (cnt, g)
          → (x : F) × (save_loop fuel g (len - cnt) (written + cnt + cnt) ≡ some x))
      → (x : F) × (saved r f (λ g cnt. save_loop fuel g (len - cnt) (written + cnt + cnt)) ≡ some x)
  saved_ends fuel f len written (err e) ih = (f, refl)
  saved_ends fuel f len written (ok (cnt, g)) ih = ih cnt g refl

  -- The loop over one task ends, with fuel for its blocks and one round more, if no write of the
  -- kernel that returns a count returns 0.
  pub save_loop_ends :
      (fuel : ℕ) (f : F) (len written : ℕ)
      → ((f : F) (n pos cnt : ℕ) (g : F) → 0 < n → kernel_write f n pos ≡ ok (cnt, g) → 0 < cnt)
      → len < fuel
      → (g : F) × (save_loop fuel f len written ≡ some g)
  unfolding save_loop
  save_loop_ends zero f len written h en = absurd (omega arith)
  save_loop_ends (suc fuel) f len written h en = elim (Bool-cases (len == 0)) [
    | inl e ↦ rw e (f, refl)
    | inr e ↦ rw e (
        saved_ends fuel f len written (kernel_write f (if ltb page len then page else len) written)
          (λ cnt g q.
            let some_written =
              h f (if ltb page len then page else len) written cnt g (chunk_positive len e) q in
            save_loop_ends fuel g (len - cnt) (written + cnt + cnt) h
              (ground (arith, e, en, some_written))))
  ]

  save_loop-full :
      (fuel : ℕ) (f : F) (len written : ℕ) (put : F → ℕ → ℕ → F)
      → ((f : F) (n pos : ℕ) → kernel_write f n pos ≡ ok (n, put f n pos))
      → 0 < len
      → save_loop (suc fuel) f len written
        ≡ save_loop fuel
            (put f (if ltb page len then page else len) written)
            (len - (if ltb page len then page else len))
            (written + (if ltb page len then page else len) + (if ltb page len then page else len))
  unfolding save_loop
  save_loop-full fuel f len written put w pos =
      let some_left : (len == 0) ≡ false = ground (arith, pos) in
      rw (some_left, w f (if ltb page len then page else len) written) refl

  save_loop-done :
      (fuel : ℕ) (f : F) (len written : ℕ) → len ≡ 0 → save_loop (suc fuel) f len written ≡ some f
  unfolding save_loop
  save_loop-done fuel f len written e = rw e refl

  -- A task of more than a page of blocks, by a kernel that writes all it is given, leaves a gap: the
  -- second page goes two pages behind the first.
  pub save_task_gap :
      (fuel : ℕ) (f : F) (t : Task) (put : F → ℕ → ℕ → F)
      → ((f : F) (n pos : ℕ) → kernel_write f n pos ≡ ok (n, put f n pos))
      → t.first ≤ t.last
      → t.last < 2 ^ 32
      → page < t.last - t.first + 1
      → t.last - t.first + 1 ≤ page + page
      → save_task (suc (suc (suc fuel))) f t
        ≡ some (put (put f page 5) (t.last - t.first + 1 - page) (5 + page + page))
  unfolding save_task
  save_task_gap fuel f t put w le b more less =
      let n = t.last - t.first + 1 in
      let size : u32 (sub32 t.last t.first + 1) ≡ t.last - t.first + 1 = omega arith in
      let big : ltb page (t.last - t.first + 1) ≡ true = ground (arith, more) in
      let small : ltb page (t.last - t.first + 1 - page) ≡ false = ground (arith, less) in
      let one = save_loop-full (suc (suc fuel)) f n 5 put w (omega arith) in
      let two =
        save_loop-full (suc fuel) (put f page 5) (n - page) (5 + page + page) put w (omega arith) in
      rw size (
        one
        ∙ rw big (
            two
            ∙ rw small (
                save_loop-done fuel
                  (put (put f page 5) (t.last - t.first + 1 - page) (5 + page + page))
                  (n - page - (n - page)) (5 + page + page + (n - page) + (n - page))
                  (omega arith))))
