-- ===== src/Block/Copy.antt =====
-- copy_up.c, ovl_copy_up_block: one block is cloned, or else spliced in chunks.
pub mod Range
use fzz_overlay.Base.{ℕ, zero, suc, ◌+◌, ◌-◌, ◌^◌, Bool, false, ltb, ◌==◌, if◌then◌else◌}
use fzz_overlay.Vfs.{Res, ok, err, Vfs}

abbrev pub eintr : ℕ
eintr = 4

abbrev pub chunk_size : ℕ
chunk_size = 2 ^ 20

-- `this_len`: a chunk, or what is left.
unfoldable pub this_len : ℕ → ℕ
this_len len = if ltb len chunk_size then len else chunk_size

module _ (v : Vfs) where
  -- The `while (len)` loop. Each round splices a byte at least, so fuel `len` is enough: the loop
  -- with fuel 0 has `len` 0, and ends by its test.
  unfoldable pub splice_loop : ℕ → v.File → v.File → ℕ → ℕ → Res (Unit {0}) × v.File
  splice_loop zero lower upper pos len = (ok tt, upper)
  splice_loop (suc fuel) lower upper pos len =
      let spliced =
        elim (v.splice_direct lower upper pos (this_len len)) as (λ _. Res (Unit {0}) × v.File) [
          | err e ↦ (err e, upper)
          | ok (n, upper') ↦
              let rest = splice_loop fuel lower upper' (pos + n) (len - n) in
              if n == 0 then (ok tt, upper') else rest
        ] in
      if len == 0
      then (ok tt, upper)
      else if v.signal_pending len
      then (err eintr, upper)
      else spliced

  -- Was the whole range cloned?
  unfoldable pub cloned : v.File → v.File → ℕ → ℕ → Bool × v.File
  cloned lower upper pos len = elim (v.clone_range lower upper pos len) [
    | err e ↦ (false, upper)
    | ok (n, upper') ↦ (n == len, upper')
  ]

  unfoldable pub copy_up_block : v.File → v.File → ℕ → ℕ → Res (Unit {0}) × v.File
  copy_up_block lower upper pos len =
      let (done, upper') = cloned lower upper pos len in
      if len == 0
      then (ok tt, upper)
      else if done
      then (ok tt, upper')
      else splice_loop len lower upper' pos len
