-- ===== src/Examples/Blocks.antt =====
-- A file of 5000 bytes under block copy-up, in memory: block_write_iter, block_read_iter,
-- ovl_copy_up_block and the start in ovl_copy_up_inode at concrete inputs.
use fzz_overlay.Base.{ℕ, ◌+◌, ◌*◌, ◌≤◌, ◌<◌, ◌≡◌, refl, true, false, List, [], ◌∷◌, arith, inl}
use fzz_overlay.Vfs.{ok}
use fzz_overlay.Block.{
  Inode, Handle, returns, fault, loops, get_block, block_begin, open_upper, open_lower, use_upper,
  use_lower, status,
}
use fzz_overlay.Block.View.{view, IsValid, get_block_lem}
use fzz_overlay.Block.Copy.{copy_up_block, cloned, splice_loop, this_len}
use fzz_overlay.Block.Copy.Range.{Touched, copy_up_block_lem}
use fzz_overlay.Block.Write.{
  block_write_iter, write_loop, mark_blocks, prepare, prepare_end, copy_if, needs_copy,
  copy_up_one_block, copy_done, queue_meta, finish_copy, copy_up, block_len,
}
use fzz_overlay.Block.Write.Mark.{WritesAll, count_copied}
use fzz_overlay.Block.Write.Invariant.{
  IsCounted, block_write_iter-IsCounted, block_write_iter-IsValid,
}
use fzz_overlay.Block.Write.Bounds.{block_write_iter_overruns}
use fzz_overlay.Block.Read.{block_read_iter}
use fzz_overlay.Block.Read.Hang.{block_read_iter_hangs}
use fzz_overlay.Block.Start.{blocks_of, start_blocks, blocks_of_bounds, start_blocks-view}
use fzz_overlay.Block.Finished.{Write, write_all}
use fzz_overlay.Examples.Memory.{Mem, memory, memory-Laws}

abbrev lower_file : Mem
lower_file = record { size = 5000; at = λ q. 7 }

abbrev hole_file : Mem
hole_file = record { size = 5000; at = λ q. 0 }

-- Nothing is copied yet.
abbrev pub fresh : Inode memory
fresh = record {
  block_count = 2;
  copy_count = 0;
  cow_status = true;
  lower_file = Handle.closed;
  upper_file = Handle.closed;
  meta_file = false;
  block_status = 0 ∷ 0 ∷ 0 ∷ [];
  lower = lower_file;
  upper = hole_file;
  meta_fifo = [];
}

-- Both blocks are copied.
abbrev over : Inode memory
over = record {
  block_count = 2;
  copy_count = 2;
  cow_status = false;
  lower_file = Handle.opened;
  upper_file = Handle.opened;
  meta_file = false;
  block_status = 0 ∷ 1 ∷ 1 ∷ [];
  lower = lower_file;
  upper = lower_file;
  meta_fifo = [];
}

abbrev data3 : List ℕ
data3 = 1 ∷ 2 ∷ 3 ∷ []

memory-WritesAll : WritesAll memory
memory-WritesAll a f pos ds n f' e = cc

fresh-IsValid : IsValid fresh
fresh-IsValid = record {
  counted = refl;
  fits = omega arith;
  lower_usable = λ e. cc;
  upper_usable = λ e. cc;
  hole = λ p hp hs hb hz. ground arith;
}

fresh-IsCounted : IsCounted fresh
unfolding count_copied
fresh-IsCounted = record { count = refl; unused = refl; ended = λ e. cc }

ends_in_first : get_block 103 ≤ 2
ends_in_first = omega (arith, get_block_lem 103 (omega arith))

block_write_iter-IsCounted_example : IsCounted (block_write_iter memory false 100 data3 fresh).1
block_write_iter-IsCounted_example =
    block_write_iter-IsCounted memory memory-Laws memory-WritesAll 100 data3 fresh fresh-IsValid
      fresh-IsCounted refl (omega arith) (omega arith) (omega arith) ends_in_first

writes_three : (block_write_iter memory false 100 data3 fresh).0 ≡ returns 3
unfolding block_write_iter prepare prepare_end copy_if needs_copy copy_up_one_block copy_done
    queue_meta finish_copy open_upper open_lower use_upper use_lower status copy_up block_len
    copy_up_block cloned splice_loop this_len write_loop mark_blocks get_block block_begin
writes_three = refl

block_write_iter-IsValid_example : IsValid (block_write_iter memory false 100 data3 fresh).1
block_write_iter-IsValid_example =
    block_write_iter-IsValid memory memory-Laws memory-WritesAll 100 3 data3 fresh fresh-IsValid
      (omega arith) (omega arith) (omega arith) ends_in_first writes_three

-- A write over the end of the first block, behind which both blocks are copied.
abbrev across : List Write
across = record { pos = 4095; bytes = data3 } ∷ []

across_ends :
    (write_all memory across (start_blocks memory true false 5000 true fresh).1).cow_status ≡ false
unfolding start_blocks blocks_of block_write_iter prepare prepare_end copy_if needs_copy
    copy_up_one_block copy_done queue_meta finish_copy open_upper open_lower use_upper use_lower
    status copy_up block_len copy_up_block cloned splice_loop this_len write_loop mark_blocks
    get_block block_begin
across_ends = refl

block_write_iter_overruns_example : block_write_iter memory false 8192 data3 fresh ≡ (fault, fresh)
block_write_iter_overruns_example =
    block_write_iter_overruns memory 8192 data3 fresh refl (omega arith)
      (omega (arith, get_block_lem 8195 (omega arith))) (inl refl)

block_read_iter_hangs_example : block_read_iter memory 9 5000 10 over ≡ (loops, over)
block_read_iter_hangs_example = block_read_iter_hangs memory memory-Laws 9 5000 10 over (record {
  opened = refl;
  counted = refl;
  inside = omega (arith, get_block_lem 5000 (omega arith));
  copied = λ e. ground (arith, get_block_lem 5000 (omega arith));
  at_end = omega arith;
  more = omega arith;
  fits = omega arith;
  not_ended = refl;
})

copy_up_block_example :
    let (r, u) = copy_up_block memory lower_file hole_file 4096 904 in
    Touched memory memory-Laws lower_file 4500 hole_file 4096 904 u
    × (r ≡ ok tt → 4096 ≤ 4500 → 4500 < 4096 + 904 → 4500 < 5000 → memory.byte u 4500 ≡ 7)
copy_up_block_example = copy_up_block_lem memory memory-Laws lower_file 4500 hole_file 4096 904

blocks_of_bounds_example : (5000 ≤ blocks_of 5000 * 4096) × (blocks_of 5000 * 4096 < 5000 + 4096)
blocks_of_bounds_example = blocks_of_bounds memory 5000 (omega arith)

start_blocks-view_example :
    let (r, s) = start_blocks memory true false 5000 true fresh in
    (r ≡ ok tt) × IsValid s × IsCounted s × (view s 4999 ≡ 7)
start_blocks-view_example =
    start_blocks-view memory memory-Laws fresh 4999 refl refl refl (λ q. ground arith) (omega arith)
      (omega arith) (omega arith)
