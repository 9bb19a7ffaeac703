-- ===== src/Vfs.antt =====
-- What the block copy-up code calls in the kernel: reads and writes of the real files, range
-- clones, splices, opens, pending signals and the queue of saved blocks. None of it is part of
-- this repository, so it is a parameter. `Laws` states the documented behaviour that is used.
use fzz_overlay.Base.{ℕ, ◌+◌, ◌-◌, ◌≤◌, ◌<◌, ◌≡◌, Bool, List, [], length, get_or, if◌then◌else◌}

-- A count or a handle, or the negative error number `- e`.
pub data Res {ℓ} (A : Type ℓ) : Type ℓ where
  ok : A → Res A
  err : ℕ → Res A

-- The flags of an open: O_RDWR for the upper file, O_RDONLY for the lower one.
pub data Access : Type 0 where
  rdwr rdonly : Access

pub record Vfs : Type 1 where
  -- A real file at one moment: its size and its bytes.
  pub File : Type 0
  pub size : File → ℕ
  pub byte : File → ℕ → ℕ
  -- vfs_iter_read at a position: the bytes delivered.
  pub iter_read : File → ℕ → ℕ → Res (List ℕ)
  -- vfs_iter_write: with O_APPEND at the end, else at a position. The count, and the file after.
  pub iter_write : Bool → File → ℕ → List ℕ → Res (ℕ × File)
  -- do_clone_file_range and do_splice_direct from the first file to the second.
  pub clone_range : File → File → ℕ → ℕ → Res (ℕ × File)
  pub splice_direct : File → File → ℕ → ℕ → Res (ℕ × File)
  -- signal_pending_state, when so many bytes are left to copy.
  pub signal_pending : ℕ → Bool
  pub dentry_open : Access → File → Res (Unit {0})
  -- kfifo_is_full of the queue of saved blocks.
  pub fifo_full : List (ℕ × ℕ) → Bool

-- `f'` is `f` with `n` bytes of `ds` written at `at`.
pub record Wrote (v : Vfs) (f : v.File) (at : ℕ) (ds : List ℕ) (n : ℕ) (f' : v.File) : Type 0 where
  pub short : n ≤ length ds
  pub inside : (q : ℕ) → at ≤ q → q < at + n → v.byte f' q ≡ get_or ds (q - at) 0
  pub before : (q : ℕ) → q < at → v.byte f' q ≡ v.byte f q
  pub after : (q : ℕ) → at + n ≤ q → v.byte f' q ≡ v.byte f q

-- `u'` is `u` with `n` bytes of `l` copied over, at the same position.
pub record Copied (v : Vfs) (l u : v.File) (pos len n : ℕ) (u' : v.File) : Type 0 where
  pub short : n ≤ len
  pub inside : (q : ℕ) → pos ≤ q → q < pos + n → v.byte u' q ≡ v.byte l q
  pub before : (q : ℕ) → q < pos → v.byte u' q ≡ v.byte u q
  pub after : (q : ℕ) → pos + n ≤ q → v.byte u' q ≡ v.byte u q

pub record Laws (v : Vfs) : Type 0 where
  pub past_end : (f : v.File) (q : ℕ) → v.size f ≤ q → v.byte f q ≡ 0
  pub read_short :
      (f : v.File) (pos n : ℕ) (bs : List ℕ) → v.iter_read f pos n ≡ Res.ok bs → length bs ≤ n
  pub read_bytes :
      (f : v.File) (pos n : ℕ) (bs : List ℕ)
      → v.iter_read f pos n ≡ Res.ok bs
      → (i : ℕ) → i < length bs
      → get_or bs i 0 ≡ v.byte f (pos + i)
  -- A read delivers nothing only at or past the end, and there it delivers nothing.
  pub read_at_end : (f : v.File) (pos n : ℕ) → v.size f ≤ pos → v.iter_read f pos n ≡ Res.ok []
  pub read_end : (f : v.File) (pos n : ℕ) → 0 < n → v.iter_read f pos n ≡ Res.ok [] → v.size f ≤ pos
  pub write_lem :
      (a : Bool) (f : v.File) (pos : ℕ) (ds : List ℕ) (n : ℕ) (f' : v.File)
      → v.iter_write a f pos ds ≡ Res.ok (n, f')
      → Wrote v f (if a then v.size f else pos) ds n f'
  pub clone_lem :
      (l u : v.File) (pos len n : ℕ) (u' : v.File)
      → v.clone_range l u pos len ≡ Res.ok (n, u')
      → Copied v l u pos len n u'
  pub splice_lem :
      (l u : v.File) (pos len n : ℕ) (u' : v.File)
      → v.splice_direct l u pos len ≡ Res.ok (n, u')
      → Copied v l u pos len n u'
  -- Nothing is spliced only from the end of the file.
  pub splice_end :
      (l u : v.File) (pos len : ℕ) (u' : v.File)
      → 0 < len
      → v.splice_direct l u pos len ≡ Res.ok (0, u')
      → v.size l ≤ pos
