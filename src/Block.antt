-- ===== src/Block.antt =====
-- Block copy-up: the part of `struct ovl_inode` added by this fork (ovl_entry.h), the outcome of
-- its operations, and the block arithmetic (util.c, ovl_get_block).
pub mod Copy
pub mod Write
pub mod Read
pub mod View
pub mod Start
pub mod Finished
use fzz_overlay.Base.{
  ℕ, ◌+◌, ◌*◌, ◌/◌, ◌%◌, ◌^◌, ◌≡◌, Bool, true, false, List, [], ◌∷◌, Option, none, some, get_elem?,
  get_or, if◌then◌else◌, ◌==◌, leb,
}
use fzz_overlay.Base.Words.{u64, sub64}
use fzz_overlay.Vfs.{Res, ok, err, Access, rdwr, rdonly, Vfs}

abbrev pub block_size : ℕ
block_size = 4096

-- The states of a block in `block_status`.
abbrev pub uncopy : ℕ
uncopy = 0

abbrev pub copied : ℕ
copied = 1

abbrev pub copying : ℕ
copying = 2

-- `size_t ovl_get_block(size_t pos)`: blocks count from 1.
unfoldable pub get_block : ℕ → ℕ
get_block pos = u64 (pos + block_size) / block_size

-- `(block - 1) * BLOCK_SIZE`, in 64 bits.
unfoldable pub block_begin : ℕ → ℕ
block_begin b = u64 (sub64 b 1 * block_size)

-- A `struct file *` kept in the inode: NULL, an open file, or an ERR_PTR that was stored.
pub data Handle : Type 0 where
  closed opened bad : Handle

-- The block copy-up fields of `struct ovl_inode`, with the files that its two handles open.
pub record Inode (v : Vfs) : Type 0 where
  pub block_count : ℕ  -- unsigned int
  pub copy_count : ℕ  -- unsigned int
  pub cow_status : Bool
  pub lower_file : Handle
  pub upper_file : Handle
  pub meta_file : Bool
  pub block_status : List ℕ
  pub lower : v.File
  pub upper : v.File
  -- The queue `meta_save_fifo`: pairs of a first and a last block.
  pub meta_fifo : List (ℕ × ℕ)

-- A return value, a negative return, an invalid memory access, or a loop that used up its fuel.
pub data Outcome {ℓ} (A : Type ℓ) : Type ℓ where
  returns : A → Outcome A
  fails : ℕ → Outcome A
  fault : Outcome A
  loops : Outcome A

module _ {v : Vfs} where
  abbrev pub next :
      {A B : Type 0}
      → Outcome A × Inode v
      → (A → Inode v → Outcome B × Inode v)
      → Outcome B × Inode v
  next (returns a, s) f = f a s
  next (fails e, s) f = (fails e, s)
  next (fault, s) f = (fault, s)
  next (loops, s) f = (loops, s)

  infixl 5 ◌>>=◌ ◌>>◌
  abbrev pub ◌>>=◌ :
      {A B : Type 0}
      → (Inode v → Outcome A × Inode v)
      → (A → Inode v → Outcome B × Inode v)
      → Inode v
      → Outcome B × Inode v
  ◌>>=◌ m f s = next (m s) f

  abbrev pub ◌>>◌ :
      {B : Type 0}
      → (Inode v → Outcome (Unit {0}) × Inode v)
      → (Inode v → Outcome B × Inode v)
      → Inode v
      → Outcome B × Inode v
  ◌>>◌ m k s = next (m s) (λ _. k)

module _ (v : Vfs) where
  abbrev pub M : Type 0 → Type 0
  M A = Inode v → Outcome A × Inode v

  abbrev pub pure : {A : Type 0} → A → Inode v → Outcome A × Inode v
  pure a s = (returns a, s)

  -- A handle after an open: the ERR_PTR of a failed one is stored, and its error is returned.
  abbrev pub opened_as : Res (Unit {0}) → Outcome (Unit {0}) × Handle
  opened_as (ok _) = (returns tt, opened)
  opened_as (err e) = (fails e, bad)

  abbrev pub open_if_closed : Handle → Res (Unit {0}) → Outcome (Unit {0}) × Handle
  open_if_closed closed r = opened_as r
  open_if_closed h r = (returns tt, h)

  -- `if (!oi->upper_file) oi->upper_file = ovl_path_open(...)`, and the check behind it.
  unfoldable pub open_upper : Inode v → Outcome (Unit {0}) × Inode v
  open_upper s =
      let (o, h) = open_if_closed s.upper_file (v.dentry_open rdwr s.upper) in
      (o, record s { upper_file = h })

  unfoldable pub open_lower : Inode v → Outcome (Unit {0}) × Inode v
  open_lower s =
      let (o, h) = open_if_closed s.lower_file (v.dentry_open rdonly s.lower) in
      (o, record s { lower_file = h })

  -- A use of a handle: NULL and ERR_PTR are no addresses.
  abbrev pub usable : Handle → Outcome (Unit {0})
  usable opened = returns tt
  usable _ = fault

  unfoldable pub use_upper : Inode v → Outcome (Unit {0}) × Inode v
  use_upper s = (usable s.upper_file, s)

  unfoldable pub use_lower : Inode v → Outcome (Unit {0}) × Inode v
  use_lower s = (usable s.lower_file, s)

  abbrev pub fetched : Option ℕ → Outcome ℕ
  fetched (some x) = returns x
  fetched none = fault

  -- `oi->block_status[b]`: the array has `block_count + 1` bytes.
  unfoldable pub status : ℕ → Inode v → Outcome ℕ × Inode v
  status b s = (fetched (get_elem? s.block_status b), s)
