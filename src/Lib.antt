-- ===== src/Lib.antt =====
-- A model of fzz_overlay, an overlayfs whose regular files are copied up block by block.
--
-- The program. An overlay dentry has an upper dentry, or lower ones, or both. A change to a file
-- of the lower layer first copies it up: copy_up.c makes a file in the upper layer and links it to
-- its place. In this fork the data of a regular file is not copied then. ovl_copy_up_inode counts
-- its blocks of 4096 bytes and clears one status byte for each; block_write_iter (file.c) copies
-- the blocks that a write covers in part, writes, and marks the blocks; block_read_iter reads each
-- block from the upper or the lower file by its status. When all blocks are copied, cow_status
-- falls and the upper file is read alone. The origin of a copied file is kept as a file handle in
-- an extended attribute.
--
-- The files.
--   Base: names of the libraries, lists and Boolean tests on native numbers, machine words.
--   Vfs: the kernel's calls on real files, a parameter, with what is documented of them.
--   Block: struct ovl_inode (ovl_entry.h), ovl_get_block (util.c), the two open files.
--     Block/Copy: ovl_copy_up_block (copy_up.c). Copy/Range: the bytes that it changes.
--     Block/View: what a reader is promised, and when an inode is well formed.
--     Block/Write: block_write_iter (file.c), in the parts prepare (up to the label copy_done) and
--       copy_done. Write/Prepare, Write/Mark: lemmas on the two parts. Write/View, Write/Invariant,
--       Write/Bounds: the theorems.
--     Block/Read: block_read_iter (file.c). Read/Inner: lemmas on its inner loops. Read/Total,
--       Read/Hang: the theorems.
--     Block/Start: the first step of ovl_copy_up_inode (copy_up.c). Block/Finished: the theorem on
--       that start and the writes that follow it.
--   Handle: struct ovl_fh (overlayfs.h), ovl_encode_real_fh (copy_up.c), ovl_check_fh_len
--     (namei.c). Handle/Store: ovl_get_fh, ovl_verify_fh, ovl_verify_set_fh (namei.c),
--     ovl_check_setxattr (util.c), ovl_set_origin (copy_up.c). Handle/RoundTrip, Handle/Refusal:
--     the theorems.
--   Dentry: real paths, flags, and the tests whether a dentry is copied up (util.c). Dentry/Real:
--     the theorems. Dentry/Nlink: ovl_set_nlink_common and ovl_get_nlink (inode.c), with the theorem.
--     Dentry/Numbers: ovl_map_dev_ino (inode.c) and ovl_remap_lower_ino (readdir.c), with the theorems.
--   CopyUp: ovl_copy_up_one and all that it calls (copy_up.c). CopyUp/Progress: what each step
--     achieves. CopyUp/Single, CopyUp/Metadata: theorems on one dentry. CopyUp/Walk:
--     ovl_copy_up_flags and ovl_maybe_copy_up; Walk/Ends: the theorem.
--   Readdir: ovl_cache_get, ovl_cache_put, ovl_dir_reset (readdir.c). Readdir/Live: the theorems.
--     Readdir/Tree: the tree of names. Readdir/Merge: ovl_dir_read_merged and all that it calls.
--     Merge/Cells, Merge/Steps, Merge/Loops: lemmas. Merge/Listing: the theorem. Readdir/Empty:
--     ovl_check_empty_dir, with the theorem.
--   Lookup: ovl_lookup_layer and ovl_lookup_single (namei.c), redirects and metacopy attributes
--     (util.c). Lookup/Redirect, Lookup/Rails: the theorems;
--     Lookup/Halts: lemmas on the walk along a name. Lookup/Merge: ovl_lookup up to
--     the end of its loop. Merge/Whole: the rest, and the whole. Merge/Layered,
--     Merge/Hidden: the theorems. Lookup/Origin: ovl_check_origin (namei.c) and its theorem.
--     Lookup/Index: the index directory (namei.c). Index/Named: the theorem.
--     Lookup/Lower: ovl_path_next, ovl_lower_positive and ovl_fix_origin (namei.c),
--     Lower/Topmost and Lower/Walk: the theorems on ovl_lower_positive and ovl_path_next.
--   Mount/Config: ovl_parse_opt (super.c). Config/Separate, Config/Resolve: the theorems. Mount/Paths:
--     ovl_unescape and ovl_split_lowerdirs (super.c), with the theorems. Mount/Saving: one task of
--     ovl_meta_save (super.c), with the theorems. Mount/Inuse: ovl_inuse_trylock and ovl_inuse_unlock
--     (util.c), and mounts that call them in any order, with the theorem.
--   Dir: the real directories under an overlay, a parameter with laws, and steps with errors; Dir/Steps:
--     what holds of such steps. Dir/Whiteout: ovl_cleanup_and_whiteout (dir.c) and
--     ovl_cleanup_whiteouts (readdir.c); Whiteout/Atomic: lemmas. Dir/Made: ovl_create_real,
--     ovl_create_temp, ovl_set_opaque (dir.c); Made/Created: lemmas. Dir/Remove: ovl_do_remove and
--     ovl_clear_empty (dir.c); Remove/Cleared: lemmas; Remove/Gone: the theorem. Dir/Redirect:
--     ovl_get_redirect and ovl_set_redirect (dir.c); Redirect/Absolute: the theorem. Dir/Create:
--     ovl_create_or_link, what it calls, and the operations that call it (dir.c); Create/Placed,
--     Create/Over, Create/Upper: lemmas; Create/Shown: the theorem. Dir/Rename: ovl_rename (dir.c);
--     Rename/Still, Rename/Checks: lemmas; Rename/Moved: the theorem.
--   Examples: a kernel that keeps files in memory, and the theorems at concrete inputs.
--
-- The model. State is passed explicitly. A function of the block code takes an inode and gives an
-- outcome and the inode after it; an outcome is a return value, a negative return, an invalid
-- memory access, or fuel that ran out. A copy-up of a dentry takes the dentry, its parent and the
-- file system. What the kernel returns is a parameter: the record Vfs for real files, Calls for one
-- copy-up, Layers, LookupCalls, Mounts and Indices for a lookup, Reader for a merge of directories,
-- Parser for the options, Dirs for real directories. Code is modelled as one thread runs it, but for
-- the lock of a directory in use, which mounts take in any order.
--
-- Fuel and bounds. ovl_copy_up_block has fuel for one round per byte, and the write loop for one
-- more than its bytes; each round that goes on moves a byte at least. block_read_iter is given its
-- fuel, and so are the loops of ovl_copy_up_flags, of one task of ovl_meta_save and over
-- ovl_path_next. The walk along a path has fuel for its bytes, since each
-- element that another follows leaves less of it; a walk without fuel is a result of its own, not an
-- error of the lookup. The loop of ovl_lookup for each layer
-- of the parent and of the root, since it jumps to the root once at most, and the loop over the
-- options for their bytes. Positions are at most 2 ^ 63, as loff_t has them; block numbers and
-- counters wrap as the source has them.
--
-- Not modelled: the asynchronous paths and the wrappers of file.c, the
-- impure directories and the iteration (readdir.c), the rest of inode.c, NFS export (export.c),
-- mounting and the queues of the kernel threads (super.c). They come after the core of block
-- copy-up, or are calls of the kernel only. Of copy_up.c, the copies of extended attributes, the
-- index entry and the link counts are only their return values, and a release of a temporary file
-- is left out. In dir.c, the copy-ups, ovl_nlink_start, ovl_check_empty_dir, ovl_get_inode and
-- ovl_lower_positive are their return values, times and owners are left out, and the target of a
-- symbolic link is.
pub mod Base
pub mod Vfs
pub mod Block
pub mod Handle
pub mod Dentry
pub mod CopyUp
pub mod Readdir
pub mod Lookup
pub mod Mount
pub mod Dir
pub mod Examples
