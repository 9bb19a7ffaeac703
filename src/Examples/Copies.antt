-- ===== src/Examples/Copies.antt =====
-- A dentry without upper dentry, in a directory with one, is copied up by a kernel that refuses
-- nothing; and handles of concrete bytes.
use fzz_overlay.Base.{
  ℕ, ◌≡◌, ◌≢◌, refl, Bool, true, false, [], ◌∷◌, ◌++◌, Option, none, some, arith, replicate,
}
use fzz_overlay.Vfs.{ok, err}
use fzz_overlay.Block.{returns, fault, loops}
use fzz_overlay.Handle.{
  Fh, Real, Alloc, enodata, check_fh_len, encode_real_fh, fh_len, fh_type, fh_uuid, fh_fid,
  fh_flags, flag_bit,
}
use fzz_overlay.Handle.Store.{Upper, get_fh, verify_fh, verify_set_fh, set_origin, check_setxattr}
use fzz_overlay.Handle.RoundTrip.{encode_real_fh_valid, verify_set_fh_stores}
use fzz_overlay.Dentry.{
  Mode, Node, is_some, already_copied_up, dentry_upper, dentry_lower, path_lowerdata, set_impure,
  already_copied_up_locked, needs_data_copy_up_locked, open_flags_need_copy_up,
}
use fzz_overlay.CopyUp.{
  Calls, Fs, St, need_meta_copy_up, ◌>>=◌, ◌>>◌, call, when, need_index, impure_parent, start,
  store_origin, store_metacopy, copy_up_inode, publish, set_whiteouts, copy_up_workdir,
  copy_up_tmpfile, set_index, set_upper_alias, choose_dir, finish_copy_up, do_copy_up, link_up,
  set_upperdata, copy_up_meta_inode_data, copy_up_start, copy_up_locked, copy_up_rest, copy_up_stat,
  copy_up_one, copy_up_data,
}
use fzz_overlay.Block.Start.{start_blocks}
use fzz_overlay.CopyUp.Progress.{node_upper}
use fzz_overlay.CopyUp.Single.{copy_up_one_lem}
use fzz_overlay.CopyUp.Metadata.{copy_up_meta_inode_data_skips}
use fzz_overlay.CopyUp.Walk.{Chain, new_temp, copy_up_flags}
use fzz_overlay.CopyUp.Walk.Ends.{copy_up_flags_ends}
use fzz_overlay.Examples.Memory.{memory}
use fzz_overlay.Examples.Blocks.{fresh}

abbrev pub handle : Real
handle = record { uuid = replicate 16 9; encoded_type = some 1; encoded_fid = 4 ∷ 5 ∷ 6 ∷ [] }

abbrev pub other : Real
other = record { uuid = replicate 16 9; encoded_type = some 1; encoded_fid = 4 ∷ 5 ∷ 7 ∷ [] }

abbrev pub gives_memory : Alloc
gives_memory = record { first = true; second = true }

abbrev bytes : ℕ → Fh
bytes n = 0 ∷ 0xfb ∷ 24 ∷ 4 ∷ 1 ∷ (replicate 16 9 ++ (4 ∷ 5 ∷ n ∷ []))

encodes : encode_real_fh false gives_memory handle true ≡ ok (bytes 6)
unfolding encode_real_fh
encodes = refl

encodes_other : encode_real_fh false gives_memory other true ≡ ok (bytes 7)
unfolding encode_real_fh
encodes_other = refl

encode_real_fh_valid_example :
    (check_fh_len false (bytes 6) 24 ≡ ok tt)
    × (fh_len (bytes 6) ≡ 24)
    × (fh_type (bytes 6) ≡ 1)
    × (fh_uuid (bytes 6) ≡ replicate 16 9)
    × (fh_fid (bytes 6) ≡ 4 ∷ 5 ∷ 6 ∷ [])
    × (flag_bit (fh_flags (bytes 6)) 2 ≡ true)
encode_real_fh_valid_example =
    encode_real_fh_valid false gives_memory handle true (bytes 6) refl encodes

absent : get_fh false true (err enodata) ≡ ok none
unfolding get_fh
absent = refl

verify_set_fh_stores_example :
    (verify_set_fh false gives_memory true (ok tt) handle true true (err enodata)
      ≡ (ok tt, ok (bytes 6)))
    × (verify_fh false true (ok (bytes 6)) (bytes 6) ≡ ok tt)
verify_set_fh_stores_example =
    verify_set_fh_stores false gives_memory handle true (bytes 6) (err enodata) refl encodes absent

abbrev willing : Calls
willing = record {
  getattr = ok (record { size = 5000; mode = Mode.reg; nlink = 1 });
  parent_getattr = ok tt;
  get_link = ok tt;
  inode_lock = ok tt;
  index_name = ok tt;
  set_impure = ok tt;
  set_nlink_lower = ok tt;
  set_nlink_upper = ok tt;
  lock_rename = ok tt;
  prep_creds = ok tt;
  create_temp = ok 40;
  do_tmpfile = ok 40;
  allocated = true;
  copy_xattr = ok tt;
  alloc = gives_memory;
  can_decode = true;
  origin = handle;
  origin_set = ok tt;
  metacopy_set = ok tt;
  set_size = ok tt;
  set_attr = ok tt;
  create_index = ok tt;
  lookup = ok tt;
  rename = ok tt;
  link = ok tt;
  link_up_lookup = ok tt;
  link_up_link = ok tt;
  getxattr = ok tt;
  capability_set = ok tt;
  removexattr = ok tt;
}

abbrev pub file : Option ℕ → Mode → Bool → Node memory
file upper mode alias = record {
  lowerstack = record { mnt = 1; dentry = 20 } ∷ [];
  upper = upper;
  lower_inode = some 20;
  lowerdata_inode = none;
  mode = mode;
  lower_nlink = 1;
  opaque = false;
  upper_alias = alias;
  disconnected = false;
  positive = true;
  impure = false;
  whiteouts = false;
  index = false;
  upperdata = false;
  const_ino = false;
  impure_xattr = err enodata;
  blocks = fresh;
}

abbrev fs : Fs
fs = record {
  workdir = true;
  indexdir = false;
  nfs_export = false;
  index_config = false;
  metacopy_config = false;
  tmpfile = false;
  noxattr = false;
}

abbrev before : St memory
before = record {
  node = file none Mode.reg false;
  parent = some (file (some 30) Mode.dir true);
  fs = fs;
  temp = new_temp;
}

abbrev metadata_only : St memory
metadata_only = record {
  node = file (some 41) Mode.reg true;
  parent = none;
  fs = fs;
  temp = new_temp;
}

-- O_WRONLY
runs : (copy_up_one willing 1 before).0 ≡ ok tt
unfolding ◌>>=◌ ◌>>◌ call when need_index impure_parent start store_origin store_metacopy
    copy_up_inode publish set_whiteouts copy_up_workdir copy_up_tmpfile set_index set_upper_alias
    choose_dir finish_copy_up do_copy_up link_up set_upperdata copy_up_meta_inode_data copy_up_start
    copy_up_locked copy_up_rest copy_up_stat copy_up_one copy_up_data dentry_upper dentry_lower
    path_lowerdata set_impure already_copied_up_locked needs_data_copy_up_locked
    open_flags_need_copy_up set_origin check_setxattr encode_real_fh need_meta_copy_up start_blocks
runs = refl

copy_up_one_example :
    let s = (copy_up_one willing 1 before).1 in
    (already_copied_up_locked 1 s.node ≡ true)
    × (already_copied_up 1 s.node ≡ true)
    × (s.node.disconnected ≡ false)
    × (is_some s.parent ≡ true)
    × (node_upper s.parent ≡ true)
copy_up_one_example = copy_up_one_lem willing 1 before tt refl runs

runs_meta : (copy_up_meta_inode_data willing 5000 metadata_only).0 ≡ ok tt
unfolding ◌>>=◌ ◌>>◌ call copy_up_meta_inode_data copy_up_data set_upperdata dentry_upper
    path_lowerdata
runs_meta = refl

copy_up_meta_inode_data_skips_example :
    let s = (copy_up_meta_inode_data willing 5000 metadata_only).1 in
    (s.node.upperdata ≡ true) × (s.node.blocks ≡ fresh)
copy_up_meta_inode_data_skips_example =
    copy_up_meta_inode_data_skips willing 5000 metadata_only tt runs_meta

abbrev chain : Chain memory
chain = record {
  node = file none Mode.reg false;
  ancestors = file none Mode.dir false ∷ file (some 30) Mode.dir true ∷ [];
  fs = fs;
}

copy_up_flags_ends_example :
    let (o, c) = copy_up_flags 4 (λ i. willing) 1 chain in
    (o ≢ loops) × (o ≢ fault) × (o ≡ returns tt → already_copied_up 1 c.node ≡ true)
copy_up_flags_ends_example = copy_up_flags_ends (λ i. willing) 1 4 chain refl refl (omega arith)

abbrev untouched : Upper
untouched = record { noxattr = false; xattr = err enodata }
