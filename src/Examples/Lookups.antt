-- ===== src/Examples/Lookups.antt =====
-- Three layers of a directory, named 0, 1 and 2. The entry of layer n is named n + 10, the upper
-- entry is opaque, and nothing else is there.
use fzz_overlay.Base.{
  ℕ, zero, ap, ◌-◌, ◌+◌, ◌*◌, ◌/◌, ◌%◌, ◌≡◌, ◌≢◌, ◌≤◌, ◌↔◌, refl, true, false, List, [], ◌∷◌, ◌++◌,
  Option, none, some, arith, replicate, ltb, ◌==◌, if◌then◌else◌, length, get_or,
}
use fzz_overlay.Vfs.{ok, err}
use fzz_overlay.Handle.{Fh, enodata, einval, encode_real_fh, check_fh_len}
use fzz_overlay.Handle.Store.{get_fh, estale}
use fzz_overlay.Lookup.{
  Layers, Look, off_rails, loops, lookup_layer, lookup_single, single_found, single_dir,
  get_redirect_xattr,
}
use fzz_overlay.Lookup.Redirect.{IsRedirect, get_redirect_xattr_iff}
use fzz_overlay.Lookup.Rails.{lookup_layer_ends}
use fzz_overlay.Lookup.Merge.{
  Options, Lower, LookupCalls, Scan, UpperFound, scan_lowers, lookup_upper,
}
use fzz_overlay.Lookup.Merge.Whole.{look_for, lookup}
use fzz_overlay.Lookup.Merge.Layered.{Descends, scan_lowers-Fits}
use fzz_overlay.Lookup.Merge.Hidden.{lookup_ends, lookup-stopped}
use fzz_overlay.Lookup.Origin.{
  Mounts, Topmost, decode_real_fh, check_origin, check_origin_fh, first_origin, check_origin_lem,
}
use fzz_overlay.Lookup.Lower.Walk.{path_loop_lem}
use fzz_overlay.Lookup.Lower.{path_loop, lower_positive}
use fzz_overlay.Lookup.Lower.Topmost.{TopmostSays, lower_positive_topmost}
use fzz_overlay.Lookup.Index.{Indices, verify_index, index_name, index_name_fh}
use fzz_overlay.Lookup.Index.Named.{Hex, verify_index_decides}
use fzz_overlay.Examples.Copies.{handle, gives_memory}

get_redirect_xattr_iff_example :
    ((get_redirect_xattr (ok (b'/' ∷ b'a' ∷ 0 ∷ b'/' ∷ [])) ≡ ok (some (b'/' ∷ b'a' ∷ [])))
      ↔ IsRedirect (b'/' ∷ b'a' ∷ []))
    × (¬ IsRedirect (b'/' ∷ b'a' ∷ [])
        → get_redirect_xattr (ok (b'/' ∷ b'a' ∷ 0 ∷ b'/' ∷ [])) ≡ err einval)
    × (get_redirect_xattr (ok []) ≡ err einval)
get_redirect_xattr_iff_example =
    get_redirect_xattr_iff (b'/' ∷ b'a' ∷ []) (0 ∷ b'/' ∷ []) (omega arith, (omega arith, tt)) refl
      (omega arith)

abbrev layers : Layers
layers = record {
  Dentry = ℕ;
  lookup_one = λ base name. ok (base + 10);
  positive = λ d. ltb d 20;
  weird = λ d. false;
  whiteout = λ d. false;
  is_reg = λ d. false;
  can_lookup = λ d. true;
  trap = λ d. false;
  opaque_xattr = λ d. if d == 10 then ok (b'y' ∷ []) else err enodata;
  metacopy_xattr = λ d. err enodata;
  redirect_xattr = λ d. err enodata;
}

abbrev path : Look
path = record {
  name = b'/' ∷ b'a' ∷ [];
  is_dir = false;
  opaque = false;
  stop = false;
  last = false;
  redirect = none;
  metacopy = false;
}

lookup_layer_ends_example :
    ((lookup_layer layers 1 path).0 ≢ off_rails) × ((lookup_layer layers 1 path).0 ≢ loops)
lookup_layer_ends_example = lookup_layer_ends layers 1 path (omega arith)

abbrev options : Options
options = record {
  redirect_follow = true;
  metacopy = false;
  index = false;
  indexdir = false;
  index_all = false;
  verify_lower = false;
  noxattr = false;
  namelen = 255;
}

abbrev calls : LookupCalls layers
calls = record {
  remote = λ d. false;
  origin = λ d. ok none;
  fix_origin = λ d. ok tt;
  verify_origin = λ d. ok tt;
  strdup = true;
  stack_allocated = true;
  entry_allocated = true;
  lookup_index = λ u d. ok none;
  inode_got = ok tt;
}

abbrev lowers : List (Lower layers)
lowers = record { dentry = 1; idx = 1 } ∷ record { dentry = 2; idx = 2 } ∷ []

-- The name is in no upper layer.
abbrev lower_only : UpperFound layers
lower_only = record {
  d = record path { name = b'a' ∷ [] };
  upper = none;
  origin_path = none;
  metacopy = false;
  redirect = none;
  opaque = false;
  at_root = true;
}

lowers-Descends : Descends layers 0 2 lowers
lowers-Descends = (omega arith, (omega arith, omega arith))

scan_lowers-Fits_example :
    scan_lowers layers options calls lowers lowers lower_only ≢ ok none
    × ((t : Scan layers)
        → scan_lowers layers options calls lowers lowers lower_only ≡ ok (some t)
        → Descends layers 0 2 t.stack × (length t.stack ≤ 2))
scan_lowers-Fits_example =
    scan_lowers-Fits layers options calls lowers lowers lower_only lowers-Descends lowers-Descends

lookup_ends_example : lookup layers options calls lowers (some 0) lowers true (b'a' ∷ []) ≢ ok none
lookup_ends_example =
    lookup_ends layers options calls lowers (some 0) lowers true (b'a' ∷ []) lowers-Descends
      lowers-Descends

abbrev opaque_upper : UpperFound layers
opaque_upper = record {
  d = record path { name = b'a' ∷ []; is_dir = true; stop = true; opaque = true };
  upper = some 10;
  origin_path = none;
  metacopy = false;
  redirect = none;
  opaque = true;
  at_root = true;
}

upper_found_here :
    (poe : List (Lower layers))
    → lookup_upper layers options calls lowers
        (some 0)
        true
        (look_for layers options calls lowers (b'a' ∷ []) poe)
      ≡ ok (some opaque_upper)
unfolding lookup_upper lookup_layer lookup_single single_found single_dir
upper_found_here poe = refl

lookup-stopped_example :
    lookup layers options calls lowers (some 0) lowers true (b'a' ∷ [])
    ≡ lookup layers options calls lowers (some 0) [] true (b'a' ∷ [])
lookup-stopped_example =
    lookup-stopped layers options calls lowers (some 0) lowers [] true (b'a' ∷ []) opaque_upper
      (upper_found_here lowers) (upper_found_here []) refl

abbrev stored_handle : Fh
stored_handle = 0 ∷ 0xfb ∷ 24 ∷ 0 ∷ 1 ∷ (replicate 16 9 ++ (4 ∷ 5 ∷ 6 ∷ []))

abbrev other_handle : Fh
other_handle = 0 ∷ 0xfb ∷ 24 ∷ 0 ∷ 1 ∷ (replicate 16 9 ++ (4 ∷ 5 ∷ 7 ∷ []))

-- The handle is stale in layer 1, and decodes to 12 in layer 2.
abbrev mounts : Mounts layers
mounts = record {
  big_endian = false;
  uuid = λ mnt. replicate 16 9;
  decode = λ mnt fid len type connected. if mnt == 2 then ok 12 else err estale;
  format = λ d. 0;
  origin_xattr = λ d. ok stored_handle;
  upper_xattr = λ d. err enodata;
  allocated = true;
  path_allocated = true;
}

finds_origin :
    check_origin layers mounts (1 ∷ 2 ∷ []) 10 0 ≡ ok (some record { dentry = 12; idx = 2 })
unfolding check_origin get_fh check_fh_len check_origin_fh first_origin decode_real_fh
finds_origin = refl

check_origin_lem_example :
    (fh : Fh) × (get_fh false true (ok stored_handle) ≡ ok (some fh))
    × (decode_real_fh layers mounts fh 2 false ≡ ok (some 12))
    × Topmost layers mounts (1 ∷ 2 ∷ []) fh false 2
    × (false ≡ false → zero ≡ 0)
check_origin_lem_example =
    check_origin_lem layers mounts (1 ∷ 2 ∷ []) 10 0 (record { dentry = 12; idx = 2 }) finds_origin

-- Two characters for each byte, from 0 on.
abbrev in_hex : List ℕ → List ℕ
in_hex [] = []
in_hex (b ∷ bs) = (48 + b / 16) ∷ (48 + b % 16) ∷ in_hex bs

abbrev with_byte : ℕ → ℕ → Option (List ℕ) → Option (List ℕ)
with_byte x y none = none
with_byte x y (some bs) = some (((x - 48) * 16 + (y - 48)) ∷ bs)

abbrev from_hex : List ℕ → Option (List ℕ)
from_hex [] = some []
from_hex (x ∷ []) = none
from_hex (x ∷ y ∷ s) = with_byte x y (from_hex s)

abbrev indices : Indices layers
indices = record {
  bin2hex = in_hex;
  hex2bin = from_hex;
  name = λ d. in_hex stored_handle;
  is_dir = λ d. false;
  inode = λ d. d;
  nlink = λ d. 2;
  overlay_nlink = λ o d. 1;
  lookup_name = λ n. err 2;
  name_allocated = true;
  verify_upper = λ i u. ok tt;
  nfs_export = false;
  upper_mnt = 0;
  lower_mnts = 1 ∷ 2 ∷ [];
}

from_hex-in_hex : (bs : List ℕ) → from_hex (in_hex bs) ≡ some bs
from_hex-in_hex [] = refl
from_hex-in_hex (b ∷ bs) =
    let same : (48 + b / 16 - 48) * 16 + (48 + b % 16 - 48) ≡ b = omega arith in
    rw (from_hex-in_hex bs) (ap (λ (k : ℕ). some (k ∷ bs)) same)

length-in_hex : (bs : List ℕ) → length (in_hex bs) ≡ length bs * 2
length-in_hex [] = omega arith
length-in_hex (b ∷ bs) = omega (arith, length-in_hex bs)

in_hex_digits : (bs : List ℕ) → (get_or (in_hex bs) 0 0 == b'#') ≡ false
in_hex_digits [] = refl
in_hex_digits (b ∷ bs) = ground arith

indices-Hex : Hex layers indices
indices-Hex = record { reads_back = from_hex-in_hex; twice = length-in_hex; digits = in_hex_digits }

encodes_origin : encode_real_fh false gives_memory handle false ≡ ok stored_handle
unfolding encode_real_fh
encodes_origin = refl

names_origin : index_name layers mounts indices gives_memory handle ≡ ok (in_hex stored_handle)
unfolding index_name index_name_fh encode_real_fh
names_origin = refl

verify_index_decides_example :
    (stored_handle ≡ stored_handle → verify_index layers mounts indices 10 ≡ ok tt)
    × (stored_handle ≢ stored_handle → verify_index layers mounts indices 10 ≡ err estale)
verify_index_decides_example =
    verify_index_decides layers mounts indices 10 gives_memory gives_memory handle handle false
      stored_handle stored_handle (in_hex stored_handle) indices-Hex refl refl refl (omega arith)
      refl refl refl encodes_origin encodes_origin names_origin refl refl

-- In the layers 15 and 0 the name is not there and there.
lower_positive_topmost_example :
    (lower_positive layers true false true (b'a' ∷ []) (15 ∷ 0 ∷ 1 ∷ []) ≡ true)
    ↔ TopmostSays layers (b'a' ∷ []) (15 ∷ 0 ∷ 1 ∷ []) true
lower_positive_topmost_example =
    lower_positive_topmost layers false (b'a' ∷ []) (15 ∷ 0 ∷ 1 ∷ []) true

path_loop_lem_example : path_loop {A = ℕ} 3 0 (some 7) (8 ∷ 9 ∷ []) ≡ some (7 ∷ 8 ∷ 9 ∷ [])
path_loop_lem_example = path_loop_lem (some 7) (8 ∷ 9 ∷ []) (omega arith)
