-- ===== src/Lookup/Index/Named.antt =====
-- Index entries that carry the name of their origin's handle (namei.c).
use fzz_overlay.Base.{
  ℕ, ◌*◌, ◌/◌, ◌≤◌, ◌≡◌, ◌≢◌, refl, ◌∙◌, Bool, Bool-cases, true, false, List, some, ◌==◌, ltb,
  length, get_or, arith, inl, inr,
}
use fzz_overlay.Vfs.{Res, ok, err}
use fzz_overlay.Handle.{
  Fh, Real, Alloc, fh_len, check_fh_len, encode_real_fh, header_size, uuid_size, enodata,
}
use fzz_overlay.Handle.Store.{get_fh, verify_fh, estale}
use fzz_overlay.Handle.RoundTrip.{
  encode_real_fh_valid, verify_set_fh_stores, verify_fh_decides, take-length,
}
use fzz_overlay.Lookup.{Layers}
use fzz_overlay.Lookup.Origin.{Mounts}
use fzz_overlay.Lookup.Index.{
  Indices, index_upper, origin_verified, fh_verified, verify_index, index_name, index_name_fh,
}

-- bin2hex writes two hexadecimal digits for each byte, and hex2bin reads them back.
pub record Hex (l : Layers) (x : Indices l) : Type 0 where
  pub reads_back : (bs : List ℕ) → x.hex2bin (x.bin2hex bs) ≡ some bs
  pub twice : (bs : List ℕ) → length (x.bin2hex bs) ≡ length bs * 2
  pub digits : (bs : List ℕ) → (get_or (x.bin2hex bs) 0 0 == b'#') ≡ false

check_fh_len_size : (big : Bool) (fh : Fh) (n : ℕ) → check_fh_len big fh n ≡ ok tt → header_size ≤ n
unfolding check_fh_len
check_fh_len_size big fh n h = ground (arith, h)

stored_decides :
    (big : Bool) (alloc a2 : Alloc) (real r2 : Real) (u2 : Bool) (fh stored : Fh)
    → length real.uuid ≡ uuid_size
    → length r2.uuid ≡ uuid_size
    → encode_real_fh big alloc real false ≡ ok fh
    → encode_real_fh big a2 r2 u2 ≡ ok stored
    → (stored ≡ fh → verify_fh big true (ok stored) fh ≡ ok tt)
      × (stored ≢ fh → verify_fh big true (ok stored) fh ≡ err estale)
unfolding get_fh
stored_decides big alloc a2 real r2 u2 fh stored hu h2 e e2 = (
  (λ s. rw s (verify_set_fh_stores big alloc real false fh (err enodata) hu e refl).1),
  (verify_fh_decides big a2 alloc r2 real u2 false stored fh h2 hu e2 e).1,
)

module _ (l : Layers) (k : Mounts l) (x : Indices l) where
  -- The name is that of the handle, whole.
  index_name_whole :
      (alloc : Alloc) (real : Real) (fh : Fh) (n : List ℕ)
      → length real.uuid ≡ uuid_size
      → encode_real_fh k.big_endian alloc real false ≡ ok fh
      → index_name l k x alloc real ≡ ok n
      → n ≡ x.bin2hex fh
  unfolding index_name index_name_fh
  index_name_whole alloc real fh n hu e h =
      let v = encode_real_fh_valid k.big_endian alloc real false fh hu e in
      let whole = take-length fh (fh_len fh) (omega (arith, v.1)) in ground (arith, e, h, whole)

  verify_index_named :
      (index : l.Dentry) (fh : Fh)
      → Hex l x
      → l.positive index ≡ true
      → k.allocated ≡ true
      → x.name index ≡ x.bin2hex fh
      → check_fh_len k.big_endian fh (length fh) ≡ ok tt
      → verify_index l k x index ≡ fh_verified l k x index fh (ok tt)
  unfolding verify_index
  verify_index_named index fh hex pos al nm v =
      let two = hex.twice fh in
      let size = check_fh_len_size k.big_endian fh (length fh) v in
      let half : length (x.bin2hex fh) / 2 ≡ length fh = omega (arith, two) in
      let whole = take-length (x.bin2hex fh) (length fh * 2) (omega (arith, two)) in
      let long : ltb (length (x.bin2hex fh)) (header_size * 2) ≡ false =
        ground (arith, two, size) in
      simp (nm, pos, al, hex.digits fh, long, whole, hex.reads_back fh, half, v) refl

  file_verified :
      (index : l.Dentry) (fh : Fh)
      → l.whiteout index ≡ false
      → x.is_dir index ≡ false
      → fh_verified l k x index fh (ok tt)
        ≡ origin_verified l k x index fh
            (verify_fh k.big_endian k.allocated (k.origin_xattr index) fh)
  unfolding index_upper
  file_verified index fh wh nd = simp (wh, nd) refl

  origin_verified-linked :
      (index : l.Dentry) (fh : Fh) (r : Res (Unit {0}))
      → (x.nlink index == 1) ≡ false
      → origin_verified l k x index fh r ≡ r
  origin_verified-linked index fh (err e) many = refl
  origin_verified-linked index fh (ok _) many = elim (Bool-cases (x.is_dir index)) [
    | inl d ↦ simp (d, many) refl
    | inr d ↦ simp (d, many) refl
  ]

  -- The index entry of a file that has other links too, named by ovl_get_index_name after its
  -- origin, is verified if its stored origin is that handle, and refused with ESTALE if it is
  -- another handle of ovl_encode_real_fh.
  pub verify_index_decides :
      (index : l.Dentry) (alloc a2 : Alloc) (real r2 : Real) (u2 : Bool) (fh stored : Fh)
      (n : List ℕ)
      → Hex l x
      → l.positive index ≡ true
      → l.whiteout index ≡ false
      → x.is_dir index ≡ false
      → x.nlink index ≢ 1
      → k.allocated ≡ true
      → length real.uuid ≡ uuid_size
      → length r2.uuid ≡ uuid_size
      → encode_real_fh k.big_endian alloc real false ≡ ok fh
      → encode_real_fh k.big_endian a2 r2 u2 ≡ ok stored
      → index_name l k x alloc real ≡ ok n
      → x.name index ≡ n
      → k.origin_xattr index ≡ ok stored
      → (stored ≡ fh → verify_index l k x index ≡ ok tt)
        × (stored ≢ fh → verify_index l k x index ≡ err estale)
  verify_index_decides index alloc a2 real r2 u2 fh stored n hex pos wh nd nl al hu h2 e e2 hn nm
        ox =
      let v = encode_real_fh_valid k.big_endian alloc real false fh hu e in
      let hexed = nm ∙ index_name_whole alloc real fh n hu e hn in
      let many : (x.nlink index == 1) ≡ false = ground (arith, nl) in
      let verified =
        verify_index_named index fh hex pos al hexed v.0
        ∙ (file_verified index fh wh nd
            ∙ (origin_verified-linked index fh
                  (verify_fh k.big_endian k.allocated (k.origin_xattr index) fh) many
                ∙ stored_verified)) in
      rw verified (stored_decides k.big_endian alloc a2 real r2 u2 fh stored hu h2 e e2)
    where
      stored_verified :
          verify_fh k.big_endian k.allocated (k.origin_xattr index) fh
          ≡ verify_fh k.big_endian true (ok stored) fh
      stored_verified = simp (al, ox) refl
