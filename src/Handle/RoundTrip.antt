-- ===== src/Handle/RoundTrip.antt =====
-- Handles that are encoded, stored and read again.
use fzz_overlay.Base.{
  ℕ, zero, suc, ◌+◌, ◌/◌, ◌%◌, ◌≤◌, ◌<◌, ◌≡◌, ◌≢◌, refl, sym, ap, Bool, Bool-cases, inl, inr, true,
  false, List, [], ◌∷◌, ◌++◌, none, some, arith, ◌==◌, length, take, drop, length-append,
}
use fzz_overlay.Vfs.{ok, err}
use fzz_overlay.Handle.{
  Fh, Real, Alloc, fh_len, fh_flags, fh_type, fh_uuid, fh_fid, check_fh_len, encode_real_fh,
  header_size, uuid_size, type_byte, flag_bit, magic, cpu_flags, bool_eq, max_handle_size,
}
use fzz_overlay.Handle.Store.{Xattr, get_fh, verify_fh, verify_set_fh, bytes_eq, estale, compared}

take-append {ℓ} : {A : Type ℓ} (xs ys : List A) → take (length xs) (xs ++ ys) ≡ xs
take-append [] ys = refl
take-append (x ∷ xs) ys = ap (λ t. x ∷ t) (take-append xs ys)

drop-append {ℓ} : {A : Type ℓ} (xs ys : List A) → drop (length xs) (xs ++ ys) ≡ ys
drop-append [] ys = refl
drop-append (x ∷ xs) ys = drop-append xs ys

pub take-length {ℓ} : {A : Type ℓ} (xs : List A) (n : ℕ) → length xs ≤ n → take n xs ≡ xs
take-length [] zero h = refl
take-length [] (suc n) h = refl
take-length (x ∷ xs) zero h = absurd (omega arith)
take-length (x ∷ xs) (suc n) h = ap (λ t. x ∷ t) (take-length xs n (omega arith))

pub bytes_eq_refl : (xs : List ℕ) → bytes_eq xs xs ≡ true
bytes_eq_refl [] = refl
bytes_eq_refl (x ∷ xs) = ground (arith, bytes_eq_refl xs)

pub bytes_eq→eq : (xs ys : List ℕ) → bytes_eq xs ys ≡ true → xs ≡ ys
bytes_eq→eq [] [] h = refl
bytes_eq→eq [] (y ∷ ys) h = cc
bytes_eq→eq (x ∷ xs) [] h = cc
bytes_eq→eq (x ∷ xs) (y ∷ ys) h = ground (arith, bytes_eq→eq xs ys)

-- The bytes that are given where nothing is refused.
encoded : Bool → Real → Bool → Fh
encoded big real is_upper =
    0
    ∷ magic
    ∷ ((header_size + length real.encoded_fid) % 256)
    ∷ cpu_flags big is_upper
    ∷ type_byte real.encoded_type
    ∷ (real.uuid ++ real.encoded_fid)

encode_real_fh_cases :
    (big : Bool) (alloc : Alloc) (real : Real) (is_upper : Bool) (fh : Fh)
    → encode_real_fh big alloc real is_upper ≡ ok fh
    → (fh ≡ encoded big real is_upper) × (length real.encoded_fid ≤ max_handle_size)
unfolding encode_real_fh encoded
encode_real_fh_cases big alloc real is_upper fh h = ground arith

flags_lem :
    (big is_upper : Bool)
    → ((cpu_flags big is_upper / 8 == 0) ≡ true)
      × (bool_eq (flag_bit (cpu_flags big is_upper) 0) big ≡ true)
      × (flag_bit (cpu_flags big is_upper) 2 ≡ is_upper)
flags_lem true true = (refl, refl, refl)
flags_lem true false = (refl, refl, refl)
flags_lem false true = (refl, refl, refl)
flags_lem false false = (refl, refl, refl)

append_at :
    (n : ℕ) (xs ys : List ℕ) → length xs ≡ n → (take n (xs ++ ys) ≡ xs) × (drop n (xs ++ ys) ≡ ys)
append_at n xs ys e = rw (sym e) (take-append xs ys, drop-append xs ys)

-- What ovl_encode_real_fh gives, for a uuid of 16 bytes, is valid on a machine of the same
-- endianness. Its length byte is its length, and it holds the type, the uuid, the identifier and
-- the upper flag that went in.
pub encode_real_fh_valid :
    (big : Bool) (alloc : Alloc) (real : Real) (is_upper : Bool) (fh : Fh)
    → length real.uuid ≡ uuid_size
    → encode_real_fh big alloc real is_upper ≡ ok fh
    → (check_fh_len big fh (length fh) ≡ ok tt)
      × (fh_len fh ≡ length fh)
      × (fh_type fh ≡ type_byte real.encoded_type)
      × (fh_uuid fh ≡ real.uuid)
      × (fh_fid fh ≡ real.encoded_fid)
      × (flag_bit (fh_flags fh) 2 ≡ is_upper)
unfolding check_fh_len encoded
encode_real_fh_valid big alloc real is_upper fh hu h =
    let c = encode_real_fh_cases big alloc real is_upper fh h in
    let parts = append_at uuid_size real.uuid real.encoded_fid hu in
    let n = length-append real.uuid real.encoded_fid in
    let bits = flags_lem big is_upper in
    let small : (header_size + length real.encoded_fid) % 256 ≡ length (encoded big real is_upper) =
      omega (arith, n, hu, c.1) in
    rw c.0 (ground (arith, bits, small, n, hu), small, refl, parts.0, parts.1, bits.2)

-- A handle of ovl_encode_real_fh is read back from an attribute as it is.
get_fh_encoded :
    (big : Bool) (fh : Fh)
    → 0 < length fh
    → check_fh_len big fh (length fh) ≡ ok tt
    → get_fh big true (ok fh) ≡ ok (some fh)
unfolding get_fh
get_fh_encoded big [] h e = absurd (omega arith)
get_fh_encoded big (b ∷ fh) h e = rw e refl

-- Where an attribute holds no valid handle, ovl_verify_set_fh with `set` encodes the real dentry,
-- stores the handle whole, and returns 0. A later verification against the same handle returns 0.
pub verify_set_fh_stores :
    (big : Bool) (alloc : Alloc) (real : Real) (is_upper : Bool) (fh : Fh) (x : Xattr)
    → length real.uuid ≡ uuid_size
    → encode_real_fh big alloc real is_upper ≡ ok fh
    → get_fh big true x ≡ ok none
    → (verify_set_fh big alloc true (ok tt) real is_upper true x ≡ (ok tt, ok fh))
      × (verify_fh big true (ok fh) fh ≡ ok tt)
unfolding verify_set_fh verify_fh encoded
verify_set_fh_stores big alloc real is_upper fh x hu h hx =
    let c = encode_real_fh_valid big alloc real is_upper fh hu h in
    let whole = take-length fh (fh_len fh) (omega (arith, c.1)) in
    let nonempty : 0 < length fh =
      rw (encode_real_fh_cases big alloc real is_upper fh h).0 (omega arith) in
    let got = get_fh_encoded big fh nonempty c.0 in
    (
      rw h (rw hx (ground (arith, whole))),
      rw got (ground (arith, bytes_eq_refl (take (fh_len fh) fh))),
    )

compared_lem :
    (fh ofh : Fh)
    → fh_len fh ≡ length fh
    → fh_len ofh ≡ length ofh
    → (compared fh (ok (some ofh)) ≡ ok tt → ofh ≡ fh)
      × (ofh ≢ fh → compared fh (ok (some ofh)) ≡ err estale)
compared_lem fh ofh e1 e2 = elim (Bool-cases (fh_len fh == fh_len ofh)) [
  | inr t ↦ rw t (λ h. cc, λ n. refl)
  | inl t ↦
      let same : fh_len fh ≡ fh_len ofh = ground arith in
      let w1 = take-length fh (fh_len fh) (omega (arith, e1)) in
      let w2 = take-length ofh (fh_len fh) (omega (arith, e2, same)) in
      rw t (
        rw (w1, w2)
          (elim (Bool-cases (bytes_eq fh ofh)) [
            | inl b ↦
                rw b (λ h. sym (bytes_eq→eq fh ofh b), λ n. absurd (n (sym (bytes_eq→eq fh ofh b))))
            | inr b ↦ rw b (λ h. cc, λ n. refl)
          ]))
]

-- Verification of a stored handle against another, both made by ovl_encode_real_fh for uuids of
-- 16 bytes: it returns 0 just if they are the same bytes, and ESTALE if they are not.
pub verify_fh_decides :
    (big : Bool) (a1 a2 : Alloc) (r1 r2 : Real) (u1 u2 : Bool) (stored fh : Fh)
    → length r1.uuid ≡ uuid_size
    → length r2.uuid ≡ uuid_size
    → encode_real_fh big a1 r1 u1 ≡ ok stored
    → encode_real_fh big a2 r2 u2 ≡ ok fh
    → (verify_fh big true (ok stored) fh ≡ ok tt → stored ≡ fh)
      × (stored ≢ fh → verify_fh big true (ok stored) fh ≡ err estale)
unfolding verify_fh encoded
verify_fh_decides big a1 a2 r1 r2 u1 u2 stored fh h1 h2 e1 e2 =
    let c1 = encode_real_fh_valid big a1 r1 u1 stored h1 e1 in
    let c2 = encode_real_fh_valid big a2 r2 u2 fh h2 e2 in
    let nonempty : 0 < length stored =
      rw (encode_real_fh_cases big a1 r1 u1 stored e1).0 (omega arith) in
    rw (get_fh_encoded big stored nonempty c1.0) (compared_lem fh stored c2.1 c1.1)
