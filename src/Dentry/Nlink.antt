-- ===== src/Dentry/Nlink.antt =====
-- The link count that the index entry of a file stores, relative to the upper or the lower inode
-- (inode.c: ovl_set_nlink_common, ovl_get_nlink). An int is its 32 bits.
use fzz_overlay.Base.{
  ℕ, suc, ◌+◌, ◌^◌, ◌≤◌, ◌<◌, ◌≡◌, ◌∙◌, refl, sym, ap, inl, inr, Bool-cases, true, false, not, ◌||◌,
  List, [], ◌∷◌, Option, none, some, ◌==◌, leb, if◌then◌else◌, length, arith,
}
use fzz_overlay.Base.Words.{u32, sub32}
use fzz_overlay.Vfs.{Res, ok, err}
use fzz_overlay.Handle.{eio}

-- snprintf with "%+i", and kstrtoint, of the kernel.
pub record Decimal : Type 0 where
  pub text : ℕ → List ℕ
  pub parse : List ℕ → Res ℕ

-- A sign and at most ten digits, which are read back.
pub record Reads (k : Decimal) : Type 0 where
  pub back : (n : ℕ) → n < 2 ^ 32 → k.parse (k.text n) ≡ ok n
  pub signed :
      (n : ℕ) → (c : ℕ) × (s : List ℕ) × (k.text n ≡ c ∷ s) × ((c == b'+' || c == b'-') ≡ true)
  pub short : (n : ℕ) → length (k.text n) ≤ 11

module _ (k : Decimal) where
  -- ovl_set_nlink_common with 'U' or 'L' as `base`: the attribute that is stored.
  unfoldable pub nlink_text : ℕ → ℕ → ℕ → Res (List ℕ)
  nlink_text base nlink real_nlink =
      let buf = base ∷ k.text (sub32 nlink real_nlink) in
      if leb 13 (length buf) then err eio else ok buf

  abbrev pub nlink_sum : ℕ → Res ℕ → ℕ → ℕ
  nlink_sum fallback (err e) real_nlink = fallback
  nlink_sum fallback (ok diff) real_nlink =
      let n = u32 (real_nlink + diff) in if n == 0 || leb (2 ^ 31) n then fallback else n

  abbrev pub nlink_read : ℕ → ℕ → ℕ → Res (List ℕ) → ℕ
  nlink_read fallback lower upper (err e) = fallback
  nlink_read fallback lower upper (ok []) = fallback
  nlink_read fallback lower upper (ok (base ∷ [])) = fallback
  nlink_read fallback lower upper (ok (base ∷ sign ∷ s)) =
      if not (base == b'L' || base == b'U') || not (sign == b'+' || sign == b'-')
      then fallback
      else nlink_sum fallback (k.parse (sign ∷ s)) (if base == b'L' then lower else upper)

  -- ovl_get_nlink: the link counts of the lower and the upper inode, if there are such, and the
  -- attribute.
  unfoldable pub get_nlink : Option ℕ → Option ℕ → ℕ → Res (List ℕ) → ℕ
  get_nlink none upper fallback attribute = fallback
  get_nlink (some lower) none fallback attribute = fallback
  get_nlink (some lower) (some upper) fallback attribute =
      if lower == 1 then fallback else nlink_read fallback lower upper attribute

  nlink_read_text :
      (fallback lower upper diff : ℕ)
      → Reads k
      → diff < 2 ^ 32
      → nlink_read fallback lower upper (ok (b'U' ∷ k.text diff))
        ≡ nlink_sum fallback (ok diff) upper
  nlink_read_text fallback lower upper diff r b =
      let form = r.signed diff in
      let back = r.back diff b in
      let parsed : k.parse (form.0 ∷ form.1) ≡ ok diff = ap k.parse (sym form.2) ∙ back in
      rw form.2 (rw (form.3, parsed) refl)

  -- A count stored relative to the upper inode follows that inode: it is stored, and where the
  -- upper inode has got `more` links since, ovl_get_nlink gives the count with as many more; but
  -- where the lower inode has one link, it gives the fallback. The counts are below 2 ^ 31, and the
  -- kernel reads back the numbers that it prints.
  pub get_nlink-nlink_text :
      (nlink upper more lower fallback : ℕ)
      → Reads k
      → nlink < 2 ^ 31
      → upper < 2 ^ 31
      → 0 < nlink + more
      → nlink + more < 2 ^ 31
      → upper + more < 2 ^ 31
      → (nlink_text b'U' nlink upper ≡ ok (b'U' ∷ k.text (sub32 nlink upper)))
        × (get_nlink
              (some lower)
              (some (upper + more))
              fallback
              (ok (b'U' ∷ k.text (sub32 nlink upper)))
            ≡ (if lower == 1 then fallback else nlink + more))
  unfolding nlink_text get_nlink
  get_nlink-nlink_text nlink upper more lower fallback r b1 b2 b3 b4 b5 =
      let fits = r.short (sub32 nlink upper) in
      let stored : leb 13 (suc (length (k.text (sub32 nlink upper)))) ≡ false =
        ground (arith, fits) in
      let d : sub32 nlink upper < 2 ^ 32 = omega arith in
      let total : u32 (upper + more + sub32 nlink upper) ≡ nlink + more = omega arith in
      let here : (nlink + more == 0 || leb (2 ^ 31) (nlink + more)) ≡ false =
        ground (arith, b3, b4) in
      (
        rw stored refl,
        elim (Bool-cases (lower == 1)) [
          | inl e ↦ rw e refl
          | inr e ↦ rw e (
              nlink_read_text fallback lower (upper + more) (sub32 nlink upper) r d
              ∙ rw (total, here) refl)
        ],
      )
