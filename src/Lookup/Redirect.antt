-- ===== src/Lookup/Redirect.antt =====
-- The redirects that ovl_get_redirect_xattr (util.c) accepts.
use fzz_overlay.Base.{
  ℕ, zero, suc, ◌<◌, ◌≡◌, ◌≢◌, ap, ◌||◌, ◌++◌, Bool, Bool-cases, true, false, List, [], ◌∷◌, some,
  arith, ◌==◌, length, get_or, inl, inr, ◌↔◌, refl,
}
use fzz_overlay.Handle.{einval}
use fzz_overlay.Vfs.{ok, err}
use fzz_overlay.Lookup.{
  slash, has_slash, is_nil, c_string, elements_filled, valid_redirect, get_redirect_xattr,
}

-- Each slash is followed by a byte that is none.
abbrev pub IsFilled : List ℕ → Type 0
IsFilled s =
    (i : ℕ)
    → i < length s
    → get_or s i 0 ≡ slash
    → (suc i < length s) × (get_or s (suc i) 0 ≢ slash)

-- No byte is a NUL.
abbrev pub HasNoNul : List ℕ → Type 0
HasNoNul [] = Unit
HasNoNul (c ∷ s) = (0 < c) × HasNoNul s

pub HasNoNul-append : (p s : List ℕ) → HasNoNul p → HasNoNul s → HasNoNul (p ++ s)
HasNoNul-append [] s hp hs = hs
HasNoNul-append (c ∷ p) s hp hs = (hp.0, HasNoNul-append p s hp.1 hs)

c_string-append : (s rest : List ℕ) → HasNoNul s → get_or rest 0 0 ≡ 0 → c_string (s ++ rest) ≡ s
c_string-append [] [] h z = refl
c_string-append [] (c ∷ rest) h z = ground (arith, z)
c_string-append (c ∷ s) rest h z =
    let here : (c == 0) ≡ false = ground (arith, h.0) in
    rw here (ap (λ t. c ∷ t) (c_string-append s rest h.1 z))

pub c_string-whole : (s : List ℕ) → HasNoNul s → c_string s ≡ s
c_string-whole [] h = refl
c_string-whole (c ∷ s) h =
    let here : (c == 0) ≡ false = ground (arith, h.0) in
    rw here (ap (λ t. c ∷ t) (c_string-whole s h.1))

pub not_nil : (s : List ℕ) → 0 < length s → is_nil s ≡ false
not_nil [] b = absurd (omega arith)
not_nil (c ∷ s) b = refl

-- A relative redirect holds no slash, or nothing; in an absolute one, no element is empty.
abbrev pub IsRedirect : List ℕ → Type 0
IsRedirect s =
    (get_or s 0 0 ≢ slash → (i : ℕ) → i < length s → get_or s i 0 ≢ slash)
    × (get_or s 0 0 ≡ slash → IsFilled s)

has_slash_sound : (s : List ℕ) (i : ℕ) → has_slash s ≡ false → i < length s → get_or s i 0 ≢ slash
has_slash_sound [] i h b e = absurd (omega arith)
has_slash_sound (c ∷ s) zero h b e = ground arith
has_slash_sound (c ∷ s) (suc i) h b e = ground (arith, has_slash_sound s i)

has_slash_complete :
    (s : List ℕ) → ((i : ℕ) → i < length s → get_or s i 0 ≢ slash) → has_slash s ≡ false
has_slash_complete [] h = refl
has_slash_complete (c ∷ s) h =
    ground (arith, h 0 (omega arith), has_slash_complete s (λ i b. h (suc i) (omega arith)))

at_slash :
    (c : ℕ) (s : List ℕ) → IsFilled s → (0 < length s) × (get_or s 0 0 ≢ slash) → IsFilled (c ∷ s)
at_slash c s f p zero b e = (omega (arith, p.0), p.1)
at_slash c s f p (suc i) b e = let r = f i (omega arith) e in (omega (arith, r.0), r.1)

past_slash : (c : ℕ) (s : List ℕ) → IsFilled s → c ≢ slash → IsFilled (c ∷ s)
past_slash c s f n zero b e = absurd (n e)
past_slash c s f n (suc i) b e = let r = f i (omega arith) e in (omega (arith, r.0), r.1)

IsFilled-sound :
    (seen : Bool) (s : List ℕ)
    → elements_filled seen s ≡ true
    → IsFilled s × (seen ≡ false → (0 < length s) × (get_or s 0 0 ≢ slash))
unfolding elements_filled
IsFilled-sound seen [] h = (λ i b e. absurd (omega arith), λ z. cc)
IsFilled-sound seen (c ∷ s) h = elim (Bool-cases (c == slash)) [
  | inl e ↦
      let rest = IsFilled-sound false s (ground (arith, h, e)) in
      (at_slash c s rest.0 (rest.1 refl), λ z. ground (arith, h, e))
  | inr e ↦
      let rest = IsFilled-sound true s (ground (arith, h, e)) in
      let n : c ≢ slash = ground (arith, e) in (past_slash c s rest.0 n, λ z. (omega arith, n))
]

filled_complete :
    (seen : Bool) (s : List ℕ)
    → IsFilled s
    → (seen ≡ false → (0 < length s) × (get_or s 0 0 ≢ slash))
    → elements_filled seen s ≡ true
unfolding elements_filled
filled_complete true [] f h = refl
filled_complete false [] f h = absurd (omega (arith, (h refl).0))
filled_complete seen (c ∷ s) f h =
    let tail : IsFilled s =
      λ i b e. let r = f (suc i) (omega arith) e in (omega (arith, r.0), r.1) in
    elim (Bool-cases (c == slash)) [
      | inl e ↦
          let here = f 0 (omega arith) (ground (arith, e)) in
          ground (arith, e, h, filled_complete false s tail (λ z. (omega (arith, here.0), here.1)))
      | inr e ↦ ground (arith, e, filled_complete true s tail (λ z. cc))
    ]

valid_redirect_iff : (s : List ℕ) → ((is_nil s || valid_redirect s) ≡ true) ↔ IsRedirect s
valid_redirect_iff [] =
    (λ h. (λ m i b. absurd (omega arith), λ q. absurd (ground (arith, q))), λ r. refl)
valid_redirect_iff (c ∷ s) = elim (Bool-cases (c == slash)) [
  | inl e ↦
      let n : c ≡ slash = ground (arith, e) in
      (
        λ h.
            let f = IsFilled-sound false s (ground (arith, h, e)) in
            (λ m. absurd (m n), λ q. at_slash c s f.0 (f.1 refl)),
        λ r.
            let f = r.1 n in
            let here = f 0 (omega arith) n in
            let tail : IsFilled s =
              λ i b q. let t = f (suc i) (omega arith) q in (omega (arith, t.0), t.1) in
            ground (arith, e, filled_complete false s tail (λ z. (omega (arith, here.0), here.1))),
      )
  | inr e ↦
      let n : c ≢ slash = ground (arith, e) in
      (
        λ h. (λ m i. has_slash_sound (c ∷ s) i (ground (arith, h, e)), λ q. absurd (n q)),
        λ r. let none = has_slash_complete (c ∷ s) (r.0 n) in ground (arith, e, none),
      )
]

-- ovl_get_redirect_xattr on an attribute that can be read and is not empty, `s` with the rest from
-- its first NUL on, gives `s` just if that is a redirect: a name without a slash, or no name at
-- all, or an absolute path in which each slash is followed by a byte that is none. Any other
-- attribute is refused with EINVAL, the empty one too. What stands behind the first NUL is not
-- looked at.
pub get_redirect_xattr_iff :
    (s rest : List ℕ)
    → HasNoNul s
    → get_or rest 0 0 ≡ 0
    → 0 < length (s ++ rest)
    → ((get_redirect_xattr (ok (s ++ rest)) ≡ ok (some s)) ↔ IsRedirect s)
      × (¬ IsRedirect s → get_redirect_xattr (ok (s ++ rest)) ≡ err einval)
      × (get_redirect_xattr (ok []) ≡ err einval)
unfolding get_redirect_xattr
get_redirect_xattr_iff s rest h z b =
    let v = valid_redirect_iff s in
    rw (c_string-append s rest h z) (
      rw (not_nil (s ++ rest) b) (elim (Bool-cases (is_nil s || valid_redirect s)) [
        | inl e ↦ rw e ((λ x. v.0 e, λ r. refl), λ n. absurd (n (v.0 e)), refl)
        | inr e ↦ rw e ((λ x. cc, λ r. cc (v.1 r, e)), λ n. refl, refl)
      ]))
