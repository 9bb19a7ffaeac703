-- ===== src/Dir/Redirect/Absolute.antt =====
-- The absolute redirect is the path, and the lookup accepts it (dir.c: ovl_get_redirect; util.c:
-- ovl_get_redirect_xattr).
use fzz_overlay.Base.{
  ℕ, ◌+◌, ◌-◌, ◌<◌, ◌≡◌, refl, ap, ◌∙◌, Bool, Bool-cases, true, false, List, [], ◌∷◌, ◌++◌, some,
  ltb, ◌==◌, if◌then◌else◌, length, length-append, inl, inr, arith,
}
use fzz_overlay.Vfs.{Res, ok, err}
use fzz_overlay.Lookup.{
  slash, is_absolute, has_slash, elements_filled, valid_redirect, get_redirect_xattr,
}
use fzz_overlay.Lookup.Redirect.{HasNoNul, HasNoNul-append, c_string-whole, not_nil}
use fzz_overlay.Dir.Redirect.{Step, text_of, absolute_loop, get_redirect, exdev}

-- The path of a dentry: from the root, or from the last absolute redirect on the way down.
abbrev pub path_of : List Step → List ℕ
path_of [] = []
path_of (d ∷ ds) =
    let above = path_of ds in
    if is_absolute (text_of d) then text_of d else above ++ (slash ∷ text_of d)

-- Each name or redirect on the way is one that the lookup accepts.
abbrev pub AllValid : List Step → Type 0
AllValid [] = Unit
AllValid (d ∷ ds) = (valid_redirect (text_of d) ≡ true) × HasNoNul (text_of d) × AllValid ds

append_assoc : (xs ys zs : List ℕ) → xs ++ (ys ++ zs) ≡ (xs ++ ys) ++ zs
append_assoc [] ys zs = refl
append_assoc (x ∷ xs) ys zs = ap (λ z. x ∷ z) (append_assoc xs ys zs)

append_nil : (xs : List ℕ) → xs ++ [] ≡ xs
append_nil [] = refl
append_nil (x ∷ xs) = ap (λ z. x ∷ z) (append_nil xs)

absolute_append :
    (s buf : List ℕ) → valid_redirect s ≡ true → is_absolute (s ++ buf) ≡ is_absolute s
absolute_append [] buf h = absurd cc
absolute_append (c ∷ s) buf h = refl

abbrev bounded : ℕ → List ℕ → List ℕ → Res (List ℕ)
bounded buflen path buf = if ltb buflen (length path) then err exdev else ok (path ++ buf)

-- The room that is left is enough for what stands above, or it is not.
bounded_above :
    (buflen : ℕ) (text above buf : List ℕ)
    → (if ltb buflen (length text + 1)
        then err exdev
        else bounded (buflen - length text - 1) above (slash ∷ text ++ buf))
      ≡ bounded buflen (above ++ (slash ∷ text)) buf
bounded_above buflen text above buf =
    let long = length-append above (slash ∷ text) in
    let whole = append_assoc above (slash ∷ text) buf in
    elim (Bool-cases (ltb buflen (length text + 1))) [
      | inl a ↦
          let b : ltb buflen (length (above ++ (slash ∷ text))) ≡ true = ground (arith, long, a) in
          rw (a, b) refl
      | inr a ↦
          let b : ltb (buflen - length text - 1) (length above)
              ≡ ltb buflen (length (above ++ (slash ∷ text))) =
            ground (arith, long, a) in
          rw (a, b, whole) refl
    ]

absolute_loop_lem :
    (buflen : ℕ) (buf : List ℕ) (ds : List Step)
    → AllValid ds
    → absolute_loop buflen buf ds ≡ bounded buflen (path_of ds) buf
unfolding absolute_loop
absolute_loop_lem buflen buf [] h = ground arith
absolute_loop_lem buflen buf (d ∷ ds) h =
    let text = text_of d in
    let same = absolute_append text buf h.0 in
    elim (Bool-cases (is_absolute text)) [
      | inl a ↦
          rw (a, same ∙ a)
            (ap (λ n. if ltb buflen n then err exdev else ok (text ++ buf)) (omega arith))
      | inr a ↦
          rw
            (a, same ∙ a, absolute_loop_lem (buflen - length text - 1) (slash ∷ text ++ buf) ds h.2)
            (bounded_above buflen text (path_of ds) buf)
    ]

-- `buf` is nothing, or goes on with a slash.
abbrev GoesOn : List ℕ → Type 0
GoesOn [] = Unit
GoesOn (c ∷ s) = (c ≡ slash) × (elements_filled false s ≡ true)

filled_append :
    (seen : Bool) (s buf : List ℕ)
    → elements_filled seen s ≡ true
    → GoesOn buf
    → elements_filled seen (s ++ buf) ≡ true
unfolding elements_filled
filled_append seen [] [] h g = h
filled_append seen [] (c ∷ s) h g = ground (arith, h, g)
filled_append seen (x ∷ s) buf h g = elim (Bool-cases (x == slash)) [
  | inl e ↦ ground (arith, h, e, filled_append false s buf (ground (arith, h, e)) g)
  | inr e ↦ ground (arith, h, e, filled_append true s buf (ground (arith, h, e)) g)
]

name_filled : (s : List ℕ) → has_slash s ≡ false → elements_filled true s ≡ true
unfolding elements_filled
name_filled [] h = refl
name_filled (c ∷ s) h = ground (arith, h, name_filled s (ground (arith, h)))

step_filled :
    (s : List ℕ) → valid_redirect s ≡ true → is_absolute s ≡ false → elements_filled false s ≡ true
unfolding elements_filled
step_filled [] h a = absurd cc
step_filled (c ∷ s) h a = ground (arith, h, a, name_filled s (ground (arith, h, a)))

absolute_GoesOn : (s : List ℕ) → valid_redirect s ≡ true → is_absolute s ≡ true → GoesOn s
absolute_GoesOn [] h a = tt
absolute_GoesOn (c ∷ s) h a = (ground (arith, h, a), ground (arith, h, a))

GoesOn-append :
    (p s : List ℕ) → GoesOn p → elements_filled false s ≡ true → GoesOn (p ++ (slash ∷ s))
GoesOn-append [] s g h = (refl, h)
GoesOn-append (c ∷ p) s g h = (g.0, filled_append false p (slash ∷ s) g.1 (refl, h))

path_GoesOn : (ds : List Step) → AllValid ds → GoesOn (path_of ds)
path_GoesOn [] h = tt
path_GoesOn (d ∷ ds) h = elim (Bool-cases (is_absolute (text_of d))) [
  | inl a ↦ rw a (absolute_GoesOn (text_of d) h.0 a)
  | inr a ↦
      rw a (
        GoesOn-append (path_of ds) (text_of d) (path_GoesOn ds h.2) (step_filled (text_of d) h.0 a))
]

GoesOn-valid : (s : List ℕ) → 0 < length s → GoesOn s → valid_redirect s ≡ true
GoesOn-valid [] b g = absurd (omega arith)
GoesOn-valid (c ∷ s) b g = ground (arith, g)

valid_not_empty : (s : List ℕ) → valid_redirect s ≡ true → 0 < length s
valid_not_empty [] h = absurd cc
valid_not_empty (c ∷ s) h = omega arith

path_not_empty : (d : Step) (ds : List Step) → AllValid (d ∷ ds) → 0 < length (path_of (d ∷ ds))
path_not_empty d ds h = elim (Bool-cases (is_absolute (text_of d))) [
  | inl a ↦ rw a (valid_not_empty (text_of d) h.0)
  | inr a ↦ rw a (omega (arith, length-append (path_of ds) (slash ∷ text_of d)))
]

path_HasNoNul : (ds : List Step) → AllValid ds → HasNoNul (path_of ds)
path_HasNoNul [] h = tt
path_HasNoNul (d ∷ ds) h = elim (Bool-cases (is_absolute (text_of d))) [
  | inl a ↦ rw a h.1
  | inr a ↦
      rw a
        (HasNoNul-append (path_of ds) (slash ∷ text_of d) (path_HasNoNul ds h.2) (omega arith, h.1))
]

-- The absolute redirect of a dentry below the root is its path from the root, or from the last
-- absolute redirect above it, if that fits into the bound, and EXDEV otherwise; if the names and
-- redirects on the way are valid and without a NUL, so is the path for ovl_get_redirect_xattr.
pub get_redirect-path_of :
    (redirect_max : ℕ) (name : List ℕ) (d : Step) (ds : List Step)
    → AllValid (d ∷ ds)
    → let path = path_of (d ∷ ds) in
      (get_redirect redirect_max true name (d ∷ ds) true
        ≡ (if ltb redirect_max (length path) then err exdev else ok path))
      × (get_redirect_xattr (ok path) ≡ ok (some path))
unfolding get_redirect get_redirect_xattr
get_redirect-path_of redirect_max name d ds h =
    let valid = GoesOn-valid (path_of (d ∷ ds)) (path_not_empty d ds h) (path_GoesOn (d ∷ ds) h) in
    (
      absolute_loop_lem redirect_max [] (d ∷ ds) h
          ∙ ap (λ p. if ltb redirect_max (length (path_of (d ∷ ds))) then err exdev else ok p)
              (append_nil (path_of (d ∷ ds))),
      rw (c_string-whole (path_of (d ∷ ds)) (path_HasNoNul (d ∷ ds) h))
          (rw valid (rw (not_nil (path_of (d ∷ ds)) (path_not_empty d ds h)) refl)),
    )
