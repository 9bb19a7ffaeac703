-- ===== src/Mount/Config/Separate.antt =====
-- The options are separated at the commas that are not escaped, and the loop over them ends
-- (super.c: ovl_next_opt, ovl_parse_opt).
use fzz_overlay.Base.{
  ℕ, zero, suc, ◌≤◌, ◌<◌, ◌≡◌, ◌≢◌, refl, ap, inl, inr, Bool, Bool-cases, true, false, List, [],
  ◌∷◌, ◌++◌, Option, none, some, ◌==◌, if◌then◌else◌, length, arith,
}
use fzz_overlay.Vfs.{Res, ok, err}
use fzz_overlay.Mount.Config.{
  backslash, comma, Config, Parsing, Parser, push_byte, next_opt, take_piece, then_parse,
  parse_loop, resolve, resolved, started, resolved_as, opt_length, parse_opt,
}

-- A text with a backslash before each comma and backslash.
unfoldable pub escape_commas : List ℕ → List ℕ
escape_commas [] = []
escape_commas (c ∷ s) =
    let rest = escape_commas s in
    if c == backslash
    then backslash ∷ c ∷ rest
    else if c == comma
    then backslash ∷ c ∷ rest
    else c ∷ rest

-- The first option of a text whose first piece is escaped is that piece, whole, and what is behind
-- the comma is left.
pub next_opt-escape_commas :
    (s t : List ℕ)
    → (next_opt false (escape_commas s ++ (comma ∷ t)) ≡ (escape_commas s, some t))
      × (next_opt false (escape_commas s) ≡ (escape_commas s, none))
unfolding next_opt escape_commas
next_opt-escape_commas [] t = (refl, refl)
next_opt-escape_commas (c ∷ s) t =
    let ih = next_opt-escape_commas s t in
    let both = λ (r : List ℕ × Option (List ℕ)). push_byte backslash (push_byte c r) in
    elim (Bool-cases (c == backslash)) [
      | inl e ↦ rw e (ap both ih.0, ap both ih.1)
      | inr e ↦ elim (Bool-cases (c == comma)) [
        | inl f ↦ rw (e, f) (ap both ih.0, ap both ih.1)
        | inr f ↦ rw (e, f) (rw (e, f) (ap (push_byte c) ih.0, ap (push_byte c) ih.1))
      ]
    ]

push_byte-rest :
    (c : ℕ) (r : List ℕ × Option (List ℕ)) (t : List ℕ) → (push_byte c r).1 ≡ some t → r.1 ≡ some t
push_byte-rest c (a, b) t h = h

next_opt_shorter : (e : Bool) (s t : List ℕ) → (next_opt e s).1 ≡ some t → suc (length t) ≤ length s
unfolding next_opt
next_opt_shorter e [] t h = absurd (ground (arith, h))
next_opt_shorter true (c ∷ s) t h =
    let n = next_opt_shorter false s t (push_byte-rest c (next_opt false s) t h) in omega (arith, n)
next_opt_shorter false (c ∷ s) t h = elim (Bool-cases (c == backslash)) [
  | inl e ↦
      let n = next_opt_shorter true s t (push_byte-rest c (next_opt true s) t (simp e at h)) in
      omega (arith, n)
  | inr e ↦ elim (Bool-cases (c == comma)) [
    | inl f ↦
        let g : some s ≡ some t = simp (e, f) at h in let same : s ≡ t = cc in rw same (omega arith)
    | inr f ↦
        let n =
          next_opt_shorter false s t (push_byte-rest c (next_opt false s) t (simp (e, f) at h)) in
        omega (arith, n)
  ]
]

opt_length_shorter : (s : List ℕ) → opt_length (next_opt false s).1 < opt_length (some s)
opt_length_shorter s = of (next_opt false s).1 refl
  where
    of : (o : Option (List ℕ)) → (next_opt false s).1 ≡ o → opt_length o < suc (length s)
    of none h = omega arith
    of (some t) h = let n = next_opt_shorter false s t h in omega (arith, n)

module _ (k : Parser) where
  then_parse_ends :
      (r : Res Parsing) (go : Parsing → Res (Option Parsing))
      → ((p : Parsing) → go p ≢ ok none)
      → then_parse k r go ≢ ok none
  then_parse_ends (err e) go h x = absurd (ground (arith, x))
  then_parse_ends (ok p) go h x = h p x

  parse_loop_ends :
      (fuel : ℕ) (opt : Option (List ℕ)) (p : Parsing)
      → opt_length opt < fuel
      → parse_loop k fuel opt p ≢ ok none
  unfolding parse_loop
  parse_loop_ends zero opt p h x = absurd (omega arith)
  parse_loop_ends (suc fuel) none p h x = absurd (ground (arith, x))
  parse_loop_ends (suc fuel) (some s) p h x =
      let n = opt_length_shorter s in
      then_parse_ends (take_piece k p (next_opt false s).0)
        (λ q. parse_loop k fuel (next_opt false s).1 q)
        (λ q. parse_loop_ends fuel (next_opt false s).1 q (omega (arith, n, h))) x

  resolved_ends : (r : Res (Option Parsing)) → r ≢ ok none → resolved k r ≢ ok none
  resolved_ends (err e) h x = absurd (ground (arith, x))
  resolved_ends (ok none) h x = h refl
  resolved_ends (ok (some p)) h x = of (resolve k p) x
    where
      of : (r : Res Config) → resolved_as k r ≢ ok none
      of (err e) y = absurd (ground (arith, y))
      of (ok c) y = absurd (ground (arith, y))

  -- The reading of the options ends, for every string of options and none: each round takes an
  -- option and at least a byte or the end, and the fuel counts these.
  pub parse_opt_ends : (opt : Option (List ℕ)) (c : Config) → parse_opt k opt c ≢ ok none
  unfolding parse_opt
  parse_opt_ends opt c = elim (Bool-cases k.mode_copied) [
    | inl e ↦ simp e (
        resolved_ends (parse_loop k (suc (opt_length opt)) opt (started k c))
          (parse_loop_ends (suc (opt_length opt)) opt (started k c) (omega arith)))
    | inr e ↦ simp e (λ x. absurd (ground (arith, x)))
  ]
