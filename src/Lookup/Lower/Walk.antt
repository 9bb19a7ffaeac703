-- ===== src/Lookup/Lower/Walk.antt =====
-- The loop over ovl_path_next (namei.c) gives the layers of a dentry in turn.
use fzz_overlay.Base.{
  ℕ, zero, suc, ◌+◌, ◌-◌, ◌<◌, ◌≡◌, refl, sym, ap, true, false, List, [], ◌∷◌, ◌++◌, Option, none,
  some, ltb, length, get_elem?, length-append, arith,
}
use fzz_overlay.Lookup.Lower.{path_next, lower_at, lower_next, path_loop, cons_path}

-- The paths of a dentry, the upper one first.
abbrev pub paths_of {ℓ} : {A : Type ℓ} → Option A → List A → List A
paths_of none lowers = lowers
paths_of (some upper) lowers = upper ∷ lowers

module _ {A : Type 0} where
  append_assoc : (xs ys zs : List A) → (xs ++ ys) ++ zs ≡ xs ++ (ys ++ zs)
  append_assoc [] ys zs = refl
  append_assoc (x ∷ xs) ys zs = ap (λ t. x ∷ t) (append_assoc xs ys zs)

  get_elem?-append_mid :
      (pre post : List A) (x : A) → get_elem? (pre ++ (x ∷ post)) (length pre) ≡ some x
  get_elem?-append_mid [] post x = refl
  get_elem?-append_mid (y ∷ pre) post x = get_elem?-append_mid pre post x

  lower_next_mid :
      (pre post : List A) (x : A)
      → lower_next (suc (length pre)) (pre ++ (x ∷ post))
        ≡ lower_at (suc (length pre)) (pre ++ (x ∷ post)) (some x)
  lower_next_mid pre post x =
      let n = length-append pre (x ∷ post) in
      let inside : ltb (length (pre ++ (x ∷ post))) (suc (length pre)) ≡ false =
        ground (arith, n) in
      let back : suc (length pre) - 1 ≡ length pre = omega arith in
      rw (inside, back, get_elem?-append_mid pre post x) refl

  lower_loop :
      (fuel : ℕ) (upper : Option A) (pre post : List A) (x : A)
      → length post < fuel
      → path_loop fuel (suc (length pre)) upper (pre ++ (x ∷ post)) ≡ some (x ∷ post)
  unfolding path_loop path_next
  lower_loop zero upper pre post x h = absurd (omega arith)
  lower_loop (suc fuel) upper pre [] x h =
      let n = length-append pre (x ∷ []) in
      let last : ltb (suc (length pre)) (length (pre ++ (x ∷ []))) ≡ false = ground (arith, n) in
      rw (lower_next_mid pre [] x, last) refl
  lower_loop (suc fuel) upper pre (y ∷ post) x h =
      let n = length-append pre (x ∷ y ∷ post) in
      let more : ltb (suc (length pre)) (length (pre ++ (x ∷ y ∷ post))) ≡ true =
        ground (arith, n) in
      let m = length-append pre (x ∷ []) in
      let next : suc (length pre) + 1 ≡ suc (length (pre ++ (x ∷ []))) = omega (arith, m) in
      let ih = lower_loop fuel upper (pre ++ (x ∷ [])) post y (omega arith) in
      rw (lower_next_mid pre (y ∷ post) x, more, next)
        (rw (sym (append_assoc pre (x ∷ []) (y ∷ post))) (rw ih refl))

  -- The loop over ovl_path_next gives the upper path of a dentry, if there is one, and its lower
  -- ones from the top, each once, and ends without a BUG_ON, if there is any path.
  pub path_loop_lem :
      (upper : Option A) (lowers : List A)
      → 0 < length (paths_of upper lowers)
      → path_loop (suc (length lowers)) 0 upper lowers ≡ some (paths_of upper lowers)
  unfolding path_loop path_next
  path_loop_lem none [] h = absurd (omega arith)
  path_loop_lem none (x ∷ post) h =
      lower_loop (suc (length (x ∷ post))) none [] post x (omega arith)
  path_loop_lem (some upper) [] h = refl
  path_loop_lem (some upper) (x ∷ post) h =
      let rest = lower_loop (suc (length post)) (some upper) [] post x (omega arith) in
      let more : ltb 0 (length (x ∷ post)) ≡ true = ground arith in
      rw more (ap (cons_path upper) rest)
