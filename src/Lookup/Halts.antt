-- ===== src/Lookup/Halts.antt =====
-- The walk of ovl_lookup_layer (namei.c) along a name of any length ends.
use fzz_overlay.Base.{
  ℕ, zero, suc, ◌+◌, ◌-◌, ◌≤◌, ◌<◌, ◌≡◌, ◌≢◌, refl, ap, Bool, Bool-cases, true, false, not, List,
  [], ◌∷◌, Option, none, some, arith, ◌==◌, leb, length, get_or, drop, inl, inr, length-append,
}
use fzz_overlay.Base.Words.{sub64}
use fzz_overlay.Vfs.{Res, ok, err}
use fzz_overlay.Lookup.{
  Layers, Look, Walked, loops, slash, element, from_slash, is_nil, is_absolute, rest_of,
  lookup_single, stepped, walk, lookup_layer,
}
use fzz_overlay.Lookup.Rails.{element-from_slash}

length-drop_le : (k : ℕ) (s : List ℕ) → length (drop k s) ≤ length s - k
length-drop_le zero s = omega arith
length-drop_le (suc k) [] = omega arith
length-drop_le (suc k) (c ∷ s) = omega (arith, length-drop_le k s)

-- What is left is no longer than `rem` says, on the rails or off them.
rest_of_short : (name : List ℕ) (rem : ℕ) → length (rest_of name rem) ≤ rem
rest_of_short name rem = omega (arith, length-drop_le (length name - rem) name)

element_shorter : (s : List ℕ) → is_nil (from_slash s) ≡ false → length (element s) + 1 ≤ length s
element_shorter s h =
    let parts = ap (λ (x : List ℕ). length x) (element-from_slash s) in
    omega (arith, parts, length-append (element s) (from_slash s), some_left (from_slash s) h)
  where
    some_left : (x : List ℕ) → is_nil x ≡ false → 0 < length x
    some_left [] e = absurd cc
    some_left (c ∷ x) e = omega arith

module _ (l : Layers) where
  stepped_halts :
      (end : Bool) (rem : ℕ) (r : Res (Option l.Dentry) × Look)
      (go : l.Dentry → Look → Walked l.Dentry × Look)
      → (end ≡ false → (this : l.Dentry) (d : Look) → (go this d).0 ≢ loops)
      → (stepped l end rem r go).0 ≢ loops
  stepped_halts end rem (err e, d) go h = λ z. cc
  stepped_halts true rem (ok o, d) go h = λ z. cc
  stepped_halts false rem (ok none, d) go h = elim (Bool-cases (leb (length d.name) rem)) [
    | inl e ↦ rw e (λ z. cc)
    | inr e ↦ rw e (λ z. cc)
  ]
  stepped_halts false rem (ok (some this), d) go h = elim (Bool-cases (leb (length d.name) rem)) [
    | inl e ↦ rw e (λ z. cc)
    | inr e ↦ rw e (elim (Bool-cases (l.can_lookup this)) [
      | inl f ↦ rw f (h refl this d)
      | inr f ↦ rw f (λ z. cc)
    ])
  ]

  walk_halts :
      (fuel : ℕ) (base : l.Dentry) (rem : ℕ) (d : Look)
      → rem < fuel
      → (walk l fuel base rem d).0 ≢ loops
  unfolding walk
  walk_halts zero base rem d hf = absurd (omega arith)
  walk_halts (suc fuel) base rem d hf =
      let s = rest_of d.name rem in
      let rem' = sub64 rem (length (element s) + 1) in
      let single = lookup_single l base d (element s) (length d.name - rem) (from_slash s) in
      elim (Bool-cases (not (get_or d.name (length d.name - rem - 1) 0 == slash))) [
        | inl e ↦ rw e (λ z. cc)
        | inr e ↦ rw e (
            stepped_halts (is_nil (from_slash s)) rem' single (λ this d'. walk l fuel this rem' d')
              (λ q this d'.
                walk_halts fuel this rem' d'
                  (omega (arith, element_shorter s q, rest_of_short d.name rem, hf))))
      ]

  -- The walk along a name never runs out of fuel, whatever the redirects on it: each element that
  -- another follows leaves less of the name.
  pub lookup_layer_halts : (base : l.Dentry) (d : Look) → (lookup_layer l base d).0 ≢ loops
  unfolding lookup_layer
  lookup_layer_halts base d = elim (Bool-cases (is_absolute d.name)) [
    | inr e ↦ rw e (λ z. cc)
    | inl e ↦ rw e (elim (Bool-cases (l.can_lookup base)) [
      | inr f ↦ rw f (λ z. cc)
      | inl f ↦ rw f (walk_halts (length d.name) base (length d.name - 1) d (long d.name e))
    ])
  ]
    where
      long : (n : List ℕ) → is_absolute n ≡ true → length n - 1 < length n
      long [] h = absurd (ground (arith, h))
      long (c ∷ n) h = omega arith
