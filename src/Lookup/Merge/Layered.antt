-- ===== src/Lookup/Merge/Layered.antt =====
-- The stack of lower dentries that ovl_lookup (namei.c) puts together.
use fzz_overlay.Base.{
  ℕ, zero, suc, ◌+◌, ◌-◌, ◌≤◌, ◌<◌, ◌≡◌, ◌≢◌, inl, inr, refl, Bool, Bool-cases, true, false, not,
  ◌&&◌, ◌||◌, List, [], ◌∷◌, ◌++◌, Option, none, some, arith, length, drop, ltb, ◌==◌,
  if◌then◌else◌,
}
use mathlib.Core.Path.{subst}
use fzz_overlay.Vfs.{Res, ok, err}
use fzz_overlay.Dentry.{is_some}
use fzz_overlay.Lookup.{Layers, Look, Walked, done, off_rails, loops, is_nil, lookup_layer}
use fzz_overlay.Lookup.Halts.{lookup_layer_halts}
use fzz_overlay.Lookup.Merge.{
  Options, Lower, LookupCalls, Scan, Round, fails, breaks, continues, no_fuel, UpperFound,
  absolute_redirect, keep, verified, verify, fixed, merge, looked, layer_round, next_layer, scan,
  lowers_of, stack_needed, start_of, scan_lowers,
}

-- The layers go down: each has an index above the last one's and at most `n`.
abbrev pub Descends : (l : Layers) → ℕ → ℕ → List (Lower l) → Type 0
Descends l a n [] = a ≤ n
Descends l a n (x ∷ xs) = (a < x.idx) × Descends l x.idx n xs

module _ (l : Layers) where
  Descends-bound : (a n : ℕ) (xs : List (Lower l)) → Descends l a n xs → a ≤ n
  Descends-bound a n [] h = h
  Descends-bound a n (x ∷ xs) h =
      let p = h.0 in let q = Descends-bound x.idx n xs h.1 in omega arith

  Descends-from : (a b n : ℕ) (xs : List (Lower l)) → b ≤ a → Descends l a n xs → Descends l b n xs
  Descends-from a b n [] le h = omega arith
  Descends-from a b n (x ∷ xs) le h = let p = h.0 in (omega arith, h.1)

  Descends-to : (a m n : ℕ) (xs : List (Lower l)) → m ≤ n → Descends l a m xs → Descends l a n xs
  Descends-to a m n [] le h = omega arith
  Descends-to a m n (x ∷ xs) le h = (h.0, Descends-to x.idx m n xs le h.1)

  Descends-push :
      (a m : ℕ) (xs : List (Lower l)) (y : Lower l)
      → m < y.idx
      → Descends l a m xs
      → Descends l a y.idx (xs ++ (y ∷ []))
  Descends-push a m [] y lt h = (omega arith, omega arith)
  Descends-push a m (x ∷ xs) y lt h = (h.0, Descends-push x.idx m xs y lt h.1)

  Descends-drop :
      (a n k : ℕ) (xs : List (Lower l))
      → a + k ≤ n
      → Descends l a n xs
      → Descends l (a + k) n (drop k xs)
  Descends-drop a n zero xs le h = Descends-from a (a + 0) n xs (omega arith) h
  Descends-drop a n (suc k) [] le h = le
  Descends-drop a n (suc k) (x ∷ xs) le h =
      let p = h.0 in
      let up = Descends-from x.idx (a + 1) n xs (omega arith) h.1 in
      Descends-from ((a + 1) + k) (a + suc k) n (drop k xs) (omega arith)
        (Descends-drop (a + 1) n k xs (omega arith) up)

  Descends-length : (a n : ℕ) (xs : List (Lower l)) → Descends l a n xs → length xs ≤ n - a
  Descends-length a n [] h = omega arith
  Descends-length a n (x ∷ xs) h =
      let p = h.0 in
      let b = Descends-bound x.idx n xs h.1 in let q = Descends-length x.idx n xs h.1 in omega arith

-- The stack a round leaves goes down to layer `m` at most, and the parent is the one it was.
abbrev Leaves : (l : Layers) → Bool → ℕ → Round l → Type 0
Leaves l b m (fails e) = Unit
Leaves l b m (breaks t) = Descends l 0 m t.stack
Leaves l b m no_fuel = ⊥
Leaves l b m (continues t) = (t.at_root ≡ b) × Descends l 0 m t.stack

module _ (l : Layers) (o : Options) (k : LookupCalls l) (roe : List (Lower l)) where
  keep-Leaves :
      (m : ℕ) (x : Lower l) (s : Scan l)
      → m < x.idx
      → Descends l 0 m s.stack
      → Leaves l s.at_root x.idx (keep l o k roe x s)
  unfolding keep
  keep-Leaves m x s lt h = elim (Bool-cases (s.d.metacopy && not (is_nil s.stack))) [
    | inl e ↦ rw e (refl, Descends-to l 0 m x.idx s.stack (omega arith) h)
    | inr e ↦ rw e (elim (Bool-cases (is_some s.d.redirect && not o.redirect_follow)) [
      | inl f ↦ rw f tt
      | inr f ↦ rw f (elim (Bool-cases s.d.stop) [
        | inl g ↦ simp g (Descends-push l 0 m s.stack x lt h)
        | inr g ↦ simp g (refl, Descends-push l 0 m s.stack x lt h)
      ])
    ])
  ]

  verify-Leaves :
      (u g : Bool) (m : ℕ) (x : Lower l) (s : Scan l)
      → m < x.idx
      → Descends l 0 m s.stack
      → Leaves l s.at_root x.idx (verify l o k roe u g x s)
  unfolding verify
  verify-Leaves u g m x s lt h =
      elim (Bool-cases (
        u
        && is_nil s.stack
        && ((s.d.is_dir && o.verify_lower) || (not s.d.is_dir && o.index && g)))) [
          | inl e ↦ rw e (of (k.verify_origin x.dentry))
          | inr e ↦ rw e (keep-Leaves m x (record s { metacopy = s.metacopy || s.d.metacopy }) lt h)
        ]
    where
      of : (r : Res (Unit {0})) → Leaves l s.at_root x.idx (verified l o k roe x s r)
      of (err e) = elim (Bool-cases s.d.is_dir) [
        | inl f ↦ simp f (Descends-to l 0 m x.idx s.stack (omega arith) h)
        | inr f ↦ simp f tt
      ]
      of (ok _) =
          keep-Leaves m x
            (record s { origin = some x.dentry; metacopy = s.metacopy || s.d.metacopy }) lt h

  merge-Leaves :
      (u g : Bool) (m : ℕ) (x : Lower l) (s : Scan l)
      → m < x.idx
      → Descends l 0 m s.stack
      → Leaves l s.at_root x.idx (merge l o k roe u g x s)
  unfolding merge
  merge-Leaves u g m x s lt h =
      elim (Bool-cases (u && is_nil s.stack && not o.noxattr && s.d.is_dir)) [
        | inl e ↦ rw e (of (k.fix_origin x.dentry))
        | inr e ↦ rw e (verify-Leaves u g m x s lt h)
      ]
    where
      of : (r : Res (Unit {0})) → Leaves l s.at_root x.idx (fixed l o k roe u g x s r)
      of (err e) = tt
      of (ok _) = verify-Leaves u g m x s lt h

  layer_round-Leaves :
      (u g : Bool) (m : ℕ) (x : Lower l) (last : Bool) (s : Scan l)
      → m < x.idx
      → Descends l 0 m s.stack
      → Leaves l s.at_root x.idx (layer_round l o k roe u g x last s)
  unfolding layer_round
  layer_round-Leaves u g m x last s lt h =
      let d = record s.d { last = if o.redirect_follow then x.idx == length roe else last } in
      of (lookup_layer l x.dentry d) (lookup_layer_halts l x.dentry d)
    where
      of :
          (w : Walked l.Dentry × Look)
          → w.0 ≢ loops
          → Leaves l s.at_root x.idx (looked l o k roe u g x.idx s w)
      of (off_rails, d) n = tt
      of (loops, d) n = n refl
      of (done (err e), d) n = tt
      of (done (ok none), d) n = (refl, Descends-to l 0 m x.idx s.stack (omega arith) h)
      of (done (ok (some this)), d) n =
          merge-Leaves u g m (record { dentry = this; idx = x.idx }) (record s { d = d }) lt h

  -- The loop ends, and the stack it leaves goes down to the last layer at most.
  abbrev Fits : Res (Option (Scan l)) → Type 0
  Fits (err e) = Unit
  Fits (ok none) = ⊥
  Fits (ok (some t)) = Descends l 0 (length roe) t.stack

  -- Fuel that is enough: once for each layer that is left, and for the root's before the jump.
  abbrev Enough : ℕ → List (Lower l) → Scan l → Type 0
  Enough fuel rest s = length rest + (if s.at_root then 0 else length roe) < fuel

  Enough-here :
      (fuel : ℕ) (x : Lower l) (rest : List (Lower l)) (s t : Scan l)
      → t.at_root ≡ s.at_root
      → Enough (suc fuel) (x ∷ rest) s
      → Enough fuel rest t
  Enough-here fuel x rest s t same en = simp same (omega arith)

  Enough-root :
      (fuel : ℕ) (x : Lower l) (rest : List (Lower l)) (s t : Scan l)
      → s.at_root ≡ false
      → t.at_root ≡ true
      → Descends l x.idx (length roe) (drop x.idx roe)
      → Enough (suc fuel) (x ∷ rest) s
      → Enough fuel (drop x.idx roe) t
  Enough-root fuel x rest s t b root down en =
      let n = Descends-length l x.idx (length roe) (drop x.idx roe) down in
      ground (arith, b, root, n, en)

  next_layer-Fits :
      (n m : ℕ) (b : Bool) (r : Round l) (here root : Scan l → Res (Option (Scan l)))
      → Leaves l b m r
      → ((t : Scan l) → t.at_root ≡ b → Descends l 0 m t.stack → Fits (here t))
      → (b ≡ false → (t : Scan l) → t.at_root ≡ true → Descends l 0 m t.stack → Fits (root t))
      → m ≤ length roe
      → Fits (next_layer l o k roe n r here root)
  next_layer-Fits n m b (fails e) here root h hh hr le = tt
  next_layer-Fits n m b no_fuel here root h hh hr le = h
  next_layer-Fits n m b (breaks t) here root h hh hr le =
      Descends-to l 0 m (length roe) t.stack le h
  next_layer-Fits n m b (continues t) here root h hh hr le =
      let same = h.0 in
      elim (Bool-cases
        (ltb n (length t.stack) && absolute_redirect l o k roe t.d && not t.at_root)) [
          | inl e ↦ rw e (hr (ground (arith, e, same)) (record t { at_root = true }) refl h.1)
          | inr e ↦ rw e (hh t same h.1)
        ]

  Descends-root :
      (i : ℕ)
      → i ≤ length roe
      → Descends l 0 (length roe) roe
      → Descends l i (length roe) (drop i roe)
  Descends-root i le hr =
      Descends-from l (0 + i) i (length roe) (drop i roe) (omega arith)
        (Descends-drop l 0 (length roe) i roe (omega arith) hr)

  scan-Fits :
      (fuel : ℕ) (u g : Bool) (m : ℕ) (rest : List (Lower l)) (s : Scan l)
      → Enough fuel rest s
      → Descends l 0 (length roe) roe
      → Descends l m (length roe) rest
      → Descends l 0 m s.stack
      → Fits (scan l o k roe fuel u g rest s)
  unfolding scan
  scan-Fits zero u g m rest s en hr h st = absurd (omega arith)
  scan-Fits (suc fuel) u g m [] s en hr h st = Descends-to l 0 m (length roe) s.stack h st
  scan-Fits (suc fuel) u g m (x ∷ rest) s en hr h st =
      let lt = h.0 in
      let le = Descends-bound l x.idx (length roe) rest h.1 in
      elim (Bool-cases s.d.stop) [
        | inl e ↦ simp e (Descends-to l 0 m (length roe) s.stack (omega arith) st)
        | inr e ↦ simp e (
            next_layer-Fits (length s.stack) x.idx s.at_root
              (layer_round l o k roe u g x (is_nil rest) s) (λ t. scan l o k roe fuel u g rest t)
              (λ t. scan l o k roe fuel u g (drop x.idx roe) t)
              (layer_round-Leaves u g m x (is_nil rest) s lt st)
              (λ t same d.
                scan-Fits fuel u g x.idx rest t (Enough-here fuel x rest s t same en) hr h.1 d)
              (λ b t root d.
                let down = Descends-root x.idx le hr in
                scan-Fits fuel u g x.idx (drop x.idx roe) t
                  (Enough-root fuel x rest s t b root down en) hr down d)
              le)
      ]

  Fits-none : (r : Res (Option (Scan l))) → Fits r → r ≢ ok none
  Fits-none r f e = subst Fits e f

  Fits-some :
      (r : Res (Option (Scan l))) (t : Scan l)
      → Fits r
      → r ≡ ok (some t)
      → Descends l 0 (length roe) t.stack
  Fits-some r t f e = subst Fits e f

  Enough-start :
      (n : ℕ) (u : UpperFound l) → n + (if u.at_root then 0 else length roe) < suc (n + length roe)
  Enough-start n u = elim (Bool-cases u.at_root) [
    | inl f ↦ simp f (omega arith)
    | inr f ↦ simp f (omega arith)
  ]

  start-Fits :
      (poe : List (Lower l)) (u : UpperFound l)
      → Descends l 0 (length roe) roe
      → Descends l 0 (length roe) poe
      → Fits (scan_lowers l o k roe poe u)
  unfolding scan_lowers
  start-Fits poe u hr hp =
      elim (Bool-cases (stack_needed l o k roe poe u && not k.stack_allocated)) [
        | inl e ↦ rw e tt
        | inr e ↦ rw e (
            scan-Fits (suc (length (lowers_of l o k roe poe u) + length roe)) (is_some u.upper)
              (is_some u.origin_path) 0 (lowers_of l o k roe poe u) (start_of l o k roe u)
              (Enough-start (length (lowers_of l o k roe poe u)) u) hr
              (elim (Bool-cases (absolute_redirect l o k roe u.d)) [
                | inl f ↦ rw f hr
                | inr f ↦ rw f hp
              ])
              (omega arith))
      ]

  -- The lookup of the lower layers ends, its loop and each walk along a name in it, and the stack
  -- fits its allocation, one entry for each lower layer of the mount: the layers of the parent, and
  -- those of the root, go down, and none is below the last of the root's. The indices on the stack
  -- go down too, so no layer stands there twice.
  pub scan_lowers-Fits :
      (poe : List (Lower l)) (u : UpperFound l)
      → Descends l 0 (length roe) roe
      → Descends l 0 (length roe) poe
      → scan_lowers l o k roe poe u ≢ ok none
        × ((t : Scan l)
            → scan_lowers l o k roe poe u ≡ ok (some t)
            → Descends l 0 (length roe) t.stack × (length t.stack ≤ length roe))
  scan_lowers-Fits poe u hr hp =
      let fits = start-Fits poe u hr hp in
      (
        (λ e. Fits-none (scan_lowers l o k roe poe u) fits e),
        (λ t e.
            let d = Fits-some (scan_lowers l o k roe poe u) t fits e in
            let n = Descends-length l 0 (length roe) t.stack d in (d, omega arith)),
      )
