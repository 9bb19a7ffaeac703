-- ===== src/Lookup/Merge/Hidden.antt =====
-- ovl_lookup (namei.c): that it ends, and what a stop in the upper layer hides.
use fzz_overlay.Base.{
  not, ℕ, suc, ◌+◌, ◌≡◌, ◌≢◌, inl, inr, refl, ap, Bool, Bool-cases, true, List, [], ◌∷◌, Option,
  none, some, arith, length, ltb, if◌then◌else◌,
}
use fzz_overlay.Vfs.{Res, ok, err}
use fzz_overlay.Dentry.{is_some}
use fzz_overlay.Lookup.{Layers, Look, Walked, done, off_rails, loops, enametoolong, lookup_layer}
use fzz_overlay.Lookup.Halts.{lookup_layer_halts}
use fzz_overlay.Lookup.Merge.{
  Options, Lower, LookupCalls, Scan, UpperFound, Entry, present, redirected, upper_found,
  lookup_upper, scan, lowers_of, start_of, scan_lowers,
}
use fzz_overlay.Lookup.Merge.Whole.{
  settle_stack, put_together, after_lowers, after_upper, look_for, lookup,
}
use fzz_overlay.Lookup.Merge.Layered.{Descends, scan_lowers-Fits}

module _ (l : Layers) (o : Options) (k : LookupCalls l) (roe : List (Lower l)) where
  present_ends : (r : Res (Entry l)) → present r ≢ ok none
  present_ends (ok x) e = absurd (ground (arith, e))
  present_ends (err x) e = absurd (ground (arith, e))

  after_lowers_ends :
      (poe : List (Lower l)) (u : UpperFound l) (r : Res (Option (Scan l)))
      → r ≢ ok none
      → after_lowers l o k roe poe u r ≢ ok none
  after_lowers_ends poe u (err x) h e = absurd (ground (arith, e))
  after_lowers_ends poe u (ok none) h e = h refl
  after_lowers_ends poe u (ok (some t)) h e =
      present_ends (put_together l o k roe u t (settle_stack l o k roe poe u t)) e

  present_some : (r : Res (UpperFound l)) → present r ≢ ok none
  present_some (ok x) e = absurd (ground (arith, e))
  present_some (err x) e = absurd (ground (arith, e))

  upper_found_ends :
      (poe_is_roe : Bool) (w : Walked l.Dentry × Look)
      → w.0 ≢ loops
      → upper_found l o k roe poe_is_roe w ≢ ok none
  upper_found_ends b (off_rails, d) h = λ e. absurd (ground (arith, e))
  upper_found_ends b (loops, d) h = absurd (h refl)
  upper_found_ends b (done (err x), d) h = λ e. absurd (ground (arith, e))
  upper_found_ends b (done (ok none), d) h = present_some (redirected l o k roe none none d b)
  upper_found_ends b (done (ok (some this)), d) h = elim (Bool-cases (k.remote this)) [
    | inl e ↦ rw e (λ z. absurd (ground (arith, z)))
    | inr e ↦ rw e (elim (Bool-cases (not d.is_dir)) [
      | inl f ↦ rw f (present_some _)
      | inr f ↦ rw f (present_some _)
    ])
  ]

  lookup_upper_ends :
      (upperdir : Option l.Dentry) (poe_is_roe : Bool) (d : Look)
      → lookup_upper l o k roe upperdir poe_is_roe d ≢ ok none
  unfolding lookup_upper
  lookup_upper_ends none b d = λ e. absurd (ground (arith, e))
  lookup_upper_ends (some upperdir) b d =
      upper_found_ends b (lookup_layer l upperdir d) (lookup_layer_halts l upperdir d)

  after_upper_ends :
      (poe : List (Lower l)) (r : Res (Option (UpperFound l)))
      → r ≢ ok none
      → Descends l 0 (length roe) roe
      → Descends l 0 (length roe) poe
      → after_upper l o k roe poe r ≢ ok none
  after_upper_ends poe (err x) h hr hp e = absurd (ground (arith, e))
  after_upper_ends poe (ok none) h hr hp e = h refl
  after_upper_ends poe (ok (some u)) h hr hp e =
      after_lowers_ends poe u (scan_lowers l o k roe poe u)
        (scan_lowers-Fits l o k roe poe u hr hp).0 e

  -- The lookup of a name ends, whatever is found and whatever fails, if the layers of the parent and
  -- of the root go down: neither its loop over the lower layers nor a walk along a name, in the upper
  -- layer or a lower one, runs out of the fuel it is given, although redirects change the name.
  pub lookup_ends :
      (upperdir : Option l.Dentry) (poe : List (Lower l)) (poe_is_roe : Bool) (name : List ℕ)
      → Descends l 0 (length roe) roe
      → Descends l 0 (length roe) poe
      → lookup l o k roe upperdir poe poe_is_roe name ≢ ok none
  unfolding lookup
  lookup_ends upperdir poe poe_is_roe name hr hp = elim (Bool-cases (ltb o.namelen (length name))) [
    | inl e ↦ rw e (λ x. absurd (ground (arith, x)))
    | inr e ↦ rw e (
        after_upper_ends poe
          (lookup_upper l o k roe upperdir poe_is_roe (look_for l o k roe name poe))
          (lookup_upper_ends upperdir poe_is_roe (look_for l o k roe name poe)) hr hp)
  ]

  scan-stopped :
      (fuel : ℕ) (u g : Bool) (rest : List (Lower l)) (s : Scan l)
      → s.d.stop ≡ true
      → scan l o k roe (suc fuel) u g rest s ≡ ok (some s)
  unfolding scan
  scan-stopped fuel u g [] s e = refl
  scan-stopped fuel u g (x ∷ rest) s e = simp e refl

  scan_lowers-stopped :
      (poe : List (Lower l)) (u : UpperFound l)
      → u.d.stop ≡ true
      → scan_lowers l o k roe poe u ≡ ok (some (start_of l o k roe u))
  unfolding scan_lowers
  scan_lowers-stopped poe u e = simp e (
      scan-stopped (length (lowers_of l o k roe poe u) + length roe) (is_some u.upper)
        (is_some u.origin_path) (lowers_of l o k roe poe u) (start_of l o k roe u) e)

  settle_stack-stopped :
      (poe poe' : List (Lower l)) (u : UpperFound l) (t : Scan l)
      → u.d.stop ≡ true
      → settle_stack l o k roe poe u t ≡ settle_stack l o k roe poe' u t
  unfolding settle_stack
  settle_stack-stopped poe poe' u t e = simp e refl

  -- Where the upper layer stops the lookup (a whiteout, an opaque directory, a file that is no
  -- metacopy), its result does not depend on the lower layers of the parent: they are hidden.
  pub lookup-stopped :
      (upperdir : Option l.Dentry) (poe poe' : List (Lower l)) (poe_is_roe : Bool) (name : List ℕ)
      → (u : UpperFound l)
      → lookup_upper l o k roe upperdir poe_is_roe (look_for l o k roe name poe) ≡ ok (some u)
      → lookup_upper l o k roe upperdir poe_is_roe (look_for l o k roe name poe') ≡ ok (some u)
      → u.d.stop ≡ true
      → lookup l o k roe upperdir poe poe_is_roe name
        ≡ lookup l o k roe upperdir poe' poe_is_roe name
  unfolding lookup
  lookup-stopped upperdir poe poe' poe_is_roe name u e e' stop = rw e (
      rw e' (
        rw (scan_lowers-stopped poe u stop) (
          rw (scan_lowers-stopped poe' u stop) (
            ap
              (λ r.
                if ltb o.namelen (length name)
                then err enametoolong
                else present (put_together l o k roe u (start_of l o k roe u) r))
              (settle_stack-stopped poe poe' u (start_of l o k roe u) stop)))))
