-- ===== src/Lookup/Lower/Topmost.antt =====
-- What ovl_lower_positive (namei.c) says of the lower layers.
use fzz_overlay.Base.{
  ℕ, ◌≡◌, ◌≢◌, ◌⊎◌, ◌↔◌, ◌∙◌, sym, refl, inl, inr, ap, arith, Bool, Bool-cases, true, false, not,
  List, [], ◌∷◌, ◌++◌, ◌==◌,
}
use fzz_overlay.Vfs.{Res, ok, err}
use fzz_overlay.Lookup.{Layers, enoent, enametoolong}
use fzz_overlay.Lookup.Lower.{positive_or, positive_in, lower_positive}

module _ (l : Layers) where
  -- What a lookup gives where a directory has no entry of a name: it fails with ENOENT, or with
  -- ENAMETOOLONG, or it gives a negative dentry.
  abbrev pub IsAbsent : Res l.Dentry → Type 0
  IsAbsent r =
      (r ≡ err enoent)
      ⊎ (r ≡ err enametoolong)
      ⊎ ((this : l.Dentry) × (r ≡ ok this) × (l.positive this ≡ false))

  -- What a lookup that finds something says: an entry counts if it is no whiteout, and where the
  -- lookup fails with any other error, something is taken to be there.
  abbrev pub Says : Res l.Dentry → Bool → Type 0
  Says r b =
      ((this : l.Dentry) × (r ≡ ok this) × (l.positive this ≡ true) × (b ≡ not (l.whiteout this)))
      ⊎ ((e : ℕ) × (r ≡ err e) × (e ≢ enoent) × (e ≢ enametoolong) × (b ≡ true))

  abbrev pub AllAbsent : List ℕ → List l.Dentry → Type 0
  AllAbsent name [] = Unit
  AllAbsent name (d ∷ ds) = IsAbsent (l.lookup_one d name) × AllAbsent name ds

  -- The topmost layer whose lookup finds something says `b`, or there is none and `b` is false.
  abbrev pub TopmostSays : List ℕ → List l.Dentry → Bool → Type 0
  TopmostSays name ds b =
      (AllAbsent name ds × (b ≡ false))
      ⊎ ((above : List l.Dentry) × (lower : l.Dentry) × (below : List l.Dentry) × (ds
            ≡ above ++ (lower ∷ below))
          × AllAbsent name above
          × Says (l.lookup_one lower name) b)

  absent_skipped : (r : Res l.Dentry) (rest : Bool) → IsAbsent r → positive_or l r rest ≡ rest
  absent_skipped r rest (inl e) = rw e refl
  absent_skipped r rest (inr (inl e)) = rw e refl
  absent_skipped r rest (inr (inr (this, e, p))) = rw e (rw p refl)

  said : (r : Res l.Dentry) (b rest : Bool) → Says r b → positive_or l r rest ≡ b
  said r b rest (inl (this, e, p, w)) = rw e (rw p (sym w))
  said r b rest (inr (e, h, n1, n2, t)) = rw h (ground (arith, n1, n2, t))

  -- A lookup finds something, or not.
  lookup_cases : (r : Res l.Dentry) (rest : Bool) → IsAbsent r ⊎ Says r (positive_or l r rest)
  lookup_cases (err e) rest = elim (Bool-cases (e == enoent)) [
    | inl h ↦ inl (inl (ap (λ (x : ℕ). err x) (ground (arith, h))))
    | inr h ↦ elim (Bool-cases (e == enametoolong)) [
      | inl g ↦ inl (inr (inl (ap (λ (x : ℕ). err x) (ground (arith, g)))))
      | inr g ↦ rw (h, g) (inr (inr (e, refl, ground (arith, h), ground (arith, g), refl)))
    ]
  ]
  lookup_cases (ok this) rest = elim (Bool-cases (l.positive this)) [
    | inl p ↦ rw p (inr (inl (this, refl, p, refl)))
    | inr p ↦ inl (inr (inr (this, refl, p)))
  ]

  TopmostSays-below :
      (name : List ℕ) (d : l.Dentry) (ds : List l.Dentry) (b : Bool)
      → IsAbsent (l.lookup_one d name)
      → TopmostSays name ds b
      → TopmostSays name (d ∷ ds) b
  TopmostSays-below name d ds b a (inl (all, e)) = inl ((a, all), e)
  TopmostSays-below name d ds b a (inr (above, lower, below, e, all, says)) =
      inr (d ∷ above, lower, below, ap (λ t. d ∷ t) e, (a, all), says)

  positive_in-TopmostSays :
      (name : List ℕ) (ds : List l.Dentry) → TopmostSays name ds (positive_in l name ds)
  unfolding positive_in
  positive_in-TopmostSays name [] = inl (tt, refl)
  positive_in-TopmostSays name (d ∷ ds) =
      elim (lookup_cases (l.lookup_one d name) (positive_in l name ds)) [
        | inr says ↦ inr ([], d, ds, refl, tt, says)
        | inl a ↦ rw (absent_skipped (l.lookup_one d name) (positive_in l name ds) a) (
            TopmostSays-below name d ds (positive_in l name ds) a (positive_in-TopmostSays name ds))
      ]

  positive_in-none :
      (name : List ℕ) (ds : List l.Dentry) → AllAbsent name ds → positive_in l name ds ≡ false
  unfolding positive_in
  positive_in-none name [] h = refl
  positive_in-none name (d ∷ ds) h =
      absent_skipped (l.lookup_one d name) (positive_in l name ds) h.0
      ∙ positive_in-none name ds h.1

  positive_in-said :
      (name : List ℕ) (above : List l.Dentry) (lower : l.Dentry) (below : List l.Dentry) (b : Bool)
      → AllAbsent name above
      → Says (l.lookup_one lower name) b
      → positive_in l name (above ++ (lower ∷ below)) ≡ b
  unfolding positive_in
  positive_in-said name [] lower below b h says =
      said (l.lookup_one lower name) b (positive_in l name below) says
  positive_in-said name (d ∷ above) lower below b h says =
      absent_skipped (l.lookup_one d name) (positive_in l name (above ++ (lower ∷ below))) h.0
      ∙ positive_in-said name above lower below b h.1 says

  -- For a dentry with an upper one, ovl_lower_positive gives just what the topmost lower layer says
  -- whose lookup finds something, whatever lies below it: true if its entry is no whiteout or its
  -- lookup fails with an error that is neither ENOENT nor ENAMETOOLONG, false if the entry is a
  -- whiteout, and false if no layer has the name.
  pub lower_positive_topmost :
      (opaque : Bool) (name : List ℕ) (lowers : List l.Dentry) (b : Bool)
      → (lower_positive l true opaque true name lowers ≡ b) ↔ TopmostSays name lowers b
  unfolding lower_positive
  lower_positive_topmost opaque name lowers b = (
    λ e. rw (← e) (positive_in-TopmostSays name lowers),
    λ t. elim t [
      | inl (all, e) ↦ positive_in-none name lowers all ∙ sym e
      | inr (above, lower, below, e, all, says) ↦
          rw e (positive_in-said name above lower below b all says)
    ],
  )
