-- ===== src/Readdir/Merge/Listing.antt =====
-- What a merged directory lists (readdir.c: ovl_dir_read_merged): each name once, as the topmost layer
-- has it.
use fzz_overlay.Base.{
  ℕ, ◌≡◌, refl, sym, ◌∙◌, Bool, true, false, List, [], ◌∷◌, Option, none, ◌==◌, if◌then◌else◌,
  arith,
}
use fzz_overlay.Vfs.{Res, ok, err}
use fzz_overlay.Readdir.Tree.{leaf, find}
use fzz_overlay.Readdir.Merge.{
  Dirent, CacheEntry, Rdd, Reader, add_rb, fill_lowest, fill_merge, mark, dir_read, listed,
  then_read, read_layers, dir_read_merged,
}
use fzz_overlay.Readdir.Merge.Cells.{count, mark-Keeps, At}
use fzz_overlay.Readdir.Merge.Steps.{
  or_else, or_else_assoc, or_else-none, named, delivered, Differ, all, Balances, Indexed, Reads,
  add_rb-Indexed, fill_lowest_lem, Awaits, Awaits-kept,
}
use fzz_overlay.Readdir.Merge.Loops.{Invariant, dir_read_lem}

-- The entry of a name in the topmost of the layers that has it.
abbrev pub topmost : {D : Type 0} → Reader D → List ℕ → List (Bool × D) → Option (Bool × Dirent)
topmost k n [] = none
topmost k n ((u, d) ∷ ps) = or_else (named n u (delivered (k.batches d))) (topmost k n ps)

-- The names in the lowest directory differ.
abbrev pub LowestDiffer : {D : Type 0} → Reader D → List (Bool × D) → Type 0
LowestDiffer k [] = Unit
LowestDiffer k ((u, d) ∷ []) = Differ (delivered (k.batches d))
LowestDiffer k ((u, d) ∷ p ∷ ps) = LowestDiffer k (p ∷ ps)

module _ {D : Type 0} (k : Reader D) where
  -- The invariant while a layer is read that is not the last.
  abbrev UpperPhase : Bool → List Dirent → Rdd → Type 0
  UpperPhase u xs r = Indexed k r × (r.is_upper ≡ u) × (r.is_lowest ≡ false)

  -- The invariant while the last one is read.
  abbrev LowestPhase : Bool → List Dirent → Rdd → Type 0
  LowestPhase u xs r = Awaits k xs r × Differ xs × (r.is_upper ≡ u) × (r.is_lowest ≡ true)

  UpperPhase-step :
      (u : Bool) (r : Rdd) (x : Dirent) (xs : List Dirent)
      → Balances k
      → UpperPhase u (x ∷ xs) r
      → ((fill_merge k r x).error == 0) ≡ true
      → UpperPhase u xs (fill_merge k r x) × Reads k r (fill_merge k r x) u (x ∷ [])
  UpperPhase-step u r x xs b j z =
      let same : fill_merge k r x ≡ add_rb k r x = simp j.2 refl in
      let q = add_rb-Indexed k r x b j.0 (simp j.2 at z) in
      rw (same, sym j.1) ((q.0, q.2, q.3 ∙ j.2), q.1)

  LowestPhase-step :
      (u : Bool) (r : Rdd) (x : Dirent) (xs : List Dirent)
      → LowestPhase u (x ∷ xs) r
      → ((fill_merge k r x).error == 0) ≡ true
      → LowestPhase u xs (fill_merge k r x) × Reads k r (fill_merge k r x) u (x ∷ [])
  LowestPhase-step u r x xs j z =
      let same : fill_merge k r x ≡ fill_lowest k r x = simp j.3 refl in
      let q = fill_lowest_lem k r x j.0.0 (simp j.3 at z) in
      let rest = Awaits-kept k x xs r (fill_lowest k r x) q.1 q.2 j.1.0 j.0.1 in
      rw (same, sym j.2) ((rest, j.1.1, q.3, q.4 ∙ j.3), q.0)

  mark-Indexed : (n : List ℕ) (w : Res Bool) (r : Rdd) → Indexed k r → Indexed k (mark n w r)
  mark-Indexed n (err e) r i = i
  mark-Indexed n (ok w) r i = (i.0, λ m. (mark-Keeps n (ok w) r m).0 ∙ i.1 m)

  UpperPhase-mark :
      (u : Bool) (n : List ℕ) (w : Res Bool) (r : Rdd)
      → UpperPhase u [] r
      → UpperPhase u [] (mark n w r)
  UpperPhase-mark u n (err e) r j = j
  UpperPhase-mark u n (ok w) r j = (mark-Indexed n (ok w) r j.0, j.1, j.2)

  LowestPhase-mark :
      (u : Bool) (n : List ℕ) (w : Res Bool) (r : Rdd)
      → LowestPhase u [] r
      → LowestPhase u [] (mark n w r)
  LowestPhase-mark u n (err e) r j = j
  LowestPhase-mark u n (ok w) r j = (tt, tt, j.2, j.3)

  UpperPhase-Invariant : (u : Bool) → Balances k → Invariant k u (UpperPhase u)
  UpperPhase-Invariant u b = record {
    step = λ r x xs j z. UpperPhase-step u r x xs b j z;
    marks = λ n w r j. UpperPhase-mark u n w r j;
  }

  LowestPhase-Invariant : (u : Bool) → Invariant k u (LowestPhase u)
  LowestPhase-Invariant u = record {
    step = λ r x xs j z. LowestPhase-step u r x xs j z;
    marks = λ n w r j. LowestPhase-mark u n w r j;
  }

  Awaits-start :
      (xs : List Dirent) (r : Rdd)
      → ((n : List ℕ) → count n (all r) ≡ (if find r.tree n then 1 else 0))
      → Awaits k xs r
  Awaits-start [] r f = tt
  Awaits-start (x ∷ xs) r f = (f x.name, Awaits-start xs r f)

  then_read_lem :
      (u : Bool) (e : D) (r : Rdd) (es : List CacheEntry)
      → Balances k
      → Indexed k r
      → r.is_lowest ≡ false
      → (ps : List (Bool × D))
      → ((s : Rdd)
          → Indexed k s
          → s.is_lowest ≡ false
          → read_layers k s ps ≡ ok es
          → (n : List ℕ) (o : Option (Bool × Dirent)) → At (all s) n o
          → At es n (or_else o (topmost k n ps)))
      → (l : Res Rdd) → dir_read k e (record r { is_upper = u }) ≡ l
      → then_read k l (λ q. read_layers k q ps) ≡ ok es
      → (n : List ℕ) (o : Option (Bool × Dirent)) → At (all r) n o
      → At es n (or_else o (topmost k n ((u, e) ∷ ps)))
  then_read_lem u e r es b i lo ps ih (err x) g h n o a = absurd (ground (arith, h))
  then_read_lem u e r es b i lo ps ih (ok s) g h n o a =
      let here = named n u (delivered (k.batches e)) in
      let q =
        dir_read_lem k u (UpperPhase u) (UpperPhase-Invariant u b) e (record r { is_upper = u }) s
          (i, refl, lo) g in
      rw⁻¹ (or_else_assoc {A = Bool × Dirent} o here (topmost k n ps))
        (ih s q.0.0 q.0.2 h n (or_else o here) (q.1 n o a))

  read_layers_lem :
      (r : Rdd) (ps : List (Bool × D)) (es : List CacheEntry)
      → Balances k
      → Indexed k r
      → r.is_lowest ≡ false
      → LowestDiffer k ps
      → read_layers k r ps ≡ ok es
      → (n : List ℕ) (o : Option (Bool × Dirent)) → At (all r) n o
      → At es n (or_else o (topmost k n ps))
  unfolding read_layers
  read_layers_lem r [] es b i lo d h n o a =
      let same : all r ≡ es = cc in rw (sym same, or_else-none {A = Bool × Dirent} o) a
  read_layers_lem r ((u, e) ∷ []) es b i lo d h n o a =
      of (dir_read k e (record r { is_upper = u; is_lowest = true })) refl h
    where
      of :
          (l : Res Rdd)
          → dir_read k e (record r { is_upper = u; is_lowest = true }) ≡ l
          → listed k l ≡ ok es
          → At es n (or_else o (topmost k n ((u, e) ∷ [])))
      of (err x) g c = absurd (ground (arith, c))
      of (ok s) g c =
          let same : all s ≡ es = cc in
          let q =
            dir_read_lem k u (LowestPhase u) (LowestPhase-Invariant u) e
              (record r { is_upper = u; is_lowest = true }) s
              (
                Awaits-start (delivered (k.batches e))
                    (record r { is_upper = u; is_lowest = true; maybe_whiteout = []; error = 0 })
                    i.1,
                d,
                refl,
                refl,
              )
              g in
          rw (sym same, or_else-none {A = Bool × Dirent} (named n u (delivered (k.batches e))))
            (q.1 n o a)
  read_layers_lem r ((u, e) ∷ p ∷ ps) es b i lo d h n o a =
      then_read_lem u e r es b i lo (p ∷ ps)
        (λ s j lo' h' m v c. read_layers_lem s (p ∷ ps) es b j lo' d h' m v c)
        (dir_read k e (record r { is_upper = u })) refl h n o a

  -- The directory of a merge gives each name that any of its layers has just once, with the type, the
  -- inode number and the layer of the topmost one that has it, and no other name: if the names in
  -- the lowest layer differ, and rb_insert_color does what it has to.
  pub dir_read_merged_lem :
      (ps : List (Bool × D)) (es : List CacheEntry)
      → Balances k
      → LowestDiffer k ps
      → dir_read_merged k ps ≡ ok es
      → (n : List ℕ) → At es n (topmost k n ps)
  unfolding dir_read_merged find
  dir_read_merged_lem ps es b d h n =
      read_layers_lem
        record {
          tree = leaf;
          front = [];
          list = [];
          is_lowest = false;
          is_upper = false;
          maybe_whiteout = [];
          error = 0;
        }
        ps es b (tt, λ m. refl) refl d h n none refl
