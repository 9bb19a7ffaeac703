-- ===== src/CopyUp/Walk/Ends.antt =====
-- ovl_copy_up_flags (copy_up.c) ends, with the dentry and its ancestors copied up.
use fzz_overlay.Base.{
  ◌≢◌, ℕ, zero, suc, ◌+◌, ◌≤◌, ◌<◌, ◌≡◌, ◌⊎◌, Bool, Bool-cases, true, false, List, [], ◌∷◌, Option,
  none, some, arith, inl, inr, refl, if◌then◌else◌,
}
use fzz_overlay.Vfs.{Res, ok, Vfs}
use fzz_overlay.Block.{Outcome, returns, fault, loops}
use fzz_overlay.Block.Copy.Range.{Res-cases}
use fzz_overlay.Dentry.{Node, is_some, already_copied_up, dentry_upper}
use fzz_overlay.CopyUp.{St, Calls, Fs, copy_up_one}
use fzz_overlay.CopyUp.Progress.{node_upper}
use fzz_overlay.CopyUp.Single.{copy_up_one_lem}
use fzz_overlay.CopyUp.Walk.{
  Chain, new_temp, parent_list, placed, copy_topmost, copy_round, copy_rounds, copy_up_flags,
}

module _ {v : Vfs} where
  abbrev lacks : Node v → ℕ
  lacks n = if is_some n.upper then 0 else 1

  -- How many of the dentries have no upper dentry.
  abbrev pub missing : Node v → List (Node v) → ℕ
  missing n [] = lacks n
  missing n (p ∷ rest) = lacks n + missing p rest

  -- The root has an upper dentry, and is not the dentry itself.
  abbrev pub root_upper : List (Node v) → Bool
  root_upper [] = false
  root_upper (p ∷ []) = is_some p.upper
  root_upper (p ∷ q ∷ rest) = root_upper (q ∷ rest)

  -- A round that succeeds copies up the dentry itself, or one more of its ancestors.
  record Round (flags : ℕ) (n : Node v) (rest : List (Node v)) (c : Chain v) : Type 0 where
    pub root : root_upper c.ancestors ≡ true
    pub disconnected : c.node.disconnected ≡ n.disconnected
    pub further :
        ((already_copied_up flags c.node ≡ true)
          × (missing c.node c.ancestors + lacks n ≡ missing n rest))
        ⊎ (missing c.node c.ancestors < missing n rest)

  already-upper :
      (flags : ℕ) (n : Node v) → already_copied_up flags n ≡ true → is_some n.upper ≡ true
  unfolding already_copied_up dentry_upper
  already-upper flags n h = ground (arith, h)

  root_upper-below :
      (p : Node v) (rest : List (Node v)) → root_upper rest ≡ true → root_upper (p ∷ rest) ≡ true
  root_upper-below p [] h = cc
  root_upper-below p (q ∷ rest) h = h

  root_upper-tail :
      (p : Node v) (rest : List (Node v))
      → is_some p.upper ≡ false
      → root_upper (p ∷ rest) ≡ true
      → root_upper rest ≡ true
  root_upper-tail p [] e h = ground (arith, e, h)
  root_upper-tail p (q ∷ rest) e h = h

  -- The parent's place in the list, behind a copy-up.
  parent_same :
      (n' : Node v) (o : Option (Node v)) (p : Node v) (rest : List (Node v))
      → is_some o ≡ true
      → node_upper o ≡ true
      → is_some p.upper ≡ true
      → root_upper (p ∷ rest) ≡ true
      → (root_upper (parent_list o rest) ≡ true)
        × (missing n' (parent_list o rest) ≡ lacks n' + missing p rest)
  parent_same n' none p rest h u up r = cc
  parent_same n' (some q) p [] h u up r = ground (arith, h, u, up)
  parent_same n' (some q) p (t ∷ rest) h u up r = ground (arith, h, u, up, r)

  module _ (k : Calls) (flags : ℕ) (fs : Fs) where
    copy_topmost_lem :
        (n : Node v) (rest : List (Node v))
        → root_upper rest ≡ true
        → (r : Res (Unit {0})) × (c : Chain v) × (copy_topmost k flags fs n rest ≡ some (r, c))
          × (r ≡ ok tt → Round flags n rest c)
    unfolding copy_topmost
    copy_topmost_lem n [] h = cc
    copy_topmost_lem n (p ∷ rest) h = elim (Bool-cases (is_some p.upper)) [
      | inl e ↦
          let s : St v = record { node = n; parent = some p; fs = fs; temp = new_temp } in
          let t = copy_up_one k flags s in
          (
            (placed rest t).0,
            (placed rest t).1,
            rw e refl,
            λ q.
                let d = copy_up_one_lem k flags s tt refl q in
                let same = parent_same t.1.node t.1.parent p rest d.3 (rw d.4 e) e h in
                record {
                  root = same.0;
                  disconnected = d.2;
                  further = inl (d.1, ground (arith, same, e, already-upper flags t.1.node d.1));
                },
          )
      | inr e ↦
          let (r, c, w, m) = copy_topmost_lem p rest (root_upper-tail p rest e h) in
          (
            r,
            record { node = n; ancestors = c.node ∷ c.ancestors; fs = c.fs },
            rw (e, w) refl,
            λ q.
                let d = m q in
                record {
                  root = root_upper-below c.node c.ancestors d.root;
                  disconnected = refl;
                  further = ground (arith, d.further, e, already-upper flags c.node);
                },
          )
    ]

  abbrev Ended : ℕ → Outcome (Unit {0}) × Chain v → Type 0
  Ended flags (o, c) =
      (o ≢ loops) × (o ≢ fault) × (o ≡ returns tt → already_copied_up flags c.node ≡ true)

  copy_rounds_lem :
      (calls : ℕ → Calls) (flags fuel : ℕ) (c : Chain v)
      → 0 < fuel
      → root_upper c.ancestors ≡ true
      → (already_copied_up flags c.node ≡ true) ⊎ (missing c.node c.ancestors + 2 ≤ fuel)
      → Ended flags (copy_rounds fuel calls flags false c)
  unfolding copy_rounds copy_round
  copy_rounds_lem calls flags zero c h0 hr hf = absurd (omega arith)
  copy_rounds_lem calls flags (suc fuel) c h0 hr hf =
      elim (Bool-cases (already_copied_up flags c.node)) [
        | inl e ↦ rw e (λ q. cc, λ q. cc, λ q. e)
        | inr e ↦
            let (r, c', w, m) = copy_topmost_lem (calls fuel) flags c.fs c.node c.ancestors hr in
            elim (Res-cases r) [
              | inr (x, d) ↦ rw (e, w, d) (λ q. cc, λ q. cc, λ q. cc)
              | inl (x, d) ↦
                  let t = m d in
                  rw (e, w, d)
                    (copy_rounds_lem calls flags fuel c' (ground (arith, hf, e)) t.root
                      (ground (arith, hf, e, t.further)))
            ]
      ]

  -- The loop of ovl_copy_up_flags, for a dentry that is connected to a root with an upper dentry:
  -- with fuel for two more rounds than there are dentries without an upper one on the way to the
  -- root, it ends. If it returns 0, the dentry is copied up for these flags.
  pub copy_up_flags_ends :
      (calls : ℕ → Calls) (flags fuel : ℕ) (c : Chain v)
      → c.node.disconnected ≡ false
      → root_upper c.ancestors ≡ true
      → missing c.node c.ancestors + 2 ≤ fuel
      → let (o, c') = copy_up_flags fuel calls flags c in
        (o ≢ loops) × (o ≢ fault) × (o ≡ returns tt → already_copied_up flags c'.node ≡ true)
  unfolding copy_up_flags
  copy_up_flags_ends calls flags fuel c hd hr hf =
      simp hd (copy_rounds_lem calls flags fuel c (omega arith) hr (inr hf))
