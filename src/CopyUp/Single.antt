-- ===== src/CopyUp/Single.antt =====
-- ovl_copy_up_one (copy_up.c) copies up what it was called for.
use fzz_overlay.Base.{ℕ, ◌⊎◌, ◌≡◌, Bool-cases, true, false, not, ◌&&◌, ◌||◌, arith, inl, inr, refl}
use fzz_overlay.Vfs.{ok, Vfs}
use fzz_overlay.Dentry.{
  is_some, is_dir, is_reg, is_lnk, dentry_upper, already_copied_up_locked,
  needs_data_copy_up_locked, already_copied_up,
}
use fzz_overlay.Dentry.Real.{already_copied_up_of_locked}
use fzz_overlay.Block.Copy.Range.{Res-cases}
use fzz_overlay.CopyUp.{
  St, Ctx, Calls, Stat, ◌>>=◌, ◌>>◌, call, when, need_index, do_copy_up, link_up,
  copy_up_meta_inode_data, copy_up_locked, copy_up_start, copy_up_rest, needed, copy_up_stat,
  copy_up_one, ctx_of,
}
use fzz_overlay.CopyUp.Progress.{
  Progress, Has, HasUpperdata, copied-Leads, link_up-Leads, meta-Leads, meta-Ensures, node_upper,
}

-- `g` is `f` further on: the surroundings are the same.
pub record Grown (f g : Progress) : Type 0 where
  pub disconnected : g.disconnected ≡ f.disconnected
  pub parent : g.parent ≡ f.parent
  pub parent_upper : g.parent_upper ≡ f.parent_upper

module _ {v : Vfs} (k : Calls) (flags : ℕ) where
  copied_first :
      (c : Ctx) (s : St v) (f : Progress)
      → Has f s
      → (a : Unit {0})
      → (when (λ s. not (is_some (dentry_upper s.node))) (do_copy_up k c) s).0 ≡ ok a
      → (g : Progress) × Has g
          (when (λ s. not (is_some (dentry_upper s.node))) (do_copy_up k c) s).1
        × Grown f g
        × (g.upper ≡ true)
  unfolding when do_copy_up dentry_upper
  copied_first c s f h a = elim (Bool-cases (is_some s.node.upper)) [
    | inl e ↦ rw e (λ q. (f, h, ground arith, ground (arith, h, e)))
    | inr e ↦
        let to_index = need_index s.fs s.node && not (is_dir c.stat.mode) in
        rw e (λ q. (
          record f { upper = true; alias = f.alias || not to_index },
          (copied-Leads f k _ to_index (is_reg c.stat.mode && s.fs.tmpfile)
                (c.indexed || need_index s.fs s.node)).run
              s h a q,
          ground arith,
          refl,
        ))
  ]

  linked_then :
      (s : St v) (f : Progress)
      → Has f s
      → f.upper ≡ true
      → (a : Unit {0})
      → (when (λ s. is_some s.parent && not s.node.upper_alias) (link_up k) s).0 ≡ ok a
      → (g : Progress) × Has g
          (when (λ s. is_some s.parent && not s.node.upper_alias) (link_up k) s).1
        × Grown f g
        × (g.upper ≡ true)
        × (g.parent ≡ true → g.alias ≡ true)
  unfolding when
  linked_then s f h u a = elim (Bool-cases (is_some s.parent && not s.node.upper_alias)) [
    | inl e ↦ rw e (λ q.
        (record f { alias = true }, (link_up-Leads f k).run s h a q, ground arith, u, λ p. refl))
    | inr e ↦ rw e (λ q. (f, h, ground arith, u, λ p. ground (arith, h, e)))
  ]

  no_data : (s : St v) → HasUpperdata s → needs_data_copy_up_locked flags s.node ≡ false
  unfolding needs_data_copy_up_locked
  no_data s h = ground (arith, h)

  data_last :
      (c : Ctx) (s : St v) (f : Progress)
      → Has f s
      → (a : Unit {0})
      → (when
          (λ s. needs_data_copy_up_locked flags s.node)
          (copy_up_meta_inode_data k c.stat.size)
          s).0
        ≡ ok a
      → let s' =
          (when
            (λ s. needs_data_copy_up_locked flags s.node)
            (copy_up_meta_inode_data k c.stat.size)
            s).1 in
        Has f s' × (needs_data_copy_up_locked flags s'.node ≡ false)
  unfolding when
  data_last c s f h a = elim (Bool-cases (needs_data_copy_up_locked flags s.node)) [
    | inl e ↦ rw e (λ q. (
      (meta-Leads f k c.stat.size).run s h a q,
      no_data (copy_up_meta_inode_data k c.stat.size s).1 ((meta-Ensures k c.stat.size).done s a q),
    ))
    | inr e ↦ rw e (λ q. (h, e))
  ]

  -- Behind the three steps, the dentry is copied up.
  locked_lem :
      (c : Ctx) (s : St v) (f : Progress)
      → Has f s
      → (f.parent || f.disconnected) ≡ true
      → (a : Unit {0}) → (copy_up_locked k flags c s).0 ≡ ok a
      → (g : Progress) × Has g (copy_up_locked k flags c s).1
        × Grown f g
        × (already_copied_up_locked flags (copy_up_locked k flags c s).1.node ≡ true)
  unfolding copy_up_locked ◌>>◌ already_copied_up_locked dentry_upper
  locked_lem c s f h p a =
      let first = when (λ s. not (is_some (dentry_upper s.node))) (do_copy_up k c) in
      let second = when (λ s. is_some s.parent && not s.node.upper_alias) (link_up k) in
      elim (Res-cases (first s).0) [
        | inr (x, e) ↦ rw e (λ q. cc)
        | inl (x, e) ↦
            let (g, i, o, u) = copied_first c s f h x e in
            let s1 = (first s).1 in
            rw e (elim (Res-cases (second s1).0) [
              | inr (y, d) ↦ rw d (λ q. cc)
              | inl (y, d) ↦
                  let (g', i', o', u', l) = linked_then s1 g i u y d in
                  rw d (λ q.
                    let r = data_last c (second s1).1 g' i' a q in
                    (g', r.0, ground (arith, o, o'), ground (arith, r, o, o', u', l, p)))
            ])
      ]

  -- A copy-up that returns 0 finds nothing to do, or does the steps under the lock.
  rest_cases :
      (t : Stat) (s : St v) (a : Unit {0})
      → (copy_up_rest k flags t s).0 ≡ ok a
      → (((copy_up_rest k flags t s).1 ≡ s) × (already_copied_up_locked flags s.node ≡ true))
        ⊎ (copy_up_rest k flags t s ≡ copy_up_locked k flags (ctx_of s.fs flags t) s)
  unfolding copy_up_rest copy_up_start when ◌>>=◌
  rest_cases t s a = elim (Res-cases k.inode_lock) [
    | inr (x, e) ↦ rw e (λ q. cc)
    | inl (x, e) ↦ elim (Bool-cases (already_copied_up_locked flags s.node)) [
      | inl d ↦ rw (e, d) (λ q. inl (refl, refl))
      | inr d ↦ rw (e, d) (λ q. inr refl)
    ]
  ]

  stat_cases :
      (t : Stat) (s : St v) (a : Unit {0})
      → (copy_up_stat k flags t s).0 ≡ ok a
      → (((copy_up_stat k flags t s).1 ≡ s) × (already_copied_up_locked flags s.node ≡ true))
        ⊎ (copy_up_stat k flags t s ≡ copy_up_locked k flags (ctx_of s.fs flags t) s)
  unfolding copy_up_stat call ◌>>◌
  stat_cases t s a = elim (Res-cases (needed (is_some s.parent) k.parent_getattr)) [
    | inr (x, e) ↦ rw e (λ q. cc)
    | inl (x, e) ↦ rw e (elim (Res-cases (needed (is_lnk t.mode) k.get_link)) [
      | inr (y, d) ↦ rw d (λ q. cc)
      | inl (y, d) ↦ rw d (rest_cases t s a)
    ])
  ]

  one_cases :
      (s : St v) (a : Unit {0})
      → (copy_up_one k flags s).0 ≡ ok a
      → (((copy_up_one k flags s).1 ≡ s) × (already_copied_up_locked flags s.node ≡ true))
        ⊎ ((c : Ctx) × (copy_up_one k flags s ≡ copy_up_locked k flags c s))
  unfolding copy_up_one call ◌>>=◌
  one_cases s a = elim (Bool-cases s.fs.workdir) [
    | inr w ↦ simp w (λ q. cc)
    | inl w ↦ simp w (elim (Res-cases k.getattr) [
      | inr (x, e) ↦ simp e (λ q. cc)
      | inl (t, e) ↦
          simp e (λ q. elim (stat_cases t s a q) [
            | inl h ↦ inl h
            | inr h ↦ inr (ctx_of s.fs flags t, h)
          ])
    ])
  ]

  progress_of : St v → Progress
  progress_of s = record {
    upper = is_some s.node.upper;
    alias = s.node.upper_alias;
    disconnected = s.node.disconnected;
    parent = is_some s.parent;
    parent_upper = node_upper s.parent;
  }

  -- A copy-up of one dentry that has a parent or is disconnected: if it returns 0, the dentry is
  -- copied up for these flags, by the test with the inode lock and by the one without it, and the
  -- parent has its upper dentry as before.
  pub copy_up_one_lem :
      (s : St v) (a : Unit {0})
      → (is_some s.parent || s.node.disconnected) ≡ true
      → (copy_up_one k flags s).0 ≡ ok a
      → let s' = (copy_up_one k flags s).1 in
        (already_copied_up_locked flags s'.node ≡ true)
        × (already_copied_up flags s'.node ≡ true)
        × (s'.node.disconnected ≡ s.node.disconnected)
        × (is_some s'.parent ≡ is_some s.parent)
        × (node_upper s'.parent ≡ node_upper s.parent)
  unfolding progress_of
  copy_up_one_lem s a p q = elim (one_cases s a q) [
    | inl (e, h) ↦ rw e (h, already_copied_up_of_locked flags s.node h, refl, refl, refl)
    | inr (c, e) ↦
        let done : (copy_up_locked k flags c s).0 ≡ ok a = rw⁻¹ e q in
        let (g, i, o, h) =
          locked_lem c s (progress_of s)
            (record {
              upper = refl;
              alias = refl;
              disconnected = refl;
              parent = refl;
              parent_upper = refl;
            })
            p a done in
        let s' = (copy_up_locked k flags c s).1 in
        rw e (
          h,
          already_copied_up_of_locked flags s'.node h,
          ground (arith, i, o),
          ground (arith, i, o),
          ground (arith, i, o),
        )
  ]
