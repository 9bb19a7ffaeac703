-- ===== src/CopyUp/Progress.antt =====
-- How far a copy-up (copy_up.c) has come, before and behind each step that succeeds.
use fzz_overlay.Base.{
  not, ◌||◌, ℕ, ◌≡◌, Bool, Bool-cases, true, false, Option, Option-cases, none, some, arith, refl,
  if◌then◌else◌, inl, inr,
}
use fzz_overlay.Vfs.{Res, ok, Vfs}
use fzz_overlay.Dentry.{Node, is_some, set_impure}
use fzz_overlay.Block.Copy.Range.{Res-cases}
use fzz_overlay.CopyUp.{
  finish_copy_up, copy_up_meta_inode_data, St, Ctx, Calls, ◌>>=◌, ◌>>◌, call, impure_parent, start,
  store_origin, store_metacopy, copy_up_inode, publish, set_whiteouts, copy_up_workdir,
  copy_up_tmpfile, set_index, set_upper_alias, choose_dir, link_up, set_upperdata,
}

-- Which of a dentry's parts are there, and those of its parent.
pub record Progress : Type 0 where
  pub upper : Bool
  pub alias : Bool
  pub disconnected : Bool
  pub parent : Bool
  pub parent_upper : Bool

abbrev pub with_upper : Progress → Progress
with_upper f = record f { upper = true }

abbrev pub with_alias : Progress → Progress
with_alias f = record f { alias = true }

abbrev pub node_upper : {v : Vfs} → Option (Node v) → Bool
node_upper none = false
node_upper (some p) = is_some p.upper

module _ {v : Vfs} where
  pub record Has (f : Progress) (s : St v) : Type 0 where
    pub upper : is_some s.node.upper ≡ f.upper
    pub alias : s.node.upper_alias ≡ f.alias
    pub disconnected : s.node.disconnected ≡ f.disconnected
    pub parent : is_some s.parent ≡ f.parent
    pub parent_upper : node_upper s.parent ≡ f.parent_upper

  -- A step that leads from `f` to `g` if it succeeds.
  pub record Leads (f : Progress) {A : Type 0} (m : St v → Res A × St v) (g : Progress)
      : Type 0 where
    pub run : (s : St v) → Has f s → (a : A) → (m s).0 ≡ ok a → Has g (m s).1

  pub then-Leads :
      {f g h : Progress} {A B : Type 0} {m : St v → Res A × St v} {n : St v → Res B × St v}
      → Leads f m g
      → Leads g n h
      → Leads f (◌>>◌ m n) h
  unfolding ◌>>◌
  then-Leads {m = m} {n = n} a b = record {
    run = λ s i. elim (Res-cases (m s).0) [
      | inl (x, e) ↦ rw e (b.run (m s).1 (a.run s i x e))
      | inr (x, e) ↦ rw e (λ y h. cc)
    ];
  }

  pub bind-Leads :
      {f g h : Progress} {A B : Type 0} {m : St v → Res A × St v} {n : A → St v → Res B × St v}
      → Leads f m g
      → ((x : A) → Leads g (n x) h)
      → Leads f (◌>>=◌ m n) h
  unfolding ◌>>=◌
  bind-Leads {m = m} {n = n} a b = record {
    run = λ s i. elim (Res-cases (m s).0) [
      | inl (x, e) ↦ rw e ((b x).run (m s).1 (a.run s i x e))
      | inr (x, e) ↦ rw e (λ y h. cc)
    ];
  }

  pub call-Leads : {f : Progress} {A : Type 0} (r : Res A) → Leads f (call r) f
  unfolding call
  call-Leads r = record { run = λ s i a e. i }

  set_impure-upper :
      (w : Res (Unit {0})) (n : Node v) (b : Bool) → (set_impure w n b).1.upper ≡ n.upper
  unfolding set_impure
  set_impure-upper w n b = ground arith

  module _ (f : Progress) where
    pub impure_parent-Leads : (w : Res (Unit {0})) → Leads f (impure_parent w) f
    unfolding impure_parent
    impure_parent-Leads w = record {
      run = λ s i a. elim (Option-cases s.parent) [
        | inl e ↦ rw e (λ h. ground (arith, i, e))
        | inr (p, e) ↦ rw e (λ h. ground (arith, i, e, set_impure-upper w p s.fs.noxattr))
      ];
    }

    start-Leads : (k : Calls) (c : Ctx) → Leads f (start k c) f
    unfolding start
    start-Leads k c = record { run = λ s i a e. ground (arith, i) }

    store_origin-Leads : (k : Calls) (b : Bool) → Leads f (store_origin k b) f
    unfolding store_origin
    store_origin-Leads k true = record { run = λ s i a e. ground (arith, i) }
    store_origin-Leads k false = record { run = λ s i a e. i }

    store_metacopy-Leads : (k : Calls) (b : Bool) → Leads f (store_metacopy k b) f
    unfolding store_metacopy
    store_metacopy-Leads k true = record { run = λ s i a e. ground (arith, i) }
    store_metacopy-Leads k false = record { run = λ s i a e. i }

    copy_up_inode-Leads : (k : Calls) (c : Ctx) → Leads f (copy_up_inode k c) f
    unfolding copy_up_inode
    copy_up_inode-Leads k c = then-Leads (start-Leads k c) (
        then-Leads (call-Leads _) (
          then-Leads (store_origin-Leads k c.origin) (
            then-Leads (store_metacopy-Leads k c.metacopy)
              (then-Leads (call-Leads _) (call-Leads _)))))

    publish-Leads : (c : Ctx) (t : ℕ) → Leads f (publish c t) (with_upper f)
    unfolding publish
    publish-Leads c t = record { run = λ s i a e. ground (arith, i) }

    set_whiteouts-Leads : Leads f set_whiteouts f
    unfolding set_whiteouts
    set_whiteouts-Leads = record { run = λ s i a e. ground (arith, i) }

    set_index-Leads : (b : Bool) → Leads f (set_index b) f
    unfolding set_index
    set_index-Leads b = record { run = λ s i a e. ground (arith, i) }

    set_upper_alias-Leads : Leads f set_upper_alias (with_alias f)
    unfolding set_upper_alias
    set_upper_alias-Leads = record { run = λ s i a e. ground (arith, i) }

    set_upperdata-Leads : Leads f set_upperdata f
    unfolding set_upperdata
    set_upperdata-Leads = record { run = λ s i a e. ground (arith, i) }

  module _ (f : Progress) where
    copy_up_workdir-Leads : (k : Calls) (c : Ctx) → Leads f (copy_up_workdir k c) (with_upper f)
    unfolding copy_up_workdir
    copy_up_workdir-Leads k c = then-Leads (call-Leads _) (
        then-Leads (call-Leads _) (
          bind-Leads (call-Leads _) (λ t. then-Leads (copy_up_inode-Leads _ k c) (
            then-Leads (call-Leads _) (
              then-Leads (call-Leads _) (
                then-Leads (call-Leads _)
                  (then-Leads (publish-Leads _ c t) (set_whiteouts-Leads _))))))))

    copy_up_tmpfile-Leads : (k : Calls) (c : Ctx) → Leads f (copy_up_tmpfile k c) (with_upper f)
    unfolding copy_up_tmpfile
    copy_up_tmpfile-Leads k c = then-Leads (call-Leads _) (
        bind-Leads (call-Leads _) (λ t.
          then-Leads (copy_up_inode-Leads _ k c)
            (then-Leads (call-Leads _) (then-Leads (call-Leads _) (publish-Leads _ c t)))))

    copy-Leads :
        (k : Calls) (c : Ctx) (b : Bool)
        → Leads f (if b then copy_up_tmpfile k c else copy_up_workdir k c) (with_upper f)
    copy-Leads k c true = copy_up_tmpfile-Leads k c
    copy-Leads k c false = copy_up_workdir-Leads k c

    choose_dir-Leads : (k : Calls) (b : Bool) → Leads f (choose_dir k b) f
    unfolding choose_dir
    choose_dir-Leads k true = record { run = λ s i a e. i }
    choose_dir-Leads k false = record {
      run = λ s i a. elim (Bool-cases (is_some s.parent)) [
        | inl e ↦ rw e ((impure_parent-Leads _ k.set_impure).run s i a)
        | inr e ↦ rw e (λ h. cc)
      ];
    }

    pub link_up-Leads : (k : Calls) → Leads f (link_up k) (with_alias f)
    unfolding link_up
    link_up-Leads k = then-Leads (impure_parent-Leads _ _) (
        then-Leads (call-Leads _) (
          then-Leads (call-Leads _)
            (then-Leads (call-Leads _) (then-Leads (set_upper_alias-Leads _) (call-Leads _)))))

    finish-Leads :
        (k : Calls) (b : Bool)
        → Leads f (finish_copy_up k b) (record f { alias = f.alias || not b })
    unfolding finish_copy_up
    finish-Leads k true = record {
      run = λ s i a e. ground (arith, i, (call-Leads {f = f} k.set_nlink_upper).run s i a e);
    }
    finish-Leads k false = record {
      run = λ s i a e. ground (arith, (set_upper_alias-Leads f).run s i a e);
    }

  module _ (f : Progress) where
    -- The copy to `b`, the index or not.
    pub copied-Leads :
        (k : Calls) (c : Ctx) (b tmpfile indexed : Bool)
        → Leads f
            (choose_dir k b
              >> (if tmpfile then copy_up_tmpfile k c else copy_up_workdir k c)
              >> set_index indexed
              >> finish_copy_up k b)
            (record f { upper = true; alias = f.alias || not b })
    copied-Leads k c b tmpfile indexed =
        then-Leads
          (then-Leads (then-Leads (choose_dir-Leads _ k b) (copy-Leads _ k c tmpfile))
            (set_index-Leads _ indexed))
          (finish-Leads _ k b)

  -- A step that establishes `P` if it succeeds. A sequence establishes what its last step does.
  pub record Ensures {A : Type 0} (m : St v → Res A × St v) (P : St v → Type 0) : Type 0 where
    pub done : (s : St v) (a : A) → (m s).0 ≡ ok a → P (m s).1

  then-Ensures :
      {A B : Type 0} (m : St v → Res A × St v) {n : St v → Res B × St v} {P : St v → Type 0}
      → Ensures n P
      → Ensures (◌>>◌ m n) P
  unfolding ◌>>◌
  then-Ensures m h = record {
    done = λ s. elim (Res-cases (m s).0) [
      | inl (x, e) ↦ rw e (h.done (m s).1)
      | inr (x, e) ↦ rw e (λ y k. cc)
    ];
  }

  bind-Ensures :
      {A B : Type 0} (m : St v → Res A × St v) {n : A → St v → Res B × St v} {P : St v → Type 0}
      → ((x : A) → Ensures (n x) P)
      → Ensures (◌>>=◌ m n) P
  unfolding ◌>>=◌
  bind-Ensures m h = record {
    done = λ s. elim (Res-cases (m s).0) [
      | inl (x, e) ↦ rw e ((h x).done (m s).1)
      | inr (x, e) ↦ rw e (λ y k. cc)
    ];
  }

  abbrev pub HasUpperdata : St v → Type 0
  HasUpperdata s = s.node.upperdata ≡ true

  set_upperdata_lem : Ensures set_upperdata HasUpperdata
  unfolding set_upperdata
  set_upperdata_lem = record { done = λ s a e. refl }

  pub meta-Ensures : (k : Calls) (size : ℕ) → Ensures (copy_up_meta_inode_data k size) HasUpperdata
  unfolding copy_up_meta_inode_data
  meta-Ensures k size =
      then-Ensures _
        (bind-Ensures _ (λ b. then-Ensures _ (then-Ensures _ (then-Ensures _ set_upperdata_lem))))

  pub meta-Leads :
      (f : Progress) (k : Calls) (size : ℕ) → Leads f (copy_up_meta_inode_data k size) f
  unfolding copy_up_meta_inode_data
  meta-Leads f k size =
      then-Leads (record { run = λ s i a e. i })
        (bind-Leads (call-Leads _) (λ b.
          then-Leads (call-Leads _)
            (then-Leads (call-Leads _) (then-Leads (call-Leads _) (set_upperdata-Leads _)))))
