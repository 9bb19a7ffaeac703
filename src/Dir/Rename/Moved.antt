-- ===== src/Dir/Rename/Moved.antt =====
-- What a rename moves (dir.c: ovl_rename).
use fzz_overlay.Base.{
  ℕ, ◌≡◌, ◌≢◌, ◌⊎◌, refl, sym, ap, ◌∙◌, Bool, Bool-cases, true, false, ◌&&◌, Option, none, some,
  inl, inr, arith,
}
use mathlib.Core.Path.{subst}
use fzz_overlay.Vfs.{Res, ok, err, Vfs}
use fzz_overlay.Dentry.{is_dir, is_some, dentry_is_whiteout}
use fzz_overlay.Dir.{
  Dirs, Laws, Place, Ent, next, Flag, plain, exchange, whiteout_source, is_whiteout, whiteout_kind,
  same_inode,
}
use fzz_overlay.Dir.Steps.{next_lem}
use fzz_overlay.Dir.Whiteout.Atomic.{cleaned-Tidied}
use fzz_overlay.Dir.Made.{Two, dir_modified}
use fzz_overlay.Dir.Made.Created.{}
use fzz_overlay.Dir.Remove.{here}
use fzz_overlay.Dir.Remove.Gone.{view, view-is_whiteout}
use fzz_overlay.Dir.Redirect.{}
use fzz_overlay.Dir.Rename.{
  Calls, Way, way, at_old, at_new, check_places, mark_both, do_rename, swept, rename_locked,
}
use fzz_overlay.Dir.Rename.Still.{Still, mark_both-Still}
use fzz_overlay.Dir.Rename.Checks.{Checked, AllChecked, check_places-AllChecked}

-- What the choice of the flags says.
abbrev Fits : Bool → Option Ent → Option Ent → Way → Type 0
Fits exchanges low o w = elim w.flag [
  | plain ↦ (w.cleanup_whiteout ≡ false) × (exchanges ≡ false) × (low ≡ none)
  | whiteout_source ↦ (w.cleanup_whiteout ≡ false) × (exchanges ≡ false)
  | exchange ↦
      ((exchanges ≡ true) × (w.cleanup_whiteout ≡ false))
      ⊎ ((exchanges ≡ false)
          × (is_some o ≡ true → is_whiteout o ≡ true)
          × (w.cleanup_whiteout ≡ true → low ≡ none))
]

module _ (r : Dirs) where
  -- What is moved behind a rename that succeeds.
  pub record MovedEntry (exchanges : Bool) (low : Option Ent) (p p' : Place) (s t : r.Fs)
      : Type 0 where
    pub entry : (e : Ent) × (r.at s p ≡ some e) × (r.at t p' ≡ some e)
    pub left : exchanges ≡ false → view (r.at t p) low ≡ none
    pub swapped : exchanges ≡ true → r.at t p ≡ r.at s p'
    pub others : (q : Place) → q ≢ p → q ≢ p' → r.at t q ≡ r.at s q

module _ {v : Vfs} {r : Dirs} where
  way-Fits :
      (exchanges positive : Bool) (low : Option Ent) (s : Two v r)
      → Checked s
      → (positive ≡ false → low ≡ none)
      → Fits exchanges low (at_new s) (way exchanges positive s.old.node s.new.node)
  unfolding way
  way-Fits true positive low s c h = inl (refl, refl)
  way-Fits false true low s c h = elim (Bool-cases (dentry_is_whiteout s.new.node)) [
    | inl e ↦ rw e (inr (refl, c.covered e, λ z. absurd cc))
    | inr e ↦ rw e (refl, refl)
  ]
  way-Fits false false low s c h =
      elim (Bool-cases (is_dir s.old.node.mode && dentry_is_whiteout s.new.node)) [
        | inl e ↦ rw e (inr (refl, c.covered (ground (arith, e)), λ z. h refl))
        | inr e ↦ rw e (refl, refl, h refl)
      ]

  abbrev pub Renamed : Bool → Option Ent → Two v r → Res (Unit {0}) × Two v r → Type 0
  Renamed exchanges low s (ok _, t) =
      MovedEntry r exchanges low (here s.old) (here s.new) s.world.fs t.world.fs
  Renamed exchanges low s (err e, t) = (q : Place) → r.at t.world.fs q ≡ r.at s.world.fs q

  two_places :
      (s : Two v r) (e : Ent)
      → at_old s ≡ some e
      → same_inode (at_old s) (at_new s) ≡ false
      → here s.new ≢ here s.old
  two_places s e h n p =
      let both : same_inode (some e) (some e) ≡ false =
        ap (λ o. same_inode o o) (sym h)
        ∙ ap (λ q. same_inode (at_old s) (r.at s.world.fs q)) (sym p)
        ∙ n in
      ground (arith, both)

  after_sweep :
      (l : Laws r) (low : Option Ent) (b : Bool) (s : Two v r)
      → is_whiteout (at_old s) ≡ true
      → (b ≡ true → low ≡ none)
      → (view (r.at (swept b s).world.fs (here s.old)) low ≡ none)
        × ((q : Place) → q ≢ here s.old → r.at (swept b s).world.fs q ≡ r.at s.world.fs q)
  after_sweep l low false s w h = (view-is_whiteout (at_old s) low w, λ q n. refl)
  after_sweep l low true s w h =
      let t = cleaned-Tidied l (here s.old) s.world in
      (
        elim t.self [
          | inl none_left ↦ ap (λ o. view o low) none_left ∙ h refl
          | inr stays ↦ ap (λ o. view o low) stays ∙ view-is_whiteout (at_old s) low w
        ],
        t.others,
      )

  -- The state behind the call of the kernel.
  abbrev at_fs : Two v r → r.Fs → Two v r
  at_fs s t = record {
    world = record { fs = t; temp_id = s.world.temp_id; noxattr = s.world.noxattr };
    old = s.old;
    new = s.new;
  }

  moved :
      (l : Laws r) (exchanges : Bool) (low : Option Ent) (s : Two v r) (flag : Flag) (clean : Bool)
      (t : r.Fs)
      → (e : Ent) × (at_old s ≡ some e)
      → same_inode (at_old s) (at_new s) ≡ false
      → Fits exchanges low (at_new s) (record { flag = flag; cleanup_whiteout = clean })
      → r.rename s.world.fs (here s.old) (here s.new) flag ≡ ok t
      → MovedEntry r exchanges low
          (here s.old)
          (here s.new)
          s.world.fs
          (swept clean (at_fs s t)).world.fs
  moved l exchanges low s plain clean t (e, a) apart f h =
      let m =
        l.plain_lem s.world.fs (here s.old) (here s.new) e t a
          (ap (λ o. same_inode o (at_new s)) (sym a) ∙ apart) h in
      rw f.0 (record {
        entry = (e, a, m.new);
        left = λ _. ap (λ o. view o low) m.old ∙ f.2;
        swapped = λ z. cc;
        others = m.others;
      })
  moved l exchanges low s whiteout_source clean t (e, a) apart f h =
      let (w, k, m) =
        l.whiteout_source_lem s.world.fs (here s.old) (here s.new) e t a
          (ap (λ o. same_inode o (at_new s)) (sym a) ∙ apart) h in
      rw f.0 (record {
        entry = (e, a, m.new);
        left = λ _. view-is_whiteout _ low (ap is_whiteout m.old ∙ ap whiteout_kind k);
        swapped = λ z. cc;
        others = m.others;
      })
  moved l exchanges low s exchange clean t o apart (inl f) h =
      let (e, g, a, b, m) = l.exchange_lem s.world.fs (here s.old) (here s.new) t h in
      rw f.1 (record {
        entry = (e, a, m.new);
        left = λ z. cc;
        swapped = λ _. m.old ∙ sym b;
        others = m.others;
      })
  moved l exchanges low s exchange clean t o apart (inr f) h =
      let (e, g, a, b, m) = l.exchange_lem s.world.fs (here s.old) (here s.new) t h in
      let white = f.1 (ap is_some b) in
      let u = at_fs s t in
      let swept = after_sweep l low clean u (ap is_whiteout (m.old ∙ sym b) ∙ white) f.2 in
      record {
        entry = (e, a, swept.1 (here s.new) (two_places s e a apart) ∙ m.new);
        left = λ _. swept.0;
        swapped = λ z. cc;
        others = λ q n n'. swept.1 q n ∙ m.others q n n';
      }

  renamed :
      (l : Laws r) (exchanges : Bool) (low : Option Ent) (s : Two v r) (w : Way) (x : Res r.Fs)
      → (e : Ent) × (at_old s ≡ some e)
      → same_inode (at_old s) (at_new s) ≡ false
      → Fits exchanges low (at_new s) w
      → r.rename s.world.fs (here s.old) (here s.new) w.flag ≡ x
      → Renamed exchanges low s (do_rename w exchanges s)
  unfolding do_rename dir_modified
  renamed l exchanges low s w (err e) o apart f h = rw h (λ q. refl)
  renamed l exchanges low s w (ok t) o apart f h =
      let m = moved l exchanges low s w.flag w.cleanup_whiteout t o apart f h in
      rw h record { entry = m.entry; left = m.left; swapped = m.swapped; others = m.others }

  behind_marking :
      (exchanges : Bool) (low : Option Ent) (s u : Two v r) (x : Res (Unit {0}) × Two v r)
      → Still {A = Unit {0}} s (ok tt, u)
      → Renamed exchanges low u x
      → Renamed exchanges low s x
  behind_marking exchanges low s u (err e, t) h m = λ q. m q ∙ h.0 q
  behind_marking exchanges low s u (ok _, t) h m =
      let m' =
        subst (λ p. MovedEntry r exchanges low p (here s.new) u.world.fs t.world.fs) h.1
          (subst (λ p. MovedEntry r exchanges low (here u.old) p u.world.fs t.world.fs) h.2 m) in
      let (e, a, b) = m'.entry in
      record {
        entry = (e, sym (h.0 (here s.old)) ∙ a, b);
        left = m'.left;
        swapped = λ z. m'.swapped z ∙ h.0 (here s.new);
        others = λ q n n'. m'.others q n n' ∙ h.0 q;
      }

  marked :
      (l : Laws r) (exchanges : Bool) (low : Option Ent) (s u : Two v r) (w : Way)
      → Checked s
      → Fits exchanges low (at_new s) w
      → Still {A = Unit {0}} s (ok tt, u)
      → Renamed exchanges low s (do_rename w exchanges u)
  marked l exchanges low s u w c f h =
      let old : at_old u ≡ at_old s = ap (r.at u.world.fs) h.1 ∙ h.0 (here s.old) in
      let new : at_new u ≡ at_new s = ap (r.at u.world.fs) h.2 ∙ h.0 (here s.new) in
      let (e, a) = c.old in
      behind_marking exchanges low s u _ h (
        renamed l exchanges low u w _ (e, old ∙ a)
          (ap (λ o. same_inode o (at_new u)) old ∙ ap (same_inode (at_old s)) new ∙ c.apart)
          (subst (λ o. Fits exchanges low o w) (sym new) f) refl)

  behind_checks :
      (l : Laws r) (k : Calls) (exchanges samedir positive : Bool) (low : Option Ent) (s : Two v r)
      → (positive ≡ false → low ≡ none)
      → Checked s
      → Renamed exchanges low s (
          next
            (mark_both k exchanges samedir s)
            (λ _. do_rename (way exchanges positive s.old.node s.new.node) exchanges))
  behind_checks l k exchanges samedir positive low s n c =
      let w = way exchanges positive s.old.node s.new.node in
      next_lem (mark_both k exchanges samedir s) (λ _. do_rename w exchanges) (Still s)
        (Renamed exchanges low s) (mark_both-Still l k exchanges samedir s)
        (λ _ u h. marked l exchanges low s u w c (way-Fits exchanges positive low s c n) h)
        (λ e t h. h.0)

  -- What ovl_rename does under its locks, where the lower layers give nothing under the old name
  -- if ovl_lower_positive is false: where it returns 0, the old entry stands under the new name,
  -- and the old name is gone from the merged directory or, for an exchange, has the new one's
  -- entry; no other entry is changed. Where it fails, no entry is changed at all.
  pub rename_locked-Renamed :
      (l : Laws r) (k : Calls) (exchanges samedir positive : Bool) (opaque : Option ℕ)
      (low : Option Ent) (s : Two v r)
      → (positive ≡ false → low ≡ none)
      → Renamed exchanges low s (
          rename_locked k (way exchanges positive s.old.node s.new.node) exchanges samedir opaque s)
  unfolding rename_locked
  rename_locked-Renamed l k exchanges samedir positive opaque low s n =
      let w = way exchanges positive s.old.node s.new.node in
      let rest : Unit {0} → Two v r → Res (Unit {0}) × Two v r =
        λ _ t. next (mark_both k exchanges samedir t) (λ _. do_rename w exchanges) in
      next_lem (check_places k opaque s) rest (AllChecked s) (Renamed exchanges low s)
        (check_places-AllChecked k opaque s)
        (λ _ t h.
          subst (λ z. Renamed exchanges low s (rest tt z)) (sym h.0)
            (behind_checks l k exchanges samedir positive low s n h.1))
        (λ e t h q. ap (λ z. r.at z.world.fs q) h)
