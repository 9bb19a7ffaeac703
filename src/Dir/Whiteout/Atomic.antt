-- ===== src/Dir/Whiteout/Atomic.antt =====
-- A whiteout takes the place of an entry at once, or the entry stays (dir.c:
-- ovl_cleanup_and_whiteout).
use fzz_overlay.Base.{
  ℕ, ◌≡◌, ◌≢◌, ◌⊎◌, inl, inr, refl, sym, ap, ◌∙◌, Bool, Bool-cases, true, false, not, ◌||◌, List,
  [], ◌∷◌, Option, none, some, if◌then◌else◌, arith,
}
use mathlib.Core.Path.{subst}
use fzz_overlay.Vfs.{Res, ok, err}
use fzz_overlay.Dentry.{is_some}
use fzz_overlay.Dir.{
  Attribute, Dirs, Laws, World, Place, Ent, Changes, plain, exchange, d_is_dir, change, is_whiteout,
  same_inode, next, whiteout,
}
use fzz_overlay.Dir.Steps.{next_lem}
use fzz_overlay.Dir.Whiteout.{
  Cached, cleanup, cleaned, unused, lookup_temp, whiteout_in, replace, cleanup_and_whiteout,
  cleanup_whiteouts, cleanup_found, cleanup_listed,
}

pub elsewhere : (d : ℕ) (p q : Place) → p.dir ≡ d → q.dir ≢ d → q ≢ p
elsewhere d p q h n e = n (ap Place.dir e ∙ h)

fresh_differs :
    (e : Ent) (o : Option Ent)
    → ((f : Ent) → o ≡ some f → f.ino ≢ e.ino)
    → same_inode (some e) o ≡ false
fresh_differs e none h = refl
fresh_differs e (some f) h = let n = h f refl in ground (arith, n)

whiteout_is : (e : Ent) → e.kind ≡ whiteout → is_whiteout (some e) ≡ true
whiteout_is e h = simp h

module _ (r : Dirs) where
  -- Nothing is changed but in one directory.
  abbrev pub Outside : ℕ → r.Fs → r.Fs → Type 0
  Outside d s t = (q : Place) → q.dir ≢ d → r.at t q ≡ r.at s q

  -- Nothing is changed but in one directory, and under one name.
  abbrev pub OutsideBut : ℕ → Place → r.Fs → r.Fs → Type 0
  OutsideBut d p s t = (q : Place) → q.dir ≢ d → q ≢ p → r.at t q ≡ r.at s q

  -- One entry may be changed, and the inodes that keep entries keep their attributes.
  pub record Tidied (p : Place) (s t : r.Fs) : Type 0 where
    pub self : (r.at t p ≡ none) ⊎ (r.at t p ≡ r.at s p)
    pub others : (q : Place) → q ≢ p → r.at t q ≡ r.at s q
    pub kept :
        (q z : Place) (e f : Ent)
        → r.at s q ≡ some e
        → r.at t z ≡ some f
        → f.ino ≡ e.ino
        → (x : Attribute) → r.xattr t f.ino x ≡ r.xattr s e.ino x

  -- What ovl_whiteout gives: a whiteout in the working directory, with a number of its own.
  pub record Whiteout (d : ℕ) (s : r.Fs) (p : Place) (t : r.Fs) : Type 0 where
    pub place : p.dir ≡ d
    pub entry :
        (e : Ent) × (e.kind ≡ whiteout)
        × (r.at t p ≡ some e)
        × ((q : Place) → q.dir ≢ d → same_inode (some e) (r.at t q) ≡ false)
    pub outside : Outside d s t

module _ {r : Dirs} where
  changed_only :
      (p : Place) (w : World r) (f : r.Fs → Res r.Fs) (x : Res r.Fs)
      → f w.fs ≡ x
      → ((t : r.Fs) → f w.fs ≡ ok t → Changes r w.fs p none t)
      → Tidied r p w.fs (change f w).1.fs
  changed_only p w f (ok t) h c =
      let z = c t h in rw h record { self = inl z.here; others = z.others; kept = z.kept }
  changed_only p w f (err e) h c = rw h record {
    self = inr refl;
    others = λ q n. refl;
    kept = λ q z e f a b i x. ap (λ k. r.xattr w.fs k x) i;
  }

  cleaned_by :
      (l : Laws r) (p : Place) (w : World r) (is_dir : Bool)
      → Tidied r p w.fs
          (if is_dir
            then change (λ s. r.rmdir s p.dir p) w
            else change (λ s. r.unlink s p.dir p) w).1.fs
  cleaned_by l p w true = changed_only p w (λ s. r.rmdir s p.dir p) _ refl (l.rmdir_lem w.fs p)
  cleaned_by l p w false = changed_only p w (λ s. r.unlink s p.dir p) _ refl (l.unlink_lem w.fs p)

  pub cleaned-Tidied :
      (l : Laws r) (p : Place) (w : World r) → Tidied r p w.fs (cleaned p.dir p w).fs
  unfolding cleanup
  cleaned-Tidied l p w = cleaned_by l p w (d_is_dir (r.at w.fs p))

  pub cleaned-Outside :
      (l : Laws r) (p : Place) (w : World r) → Outside r p.dir w.fs (cleaned p.dir p w).fs
  cleaned-Outside l p w q n = (cleaned-Tidied l p w).others q (elsewhere p.dir p q refl n)

  abbrev WhiteoutMade : ℕ → r.Fs → Res Place × World r → Type 0
  WhiteoutMade d s (ok p, t) = Whiteout r d s p t.fs
  WhiteoutMade d s (err e, t) = Outside r d s t.fs

  abbrev whiteout_at : ℕ → Place → World r → Res Place × World r
  whiteout_at d p w = next (change (λ s. r.do_whiteout s d p) w) (λ _ t. (ok p, t))

  made_whiteout :
      (l : Laws r) (p : Place) (w : World r) (x : Res r.Fs)
      → r.do_whiteout w.fs p.dir p ≡ x
      → WhiteoutMade p.dir w.fs (whiteout_at p.dir p w)
  made_whiteout l p w (err e) h = rw h λ q n. refl
  made_whiteout l p w (ok t) h =
      let (e, k, fresh, c) = l.do_whiteout_lem w.fs p t h in
      rw h record {
        place = refl;
        entry = (
          e,
          k,
          c.here,
          λ q n.
              fresh_differs e (r.at t q)
                λ f b. fresh q f (sym (c.others q (elsewhere p.dir p q refl n)) ∙ b),
        );
        outside = λ q n. c.others q (elsewhere p.dir p q refl n);
      }

  -- What ovl_lookup_temp gives: a free name in the working directory.
  abbrev pub TempFound : ℕ → r.Fs → Res Place × World r → Type 0
  TempFound d s (ok p, t) = (p.dir ≡ d) × (r.at t.fs p ≡ none) × (t.fs ≡ s)
  TempFound d s (err e, t) = t.fs ≡ s

  unused_lem :
      (p : Place) (w : World r) (x : Res (Unit {0})) (o : Option Ent)
      → r.at w.fs p ≡ o
      → TempFound p.dir w.fs (unused p x w)
  unused_lem p w (err e) o h = refl
  unused_lem p w (ok _) none h = rw h (refl, h, refl)
  unused_lem p w (ok _) (some f) h = rw h refl

  pub lookup_temp-TempFound : (d : ℕ) (w : World r) → TempFound d w.fs (lookup_temp d w)
  unfolding lookup_temp
  lookup_temp-TempFound d w = unused_lem _ (record w { temp_id = _ }) _ _ refl

  whiteout_in_lem : (l : Laws r) (d : ℕ) (w : World r) → WhiteoutMade d w.fs (whiteout_in d w)
  unfolding whiteout_in
  whiteout_in_lem l d w =
      next_lem (lookup_temp d w) (λ p. _) (TempFound d w.fs) (WhiteoutMade d w.fs)
        (lookup_temp-TempFound d w)
        (λ p t h.
          subst (λ c. WhiteoutMade c w.fs (whiteout_at c p t)) h.0
            (subst (λ s. WhiteoutMade p.dir s (whiteout_at p.dir p t)) h.2
              (made_whiteout l p t _ refl)))
        (λ e t h. λ q n. ap (λ s. r.at s q) h)

  -- The new entry and all else, if the code succeeds; else nothing outside the working directory.
  abbrev pub Replaced : ℕ → Place → r.Fs → Res (Unit {0}) × World r → Type 0
  Replaced d p s (ok _, t) = (is_whiteout (r.at t.fs p) ≡ true) × OutsideBut r d p s t.fs
  Replaced d p s (err e, t) = Outside r d s t.fs

  replaced :
      (l : Laws r) (d : ℕ) (p wh : Place) (s : r.Fs) (u : World r) (is_dir : Bool) (x : Res r.Fs)
      → p.dir ≢ d
      → Whiteout r d s wh u.fs
      → r.rename u.fs wh p (if is_dir then exchange else plain) ≡ x
      → Replaced d p s (replace d p is_dir wh u)
  replaced l d p wh s u is_dir (err e) n h y = rw y λ q m.
      subst (λ c. Outside r c u.fs (cleaned c wh u).fs) h.place (cleaned-Outside l wh u) q m
      ∙ h.outside q m
  replaced l d p wh s u false (ok t) n h y =
      let (e, k, b, f) = h.entry in
      let m = l.plain_lem u.fs wh p e t b (f p n) y in
      rw (y, m.new)
        (whiteout_is e k, λ q a c. m.others q (elsewhere d wh q h.place a) c ∙ h.outside q a)
  replaced l d p wh s u true (ok t) n h y =
      let (e, k, b, f) = h.entry in
      let (e', f', b', c', m) = l.exchange_lem u.fs wh p t y in
      let same : some e' ≡ some e = sym b' ∙ b in
      let z : World r = record u { fs = t } in
      let out = subst (λ c. Outside r c t (cleaned c wh z).fs) h.place (cleaned-Outside l wh z) in
      rw y (
        ap is_whiteout (out p n ∙ m.new ∙ same) ∙ whiteout_is e k,
        λ q a c. out q a ∙ m.others q (elsewhere d wh q h.place a) c ∙ h.outside q a,
      )

  -- Where ovl_cleanup_and_whiteout returns 0, the name is a whiteout, and where it fails, the
  -- name has the entry that it had. Nothing else is changed outside the working directory.
  pub cleanup_and_whiteout-Replaced :
      (l : Laws r) (d : ℕ) (p : Place) (w : World r)
      → p.dir ≢ d
      → Replaced d p w.fs (cleanup_and_whiteout d p w)
  unfolding cleanup_and_whiteout
  cleanup_and_whiteout-Replaced l d p w n =
      next_lem (whiteout_in d w) (λ wh u. replace d p (d_is_dir (r.at u.fs p)) wh u)
        (WhiteoutMade d w.fs) (Replaced d p w.fs) (whiteout_in_lem l d w)
        (λ wh u h. replaced l d p wh w.fs u _ _ n h refl) (λ e t h. h)

  -- The entries of one directory alone are removed.
  pub cleanup_whiteouts-Outside :
      (l : Laws r) (upper : ℕ) (cs : List Cached) (w : World r)
      → Outside r upper w.fs (cleanup_whiteouts upper cs w).fs
  unfolding cleanup_whiteouts
  cleanup_whiteouts-Outside l upper [] w q n = refl
  cleanup_whiteouts-Outside l upper (c ∷ cs) w q n =
      cleanup_whiteouts-Outside l upper cs (cleanup_listed upper c w) q n ∙ listed q n
    where
      p : Place
      p = record { dir = upper; name = c.name }

      found :
          (x : Res (Unit {0})) (b : Bool)
          → is_some (r.at w.fs p) ≡ b
          → Outside r upper w.fs (cleanup_found x upper p w).fs
      found (err e) b h = λ q n. refl
      found (ok _) true h = rw h (cleaned-Outside l p w)
      found (ok _) false h = rw h (λ q n. refl)

      listed : Outside r upper w.fs (cleanup_listed upper c w).fs
      listed = elim (Bool-cases (not c.is_whiteout || not c.is_upper)) [
        | inl e ↦ rw e (λ q n. refl)
        | inr e ↦ rw e (found (r.lookup_one_len w.fs p) _ refl)
      ]
