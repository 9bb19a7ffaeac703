-- ===== src/Dir/Made/Created.antt =====
-- What the making of an upper file changes (dir.c: ovl_create_real, ovl_create_temp,
-- ovl_set_opaque_xerr).
use fzz_overlay.Base.{
  ℕ, ◌≡◌, ◌≢◌, refl, ap, ◌∙◌, Bool, Bool-cases, true, false, List, [], ◌∷◌, Option, none, some, inl,
  inr, ◌==◌,
}
use fzz_overlay.Vfs.{Res, ok, err, Vfs}
use fzz_overlay.Handle.Store.{eopnotsupp}
use fzz_overlay.Dir.{
  Dirs, Laws, World, Place, Ent, Changes, change, next, Make, create, mkdir, symlink, mknod, link,
  MadeAs, check_set, set_result, Attribute, opaque_xattr,
}
use fzz_overlay.Dir.Steps.{next_lem}
use fzz_overlay.Dir.Whiteout.{lookup_temp}
use fzz_overlay.Dir.Whiteout.Atomic.{Outside, elsewhere, TempFound, lookup_temp-TempFound}
use fzz_overlay.Dir.Made.{
  Cattr, make_of, mkdir_real, hashed_again, made, instantiated, create_real, create_temp, St,
  opaque_if_set, set_opaque_xerr,
}

module _ {r : Dirs} where
  abbrev Others : Place → World r → World r → Type 0
  Others p w t = (q : Place) → q ≢ p → r.at t.fs q ≡ r.at w.fs q

  -- One new entry, as it was asked for.
  abbrev pub NewEntry : Option Make → Place → World r → World r → Type 0
  NewEntry o p w t =
      (m : Make) × (o ≡ some m) × ((e : Ent) × MadeAs m e × Changes r w.fs p (some e) t.fs)

  abbrev Fresh : Option Make → Place → World r → Res (Unit {0}) × World r → Type 0
  Fresh o p w (ok _, t) = NewEntry o p w t
  Fresh o p w (err e, t) = Others p w t

  abbrev pub Created : Cattr → Place → World r → Res Place × World r → Type 0
  Created a p w (ok p', t) = (p' ≡ p) × NewEntry (make_of a) p w t
  Created a p w (err e, t) = Others p w t

  change-Fresh :
      (l : Laws r) (p : Place) (w : World r) (m : Make) (x : Res r.Fs)
      → r.at w.fs p ≡ none
      → r.make w.fs p m ≡ x
      → Fresh (some m) p w (change (λ s. r.make s p m) w)
  change-Fresh l p w m (ok t) n h = rw h (m, refl, l.make_lem w.fs p m t n h)
  change-Fresh l p w m (err e) n h = rw h (λ q d. refl)

  hashed-Fresh :
      (o : Option Make) (p : Place) (w t : World r) (b : Bool) (x : Res (Unit {0}))
      → r.lookup_one_len t.fs p ≡ x
      → NewEntry o p w t
      → Fresh o p w (hashed_again b p t)
  hashed-Fresh o p w t true (ok _) h n = rw h n
  hashed-Fresh o p w t true (err e) h n = let (m, _, (e', _, c)) = n in rw h c.others
  hashed-Fresh o p w t false x h n = n

  made-Fresh :
      (l : Laws r) (o : Option Make) (p : Place) (w : World r)
      → r.at w.fs p ≡ none
      → Fresh o p w (made o p w)
  unfolding mkdir_real
  made-Fresh l none p w n = λ q d. refl
  made-Fresh l (some mkdir) p w n =
      next_lem (change (λ s. r.make s p mkdir) w) (λ _ t. hashed_again (r.unhashed t.fs p) p t)
        (Fresh (some mkdir) p w) (Fresh (some mkdir) p w) (change-Fresh l p w mkdir _ n refl)
        (λ _ t h. hashed-Fresh (some mkdir) p w t _ _ refl h) (λ e t h. h)
  made-Fresh l (some create) p w n = change-Fresh l p w create _ n refl
  made-Fresh l (some symlink) p w n = change-Fresh l p w symlink _ n refl
  made-Fresh l (some (mknod c d)) p w n = change-Fresh l p w (mknod c d) _ n refl
  made-Fresh l (some (link i)) p w n = change-Fresh l p w (link i) _ n refl

  instantiated-Created :
      (a : Cattr) (p : Place) (w t : World r)
      → NewEntry (make_of a) p w t
      → Created a p w (instantiated p t)
  instantiated-Created a p w t n =
      let (m, _, (e, _, c)) = n in let there : r.at t.fs p ≡ some e = c.here in rw there (refl, n)

  created :
      (l : Laws r) (p : Place) (a : Cattr) (w : World r) (o : Option Ent)
      → r.at w.fs p ≡ o
      → Created a p w (create_real p a w)
  unfolding create_real
  created l p a w (some e) h = rw h (λ q d. refl)
  created l p a w none h = rw h (
      next_lem (made (make_of a) p w) (λ _. instantiated p) (Fresh (make_of a) p w) (Created a p w)
        (made-Fresh l (make_of a) p w h) (λ _ t n. instantiated-Created a p w t n) (λ e t n. n))

  pub create_real-Created :
      (l : Laws r) (p : Place) (a : Cattr) (w : World r) → Created a p w (create_real p a w)
  create_real-Created l p a w = created l p a w _ refl

  -- What ovl_create_temp gives: a new entry in the working directory.
  abbrev pub TempMade : ℕ → Cattr → r.Fs → Res Place × World r → Type 0
  TempMade d a s (ok p, t) =
      (p.dir ≡ d)
      × Outside r d s t.fs
      × ((m : Make) × (make_of a ≡ some m) × ((e : Ent) × MadeAs m e × (r.at t.fs p ≡ some e)))
  TempMade d a s (err e, t) = Outside r d s t.fs

  temp_made :
      (d : ℕ) (a : Cattr) (s : r.Fs) (p : Place) (w : World r) (x : Res Place × World r)
      → p.dir ≡ d
      → w.fs ≡ s
      → Created a p w x
      → TempMade d a s x
  temp_made d a s p w (ok p', t) h e (same, (m, b, (f, k, c))) = (
    ap Place.dir same ∙ h,
    λ q n. c.others q (elsewhere d p q h n) ∙ ap (λ u. r.at u q) e,
    (m, b, (f, k, ap (r.at t.fs) same ∙ c.here)),
  )
  temp_made d a s p w (err f, t) h e c = λ q n. c q (elsewhere d p q h n) ∙ ap (λ u. r.at u q) e

  pub create_temp-TempMade :
      (l : Laws r) (d : ℕ) (a : Cattr) (w : World r) → TempMade d a w.fs (create_temp d a w)
  unfolding create_temp
  create_temp-TempMade l d a w =
      next_lem (lookup_temp d w) (λ p. create_real p a) (TempFound d w.fs) (TempMade d a w.fs)
        (lookup_temp-TempFound d w)
        (λ p t h. temp_made d a w.fs p t _ h.0 h.2 (create_real-Created l p a t))
        (λ e t h. λ q n. ap (λ u. r.at u q) h)

  -- What ovl_check_setxattr gives: no entry is changed, and the attribute is set on success, if
  -- there are extended attributes.
  abbrev pub Attributed : ℕ → Attribute → List ℕ → r.Fs → Res (Unit {0}) × World r → Type 0
  Attributed i x val s (ok _, t) =
      ((q : Place) → r.at t.fs q ≡ r.at s q) × (r.xattr t.fs i x ≡ some val)
  Attributed i x val s (err e, t) = (q : Place) → r.at t.fs q ≡ r.at s q

  set_result-Attributed :
      (l : Laws r) (i : ℕ) (x : Attribute) (val : List ℕ) (xerr : ℕ) (w : World r) (y : Res r.Fs)
      → (xerr == 0) ≡ false
      → r.setxattr w.fs i x val ≡ y
      → Attributed i x val w.fs (set_result xerr y w)
  set_result-Attributed l i x val xerr w (ok t) n h =
      let (a, b, _) = l.setxattr_lem w.fs i x val t h in (a, b)
  set_result-Attributed l i x val xerr w (err e) n h = elim (Bool-cases (e == eopnotsupp)) [
    | inl b ↦ rw (b, n) (λ q. refl)
    | inr b ↦ rw b (λ q. refl)
  ]

  pub check_set-Attributed :
      (l : Laws r) (i : ℕ) (x : Attribute) (val : List ℕ) (xerr : ℕ) (w : World r)
      → (xerr == 0) ≡ false
      → Attributed i x val w.fs (check_set i x val xerr w)
  unfolding check_set
  check_set-Attributed l i x val xerr w n = elim (Bool-cases w.noxattr) [
    | inl b ↦ simp (b, n) (λ q. refl)
    | inr b ↦ simp b (set_result-Attributed l i x val xerr w _ n refl)
  ]

module _ {v : Vfs} {r : Dirs} where
  -- The dentry's place and that of its upper dentry stay.
  pub record SamePlaces (s t : St v r) : Type 0 where
    pub dir : t.side.dir ≡ s.side.dir
    pub name : t.side.name ≡ s.side.name
    pub upper_at : t.side.upper_at ≡ s.side.upper_at

  abbrev pub Opaqued : ℕ → St v r → Res (Unit {0}) × St v r → Type 0
  Opaqued i s (x, t) =
      SamePlaces s t × Attributed i opaque_xattr (b'y' ∷ []) s.world.fs (x, t.world)

  opaqued :
      (i : ℕ) (s : St v r) (y : Res (Unit {0}) × World r)
      → Attributed i opaque_xattr (b'y' ∷ []) s.world.fs y
      → Opaqued i s (y.0, record s { world = y.1; side = opaque_if_set y.0 s.side })
  opaqued i s (ok _, t) h = (record { dir = refl; name = refl; upper_at = refl }, h)
  opaqued i s (err e, t) h = (record { dir = refl; name = refl; upper_at = refl }, h)

  pub set_opaque_xerr-Opaqued :
      (l : Laws r) (i xerr : ℕ) (s : St v r)
      → (xerr == 0) ≡ false
      → Opaqued i s (set_opaque_xerr i xerr s)
  unfolding set_opaque_xerr
  set_opaque_xerr-Opaqued l i xerr s n =
      opaqued i s _ (check_set-Attributed l i opaque_xattr (b'y' ∷ []) xerr s.world n)

  pub on_world_lem :
      {A B : Type 0} (s : St v r) (x : Res A × World r) (f : A → St v r → Res B × St v r)
      (P : Res A × World r → Type 0) (Q : Res B × St v r → Type 0)
      → P x
      → ((a : A) (t : World r) → P (ok a, t) → Q (f a (record s { world = t })))
      → ((e : ℕ) (t : World r) → P (err e, t) → Q (err e, record s { world = t }))
      → Q (next (x.0, record s { world = x.1 }) f)
  on_world_lem s (ok a, t) f P Q p go stop = go a t p
  on_world_lem s (err e, t) f P Q p go stop = stop e t p
