-- ===== src/Dir/Create/Placed.antt =====
-- What stands over a whiteout when something new is put there (dir.c: ovl_create_over_whiteout).
use fzz_overlay.Base.{
  ℕ, ◌≡◌, ◌≢◌, ◌⊎◌, refl, sym, ap, ◌∙◌, Bool, Bool-cases, true, false, not, ◌&&◌, [], ◌∷◌, Option,
  none, some, if◌then◌else◌, inl, inr, ◌==◌, arith,
}
use mathlib.Core.Path.{subst}
use fzz_overlay.Vfs.{Res, ok, err, Vfs}
use fzz_overlay.Handle.{eio}
use fzz_overlay.Dir.{
  Dirs, Laws, World, Place, Ent, change, next, or_clean, exchange, plain, is_whiteout,
  whiteout_kind, same_inode, opaque_xattr, MadeAs, Make, create, mkdir, symlink, mknod, link,
}
use fzz_overlay.Dir.Steps.{next_lem, or_clean_lem, call_lem}
use fzz_overlay.Dir.Whiteout.Atomic.{
  Outside, OutsideBut, elsewhere, cleaned-Outside, cleaned-Tidied,
}
use fzz_overlay.Dir.Made.{Cattr, make_of, St, on_world, set_opaque, set_opaque_xerr, dir_modified}
use fzz_overlay.Dir.Made.Created.{SamePlaces, Opaqued, set_opaque_xerr-Opaqued}
use fzz_overlay.Dir.Remove.{here, ino_at, ino_of, clean_on}
use fzz_overlay.Dir.Create.{
  Calls, is_link, is_ifdir, prepare_new, put_dir, put_new, placed, instantiate, instantiate_as,
}

abbrev pub whiteout_made : Make → Bool
whiteout_made create = false
whiteout_made mkdir = false
whiteout_made symlink = false
whiteout_made (mknod chr rdev) = chr && rdev == 0
whiteout_made (link f) = is_whiteout (some f)

abbrev pub whiteout_of : Option Make → Bool
whiteout_of none = false
whiteout_of (some m) = whiteout_made m

MadeAs-shows : (m : Make) (e : Ent) → MadeAs m e → is_whiteout (some e) ≡ whiteout_made m
MadeAs-shows create e h = simp h
MadeAs-shows mkdir e h = simp h
MadeAs-shows symlink e h = simp h
MadeAs-shows (link f) e h = ap (λ z. is_whiteout (some z)) h
MadeAs-shows (mknod false rdev) e h = simp h
MadeAs-shows (mknod true rdev) e h = elim (Bool-cases (rdev == 0)) [
  | inl b ↦ simp (h, b)
  | inr b ↦ simp (h, b)
]

pub made_shown :
    (a : Cattr) (m : Make) (e : Ent)
    → whiteout_of (make_of a) ≡ false
    → make_of a ≡ some m
    → MadeAs m e
    → is_whiteout (some e) ≡ false
made_shown a m e n h k = MadeAs-shows m e k ∙ sym (ap whiteout_of h) ∙ n

module _ {r : Dirs} where
  whiteouts_differ :
      (l : Laws r) (s : r.Fs) (p q : Place) (e : Ent) (o : Option Ent)
      → r.at s p ≡ some e
      → r.at s q ≡ o
      → is_whiteout (some e) ≡ false
      → is_whiteout o ≡ true
      → same_inode (some e) o ≡ false
  whiteouts_differ l s p q e none a b n w = refl
  whiteouts_differ l s p q e (some f) a b n w = elim (Bool-cases (e.ino == f.ino)) [
    | inr c ↦ c
    | inl c ↦
        let same : e.ino ≡ f.ino = ground (arith, c) in
        let k = l.one_kind s p q e f a b same in cc (sym n ∙ ap whiteout_kind k ∙ w)
  ]

module _ (r : Dirs) where
  -- The new file stands under the name, with the attribute of an opaque directory if it is one.
  pub record Stands (d : ℕ) (p : Place) (e : Ent) (dir : Bool) (s t : r.Fs) : Type 0 where
    pub there : r.at t p ≡ some e
    pub opaque : dir ≡ true → r.xattr t e.ino opaque_xattr ≡ some (b'y' ∷ [])
    pub outside : OutsideBut r d p s t

module _ {v : Vfs} {r : Dirs} where
  abbrev pub Put : ℕ → Ent → Bool → St v r → Res (Unit {0}) × St v r → Type 0
  Put d e dir s (ok _, t) = SamePlaces s t × Stands r d (here s.side) e dir s.world.fs t.world.fs
  Put d e dir s (err f, t) = Outside r d s.world.fs t.world.fs

  move_over :
      (l : Laws r) (temp : Place) (e : Ent) (s : St v r) (x : Res r.Fs)
      → (here s.side).dir ≢ temp.dir
      → r.at s.world.fs temp ≡ some e
      → is_whiteout (some e) ≡ false
      → is_whiteout (r.at s.world.fs (here s.side)) ≡ true
      → r.rename s.world.fs temp (here s.side) plain ≡ x
      → Put temp.dir e false s (on_world (change (λ t. r.rename t temp (here s.side) plain)) s)
  move_over l temp e s (err f) n a b w h = rw h (λ q c. refl)
  move_over l temp e s (ok t) n a b w h =
      let p = here s.side in
      let m =
        l.plain_lem s.world.fs temp p e t a (whiteouts_differ l s.world.fs temp p e _ a refl b w)
          h in
      rw h (
        record { dir = refl; name = refl; upper_at = refl },
        record {
          there = m.new;
          opaque = λ z. absurd cc;
          outside = λ q c k. m.others q (elsewhere temp.dir temp q refl c) k;
        },
      )

  swap_over :
      (l : Laws r) (temp : Place) (e : Ent) (s t : St v r) (x : Res r.Fs)
      → (here s.side).dir ≢ temp.dir
      → SamePlaces s t
      → ((q : Place) → r.at t.world.fs q ≡ r.at s.world.fs q)
      → r.xattr t.world.fs e.ino opaque_xattr ≡ some (b'y' ∷ [])
      → r.at s.world.fs temp ≡ some e
      → r.rename t.world.fs temp (here s.side) exchange ≡ x
      → Put temp.dir e true s (
          next
            (on_world (change (λ u. r.rename u temp (here s.side) exchange)) t)
            (λ _ u. (ok tt, clean_on temp.dir temp u)))
  swap_over l temp e s t (err f) n same at y a h = rw h (λ q c. at q)
  swap_over l temp e s t (ok u) n same at y a h =
      let p = here s.side in
      let (e', f, b, c, m) = l.exchange_lem t.world.fs temp p u h in
      let is_e : some e' ≡ some e = sym b ∙ at temp ∙ a in
      let w : World r = record { fs = u; temp_id = t.world.temp_id; noxattr = t.world.noxattr } in
      let tidy = cleaned-Tidied l temp w in
      let new : r.at u p ≡ some e = m.new ∙ is_e in
      let last = tidy.others p (λ z. n (ap Place.dir z)) ∙ new in
      rw h (
        record { dir = same.dir; name = same.name; upper_at = same.upper_at },
        record {
          there = last;
          opaque = λ _.
              tidy.kept p p e e new last refl opaque_xattr
              ∙ m.kept temp p e e (at temp ∙ a) new refl opaque_xattr
              ∙ y;
          outside = λ q i k.
              let o = elsewhere temp.dir temp q refl i in tidy.others q o ∙ m.others q o k ∙ at q;
        },
      )

  put_dir-Put :
      (l : Laws r) (temp : Place) (e : Ent) (s : St v r)
      → (here s.side).dir ≢ temp.dir
      → r.at s.world.fs temp ≡ some e
      → Put temp.dir e true s (put_dir temp.dir temp (here s.side) s)
  unfolding set_opaque
  put_dir-Put l temp e s n a =
      let i = ino_at temp s.world in
      let is_e : i ≡ e.ino = ap ino_of a in
      next_lem (set_opaque_xerr i eio s) _ (Opaqued i s) (Put temp.dir e true s)
        (set_opaque_xerr-Opaqued l i eio s refl)
        (λ _ t h.
          swap_over l temp e s t _ n h.0 h.1.0
            (subst (λ z. r.xattr t.world.fs z opaque_xattr ≡ some (b'y' ∷ [])) is_e h.1.1) a refl)
        (λ f t h. λ q c. h.1 q)

  -- The new file, as it is in the working directory.
  pub record New (d : ℕ) (e : Ent) (temp : Place) (s t : St v r) : Type 0 where
    pub place : temp.dir ≡ d
    pub apart : (here s.side).dir ≢ d
    pub entry : r.at t.world.fs temp ≡ some e
    pub shown : is_whiteout (some e) ≡ false
    pub over : is_whiteout (r.at t.world.fs (here t.side)) ≡ true

  new_placed_lem :
      (l : Laws r) (a : Cattr) (temp : Place) (e : Ent) (s : St v r) (dir : Bool)
      → New temp.dir e temp s s
      → Put temp.dir e dir s (
          if dir
          then put_dir temp.dir temp (here s.side) s
          else on_world (change (λ t. r.rename t temp (here s.side) plain)) s)
  new_placed_lem l a temp e s true h = put_dir-Put l temp e s h.apart h.entry
  new_placed_lem l a temp e s false h = move_over l temp e s _ h.apart h.entry h.shown h.over refl

  -- With what is done to the file before.
  pub put_new-Put :
      (l : Laws r) (k : Calls) (a : Cattr) (temp : Place) (e : Ent) (s : St v r)
      → New temp.dir e temp s s
      → Put temp.dir e
          (not (is_link a) && is_ifdir a.format)
          s
          (next (prepare_new k a, s) (λ _. put_new temp.dir a temp (here s.side)))
  put_new-Put l k a temp e s h =
      call_lem (prepare_new k a) s (λ _. put_new temp.dir a temp (here s.side))
        (Put temp.dir e (not (is_link a) && is_ifdir a.format) s)
        (λ _ _. new_placed_lem l a temp e s _ h) (λ f. λ q c. refl)

  -- What ovl_instantiate leaves as it is.
  abbrev pub Instantiated : Calls → World r → Res (Unit {0}) × St v r → Type 0
  Instantiated k w (ok _, t) = t.world ≡ w
  Instantiated k w (err f, t) = k.get_inode ≡ err f

  got_inode :
      (k : Calls) (p : Place) (s : St v r) (x : Res (Unit {0}))
      → k.get_inode ≡ x
      → Instantiated k s.world
          (next (x, s) (λ _ u. (ok tt, instantiate_as false (ino_at p u.world) u)))
  got_inode k p s (ok _) h = refl
  got_inode k p s (err f) h = h

  pub instantiate-Instantiated :
      (k : Calls) (hardlink : Bool) (p : Place) (s : St v r)
      → Instantiated k s.world (instantiate k hardlink p s)
  unfolding instantiate dir_modified
  instantiate-Instantiated k true p s = refl
  instantiate-Instantiated k false p s = got_inode k p _ k.get_inode refl

  -- Where a new file is put over a whiteout: all is done, or nothing is changed outside the
  -- working directory, or ovl_get_inode failed behind the rename.
  abbrev pub PlacedAs : Calls → ℕ → Ent → Bool → St v r → Res (Unit {0}) × St v r → Type 0
  PlacedAs k d e dir s (ok _, t) = Stands r d (here s.side) e dir s.world.fs t.world.fs
  PlacedAs k d e dir s (err f, t) =
      (k.get_inode ≡ err f) ⊎ OutsideBut r d (here s.side) s.world.fs t.world.fs

  pub placed-PlacedAs :
      (l : Laws r) (k : Calls) (a : Cattr) (temp : Place) (e : Ent) (s : St v r)
      → New temp.dir e temp s s
      → PlacedAs k temp.dir e (not (is_link a) && is_ifdir a.format) s (placed k temp.dir a temp s)
  placed-PlacedAs l k a temp e s h =
      let dir = not (is_link a) && is_ifdir a.format in
      let d = temp.dir in
      let first = next (prepare_new k a, s) (λ _. put_new d a temp (here s.side)) in
      next_lem (or_clean first (clean_on d temp)) _ (Put d e dir s) (PlacedAs k d e dir s)
        (or_clean_lem first (clean_on d temp) (Put d e dir s) (Put d e dir s)
          (put_new-Put l k a temp e s h) (λ _ t p. p)
          (λ f t p. λ q c. cleaned-Outside l temp t.world q c ∙ p q c))
        (λ _ t p.
          or_clean_lem (instantiate k (is_link a) (here t.side) t) (clean_on d (here t.side))
            (Instantiated k t.world) (PlacedAs k d e dir s)
            (instantiate-Instantiated k (is_link a) (here t.side) t)
            (λ _ u i. subst (λ w. Stands r d (here s.side) e dir s.world.fs w.fs) (sym i) p.1)
            (λ f u i. inl i))
        (λ f t p. inr (λ q c n. p q c))
