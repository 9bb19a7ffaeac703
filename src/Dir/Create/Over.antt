-- ===== src/Dir/Create/Over.antt =====
-- What is shown where something new replaces a whiteout (dir.c: ovl_create_over_whiteout).
use fzz_overlay.Base.{
  ℕ, ◌≡◌, ◌≢◌, ◌⊎◌, refl, sym, ap, ◌∙◌, Bool, true, false, not, ◌&&◌, [], ◌∷◌, Option, some,
  if◌then◌else◌, inl, inr, arith,
}
use mathlib.Core.Path.{subst}
use fzz_overlay.Vfs.{Res, ok, err, Vfs}
use fzz_overlay.Handle.Store.{estale}
use fzz_overlay.Dir.{Dirs, Laws, World, Place, Ent, next, is_whiteout, opaque_xattr, MadeAs, Make}
use fzz_overlay.Dir.Steps.{call_lem}
use fzz_overlay.Dir.Whiteout.Atomic.{Outside, OutsideBut}
use fzz_overlay.Dir.Made.{Cattr, make_of, St, create_temp, lock_rename_workdir}
use fzz_overlay.Dir.Made.Created.{TempMade, create_temp-TempMade, on_world_lem}
use fzz_overlay.Dir.Remove.{here}
use fzz_overlay.Dir.Remove.Cleared.{lock_rename_workdir-differ, stale_if-cases}
use fzz_overlay.Dir.Create.{Calls, is_link, is_ifdir, placed, over_whiteout, over_in, acl_attr}
use fzz_overlay.Dir.Create.Placed.{whiteout_of, made_shown, New, PlacedAs, placed-PlacedAs}

-- The same is made; the permissions may differ.
record SameMake (a b : Cattr) : Type 0 where
  make : make_of b ≡ make_of a
  dir : (not (is_link b) && is_ifdir b.format) ≡ (not (is_link a) && is_ifdir a.format)

acl_attr-SameMake :
    (a : Cattr) (c : Bool) (y : Res ℕ) (b : Cattr)
    → (if c then ok a else acl_attr y a) ≡ ok b
    → SameMake a b
unfolding make_of
acl_attr-SameMake a true y b h =
    let same : a ≡ b = cc in subst (λ z. SameMake a z) same (record { make = refl; dir = refl })
acl_attr-SameMake a false (ok perm) b h =
    let c : Cattr = record a { perm = perm } in
    let same : c ≡ b = cc in subst (λ z. SameMake a z) same (record { make = refl; dir = refl })
acl_attr-SameMake a false (err e) b h = absurd cc

module _ {v : Vfs} {r : Dirs} where
  -- The entry that is new under the name of a dentry.
  pub record NewName (d : ℕ) (o : Option Make) (opaque : Bool) (s t : St v r) : Type 0 where
    pub entry :
        (m : Make) × (e : Ent) × (o ≡ some m)
        × MadeAs m e
        × (is_whiteout (some e) ≡ false)
        × (r.at t.world.fs (here s.side) ≡ some e)
        × (opaque ≡ true → r.xattr t.world.fs e.ino opaque_xattr ≡ some (b'y' ∷ []))
    pub outside : OutsideBut r d (here s.side) s.world.fs t.world.fs

  -- What holds behind a creation.
  abbrev pub Shown : Calls → ℕ → Option Make → Bool → St v r → Res (Unit {0}) × St v r → Type 0
  Shown k d o opaque s (ok _, t) = NewName d o opaque s t
  Shown k d o opaque s (err f, t) =
      (k.get_inode ≡ err f) ⊎ OutsideBut r d (here s.side) s.world.fs t.world.fs

  pub unchanged :
      (k : Calls) (d : ℕ) (o : Option Make) (b : Bool) (s : St v r) (e : ℕ)
      → Shown k d o b s (err e, s)
  unchanged k d o b s e = inr (λ q n m. refl)

  placed_Shown :
      (k : Calls) (d : ℕ) (o : Option Make) (m : Make) (e : Ent) (dir : Bool) (s t : St v r)
      (x : Res (Unit {0}) × St v r)
      → o ≡ some m
      → MadeAs m e
      → is_whiteout (some e) ≡ false
      → here t.side ≡ here s.side
      → Outside r d s.world.fs t.world.fs
      → PlacedAs k d e dir t x
      → Shown k d o dir s x
  placed_Shown k d o m e dir s t (ok _, u) a b w same c p = record {
    entry = (m, e, a, b, w, ap (r.at u.world.fs) (sym same) ∙ p.there, p.opaque);
    outside = λ q n i. p.outside q n (λ z. i (z ∙ same)) ∙ c q n;
  }
  placed_Shown k d o m e dir s t (err f, u) a b w same c (inl i) = inl i
  placed_Shown k d o m e dir s t (err f, u) a b w same c (inr i) =
      inr (λ q n j. i q n (λ z. j (z ∙ same)) ∙ c q n)

  temp_Shown :
      (l : Laws r) (k : Calls) (d : ℕ) (a : Cattr) (s : St v r) (temp : Place) (w : World r)
      → whiteout_of (make_of a) ≡ false
      → (here s.side).dir ≢ d
      → not (is_whiteout (r.at s.world.fs (here s.side))) ≡ false
      → TempMade d a s.world.fs (ok temp, w)
      → Shown k d
          (make_of a)
          (not (is_link a) && is_ifdir a.format)
          s
          (placed k d a temp (record s { world = w }))
  temp_Shown l k d a s temp w ordinary apart over h =
      let dir = not (is_link a) && is_ifdir a.format in
      let t : St v r = record s { world = w } in
      let p = here s.side in
      let (m, o, (e, made, there)) = h.2 in
      let shown = made_shown a m e ordinary o made in
      let white : is_whiteout (r.at s.world.fs p) ≡ true = ground (arith, over) in
      let new : New temp.dir e temp t t = record {
        place = refl;
        apart = λ z. apart (z ∙ h.0);
        entry = there;
        shown = shown;
        over = ap is_whiteout (h.1 p apart) ∙ white;
      } in
      placed_Shown k d (make_of a) m e dir s t (placed k d a temp t) o made shown refl h.1 (
        subst (λ c. PlacedAs k c e dir t (placed k c a temp t)) h.0
          (placed-PlacedAs l k a temp e t new))

  over_whiteout-Shown :
      (l : Laws r) (k : Calls) (d : ℕ) (a : Cattr) (s : St v r)
      → whiteout_of (make_of a) ≡ false
      → Shown k d (make_of a) (not (is_link a) && is_ifdir a.format) s (over_whiteout d k a s)
  over_whiteout-Shown l k d a s ordinary =
      let dir = not (is_link a) && is_ifdir a.format in
      let Q = Shown k d (make_of a) dir s in
      let stop = unchanged k d (make_of a) dir s in
      let p = here s.side in
      call_lem (lock_rename_workdir d s.side.dir k.trapped) s _ Q
        (λ _ locked.
          call_lem (r.lookup_one_len s.world.fs p) s _ Q
            (λ _ _.
              stale_if-cases (not (is_whiteout (r.at s.world.fs p))) s _ Q
                (λ over.
                  on_world_lem s (create_temp d a s.world) (placed k d a) (TempMade d a s.world.fs)
                    Q (create_temp-TempMade l d a s.world)
                    (λ temp w h.
                      temp_Shown l k d a s temp w ordinary (lock_rename_workdir-differ d _ _ locked)
                        over h)
                    (λ e w h. inr (λ q n m. h q n)))
                (stop estale))
            stop)
        stop

  over_attr-Shown :
      (l : Laws r) (k : Calls) (d : ℕ) (a : Cattr) (s : St v r) (x : Res Cattr)
      → whiteout_of (make_of a) ≡ false
      → ((b : Cattr) → x ≡ ok b → SameMake a b)
      → Shown k d
          (make_of a)
          (not (is_link a) && is_ifdir a.format)
          s
          (next (x, s) (λ b. over_whiteout d k b))
  over_attr-Shown l k d a s (err e) n h =
      unchanged k d (make_of a) (not (is_link a) && is_ifdir a.format) s e
  over_attr-Shown l k d a s (ok b) n h =
      let same = h b refl in
      subst (λ z. Shown k d z (not (is_link a) && is_ifdir a.format) s (over_whiteout d k b s))
        same.make
        (subst (λ z. Shown k d (make_of b) z s (over_whiteout d k b s)) same.dir
          (over_whiteout-Shown l k d b s (ap whiteout_of same.make ∙ n)))

  pub over_in-Shown :
      (l : Laws r) (k : Calls) (d : ℕ) (a : Cattr) (s : St v r)
      → whiteout_of (make_of a) ≡ false
      → Shown k d (make_of a) (not (is_link a) && is_ifdir a.format) s (over_in (some d) k a s)
  over_in-Shown l k d a s n =
      over_attr-Shown l k d a s _ n (acl_attr-SameMake a (is_link a) k.acl_create)
