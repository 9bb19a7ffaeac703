-- ===== src/Dir/Create/Upper.antt =====
-- What is shown where something new is made in the upper directory (dir.c: ovl_create_upper).
use fzz_overlay.Base.{
  ℕ, ◌≡◌, refl, sym, ap, ◌∙◌, Bool, Bool-cases, true, false, not, ◌&&◌, inl, inr,
}
use mathlib.Core.Path.{subst}
use fzz_overlay.Vfs.{Res, ok, err, Vfs}
use fzz_overlay.Handle.{eio}
use fzz_overlay.Dentry.{path_type}
use fzz_overlay.Dir.{Dirs, Laws, World, Place, next, d_is_dir}
use fzz_overlay.Dir.Steps.{or_clean_lem, call_lem}
use fzz_overlay.Dir.Made.{Cattr, make_of, St, set_opaque, set_opaque_xerr}
use fzz_overlay.Dir.Made.Created.{
  SamePlaces, Opaqued, set_opaque_xerr-Opaqued, Created, create_real-Created, NewEntry,
}
use fzz_overlay.Dir.Remove.{here, ino_at, clean_on}
use fzz_overlay.Dir.Create.{
  Calls, is_link, opaque_if, made_upper, masked, create_upper, instantiate,
}
use fzz_overlay.Dir.Create.Placed.{whiteout_of, made_shown, Instantiated, instantiate-Instantiated}
use fzz_overlay.Dir.Create.Over.{Shown, unchanged}

masked-SameMake : (k : Calls) (a : Cattr) → make_of (masked k a) ≡ make_of a
unfolding make_of
masked-SameMake k a = elim (Bool-cases (not (is_link a) && not k.is_posixacl)) [
  | inl b ↦ rw b refl
  | inr b ↦ rw b refl
]

module _ {v : Vfs} {r : Dirs} where
  same_entries :
      (i : ℕ) (s : St v r) (x : Res (Unit {0}) × St v r)
      → Opaqued i s x
      → SamePlaces s x.1 × ((q : Place) → r.at x.1.world.fs q ≡ r.at s.world.fs q)
  same_entries i s (ok _, t) h = (h.0, h.1.0)
  same_entries i s (err e, t) h = (h.0, h.1)

  -- The merge of the result of the optional attribute.
  opaque_if_keeps :
      (l : Laws r) (c : Bool) (i : ℕ) (s : St v r)
      → SamePlaces s (opaque_if c i s)
        × ((q : Place) → r.at (opaque_if c i s).world.fs q ≡ r.at s.world.fs q)
  unfolding set_opaque
  opaque_if_keeps l false i s = (record { dir = refl; name = refl; upper_at = refl }, λ q. refl)
  opaque_if_keeps l true i s =
      same_entries i s (set_opaque_xerr i eio s) (set_opaque_xerr-Opaqued l i eio s refl)

  made_upper-Shown :
      (l : Laws r) (k : Calls) (d : ℕ) (a : Cattr) (s : St v r) (w : World r)
      → whiteout_of (make_of a) ≡ false
      → Created a (here s.side) s.world (ok (here s.side), w)
      → Shown k d
          (make_of a)
          false
          s
          (made_upper k (is_link a) (here s.side) (record s { world = w }))
  made_upper-Shown l k d a s w n h =
      let p = here s.side in
      let t : St v r = record s { world = w } in
      let (m, o, (e, made, c)) = h.1 in
      let keep =
        opaque_if_keeps l ((path_type t.side.parent).merge && d_is_dir (r.at w.fs p)) (ino_at p w)
          t in
      let u =
        opaque_if ((path_type t.side.parent).merge && d_is_dir (r.at w.fs p)) (ino_at p w) t in
      or_clean_lem (instantiate k (is_link a) p u) (clean_on s.side.dir p) (Instantiated k u.world)
        (Shown k d (make_of a) false s) (instantiate-Instantiated k (is_link a) p u)
        (λ _ z i. record {
          entry = (
            m,
            e,
            o,
            made,
            made_shown a m e n o made,
            ap (λ y. r.at y.fs p) i ∙ keep.1 p ∙ c.here,
            λ b. absurd cc,
          );
          outside = λ q _ b. ap (λ y. r.at y.fs q) i ∙ keep.1 q ∙ c.others q b;
        })
        (λ f z i. inl i)

  made_here_Shown :
      (l : Laws r) (k : Calls) (d : ℕ) (a b : Cattr) (s : St v r) (x : Res Place × World r)
      → make_of b ≡ make_of a
      → whiteout_of (make_of a) ≡ false
      → Created b (here s.side) s.world x
      → Shown k d
          (make_of a)
          false
          s
          (next (x.0, record s { world = x.1 }) (made_upper k (is_link a)))
  made_here_Shown l k d a b s (ok p, w) m n h =
      subst
        (λ z. Shown k d (make_of a) false s (made_upper k (is_link a) z (record s { world = w })))
        (sym h.0)
        (made_upper-Shown l k d a s w n
          (refl, subst (λ z. NewEntry z (here s.side) s.world w) m h.1))
  made_here_Shown l k d a b s (err e, w) m n h = inr (λ q _ c. h q c)

  pub create_upper-Shown :
      (l : Laws r) (k : Calls) (d : ℕ) (a : Cattr) (s : St v r)
      → whiteout_of (make_of a) ≡ false
      → Shown k d (make_of a) false s (create_upper k a s)
  unfolding create_upper
  create_upper-Shown l k d a s n =
      call_lem (r.lookup_one_len s.world.fs (here s.side)) s _ (Shown k d (make_of a) false s)
        (λ _ _.
          made_here_Shown l k d a (masked k a) s _ (masked-SameMake k a) n
            (create_real-Created l (here s.side) (masked k a) s.world))
        (unchanged k d (make_of a) false s)
