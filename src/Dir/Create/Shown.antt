-- ===== src/Dir/Create/Shown.antt =====
-- A new name is shown, and it alone (dir.c: ovl_create_or_link).
use fzz_overlay.Base.{
  ℕ, ◌≡◌, refl, sym, ap, ◌∙◌, Bool, true, false, not, ◌&&◌, Option, some, if◌then◌else◌, inl, inr,
}
use mathlib.Core.Path.{subst}
use fzz_overlay.Vfs.{Res, ok, err, Vfs}
use fzz_overlay.Handle.{enomem}
use fzz_overlay.Dentry.{Node, dentry_is_whiteout, set_impure}
use fzz_overlay.Dir.{Dirs, Laws, Make, when}
use fzz_overlay.Dir.Steps.{next_lem, call_lem, when_lem}
use fzz_overlay.Dir.Made.{Cattr, make_of, St}
use fzz_overlay.Dir.Made.Created.{}
use fzz_overlay.Dir.Remove.{here}
use fzz_overlay.Dir.Create.{
  Calls, is_link, is_ifdir, create_upper, over_in, create_over_whiteout, impure_parent,
  impure_result, create_or_link,
}
use fzz_overlay.Dir.Create.Placed.{whiteout_of}
use fzz_overlay.Dir.Create.Over.{Shown, unchanged, over_in-Shown}
use fzz_overlay.Dir.Create.Upper.{create_upper-Shown}

module _ {v : Vfs} {r : Dirs} where
  -- A step that changes neither entries nor the dentry.
  abbrev Quiet : St v r → Res (Unit {0}) × St v r → Type 0
  Quiet s (x, t) =
      (t.world.fs ≡ s.world.fs) × (here t.side ≡ here s.side) × (t.side.node ≡ s.side.node)

  impure_result-Quiet :
      (s : St v r) (x : Res (Unit {0}) × Node v × Bool) → Quiet s (impure_result x s)
  impure_result-Quiet s (x, p, b) = (refl, refl, refl)

  abbrev new_dir : Cattr → St v r → Bool
  new_dir a s = dentry_is_whiteout s.side.node && (not (is_link a) && is_ifdir a.format)

  chosen :
      (l : Laws r) (k : Calls) (d : ℕ) (a : Cattr) (t : St v r) (b : Bool)
      → k.workdir ≡ some d
      → whiteout_of (make_of a) ≡ false
      → Shown k d
          (make_of a)
          (b && (not (is_link a) && is_ifdir a.format))
          t
          (if not b then create_upper k a t else create_over_whiteout k a t)
  unfolding create_over_whiteout
  chosen l k d a t false h n = create_upper-Shown l k d a t n
  chosen l k d a t true h n =
      subst (λ o. Shown k d (make_of a) (not (is_link a) && is_ifdir a.format) t (over_in o k a t))
        (sym h) (over_in-Shown l k d a t n)

  parent_marked_Shown :
      (k : Calls) (d : ℕ) (o : Option Make) (b : Bool) (s t : St v r) (x : Res (Unit {0}) × St v r)
      → Quiet s (ok tt, t)
      → Shown k d o b t x
      → Shown k d o b s x
  parent_marked_Shown k d o b s t (ok _, u) q h =
      let (m, e, i, made, w, there, y) = h.entry in
      record {
        entry = (m, e, i, made, w, ap (r.at u.world.fs) (sym q.1) ∙ there, y);
        outside = λ z n c. h.outside z n (λ j. c (j ∙ q.1)) ∙ ap (λ f. r.at f z) q.0;
      }
  parent_marked_Shown k d o b s t (err e, u) q (inl h) = inl h
  parent_marked_Shown k d o b s t (err e, u) q (inr h) =
      inr (λ z n c. h z n (λ j. c (j ∙ q.1)) ∙ ap (λ f. r.at f z) q.0)

  -- Where ovl_create_or_link returns 0, the name has a new entry as it was asked for, which is
  -- no whiteout; a directory over a whiteout has the attribute of an opaque one. No other name is
  -- changed outside the working directory, also if it fails, but where ovl_get_inode fails.
  pub create_or_link-Shown :
      (l : Laws r) (k : Calls) (d : ℕ) (a : Cattr) (origin : Bool) (s : St v r)
      → k.workdir ≡ some d
      → whiteout_of (make_of a) ≡ false
      → Shown k d
          (make_of a)
          (dentry_is_whiteout s.side.node && (not (is_link a) && is_ifdir a.format))
          s
          (create_or_link k a origin s)
  unfolding create_or_link
  create_or_link-Shown l k d a origin s h n =
      let Q = Shown k d (make_of a) (new_dir a s) s in
      let stop = unchanged k d (make_of a) (new_dir a s) s in
      call_lem k.copy_up_parent s _ Q
        (λ _ _.
          next_lem (when origin (impure_parent k) s) _ (Quiet s) Q
            (when_lem origin (impure_parent k) s (Quiet s)
              (λ _. impure_result-Quiet s (set_impure k.impure_set s.side.parent s.world.noxattr))
              (λ _. (refl, refl, refl)))
            (λ _ t q.
              call_lem (if k.creds then ok tt else err enomem) t _ Q
                (λ _ _.
                  call_lem (if is_link a then ok tt else k.security) t _ Q
                    (λ _ _. parent_marked_Shown k d (make_of a) (new_dir a s) s t _ q (
                      subst
                        (λ m.
                          Shown k d (make_of a)
                            (dentry_is_whiteout m && (not (is_link a) && is_ifdir a.format)) t
                            (if not (dentry_is_whiteout t.side.node)
                              then create_upper k a t
                              else create_over_whiteout k a t))
                        q.2 (chosen l k d a t (dentry_is_whiteout t.side.node) h n)))
                    (λ e. inr (λ z _ _. ap (λ f. r.at f z) q.0)))
                (λ e. inr (λ z _ _. ap (λ f. r.at f z) q.0)))
            (λ e t q. inr (λ z _ _. ap (λ f. r.at f z) q.0)))
        stop
