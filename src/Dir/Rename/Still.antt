-- ===== src/Dir/Rename/Still.antt =====
-- What is done to the directories before a rename changes no entry (dir.c: ovl_rename,
-- ovl_set_redirect).
use fzz_overlay.Base.{ℕ, ◌≡◌, refl, ap, ◌∙◌, Bool, Bool-cases, not, ◌&&◌, List, inl, inr}
use fzz_overlay.Vfs.{Res, ok, err, Vfs}
use fzz_overlay.Dentry.{Node, is_dir, path_type}
use fzz_overlay.Dir.{Dirs, Laws, World, Place, when, redirect_xattr}
use fzz_overlay.Dir.Steps.{next_lem, when_lem}
use fzz_overlay.Dir.Made.{St, Two, old_of, new_of}
use fzz_overlay.Dir.Made.Created.{
  Attributed, check_set-Attributed, Opaqued, set_opaque_xerr-Opaqued,
}
use fzz_overlay.Dir.Remove.{here, ino_at}
use fzz_overlay.Dir.Redirect.{
  Step, exdev, type_merge_or_lower, set_redirect, store_redirect, remember, suffices,
  need_absolute_redirect,
}
use fzz_overlay.Dir.Rename.{Calls, mark_moved, mark_both, mark_old, mark_new}

module _ {v : Vfs} {r : Dirs} where
  -- No entry is changed, and the dentries keep their names.
  abbrev pub Still : {A : Type 0} → Two v r → Res A × Two v r → Type 0
  Still s (x, t) =
      ((q : Place) → r.at t.world.fs q ≡ r.at s.world.fs q)
      × (here t.old ≡ here s.old)
      × (here t.new ≡ here s.new)

  abbrev StillOne : St v r → Res (Unit {0}) × St v r → Type 0
  StillOne s (x, t) =
      ((q : Place) → r.at t.world.fs q ≡ r.at s.world.fs q) × (here t.side ≡ here s.side)

  remembered :
      (redirect : List ℕ) (s : St v r) (i : ℕ) (x : Res (Unit {0}) × World r)
      → Attributed i redirect_xattr redirect s.world.fs x
      → StillOne s (remember redirect (x.0, record s { world = x.1 }))
  remembered redirect s i (ok _, w) h = (h.0, refl)
  remembered redirect s i (err e, w) h = (h, refl)

  stored : (l : Laws r) (i : ℕ) (x : Res (List ℕ)) (s : St v r) → StillOne s (store_redirect i x s)
  stored l i (err e) s = (λ q. refl, refl)
  stored l i (ok redirect) s =
      remembered redirect s i _
        (check_set-Attributed l i redirect_xattr redirect exdev s.world refl)

  set_redirect-StillOne :
      (l : Laws r) (max : ℕ) (b : Bool) (path : List Step) (samedir : Bool) (i : ℕ) (s : St v r)
      → StillOne s (set_redirect max b path samedir i s)
  unfolding set_redirect
  set_redirect-StillOne l max b path samedir i s =
      let absolute = need_absolute_redirect samedir s.side.node in
      elim (Bool-cases (suffices absolute s.side.redirect)) [
        | inl h ↦ rw h (λ q. refl, refl)
        | inr h ↦ rw h (stored l i _ s)
      ]

  opaque_still : (i : ℕ) (s : St v r) (x : Res (Unit {0}) × St v r) → Opaqued i s x → StillOne s x
  opaque_still i s (ok _, t) h = (
    h.1.0,
    ap (λ d. record { dir = d; name = t.side.name }) h.0.dir
        ∙ ap (λ n. record { dir = s.side.dir; name = n }) h.0.name,
  )
  opaque_still i s (err e, t) h = (
    h.1,
    ap (λ d. record { dir = d; name = t.side.name }) h.0.dir
        ∙ ap (λ n. record { dir = s.side.dir; name = n }) h.0.name,
  )

  mark_moved-StillOne :
      (l : Laws r) (max : ℕ) (b : Bool) (path : List Step) (samedir : Bool) (into : Node v) (i : ℕ)
      (was : Bool) (s : St v r)
      → StillOne s (mark_moved max b path samedir into i was s)
  unfolding mark_moved
  mark_moved-StillOne l max b path samedir into i was s =
      elim (Bool-cases (type_merge_or_lower s.side.node)) [
        | inl h ↦ rw h (set_redirect-StillOne l max b path samedir i s)
        | inr h ↦ elim (Bool-cases (is_dir s.side.node.mode && not was && (path_type into).merge)) [
          | inl g ↦ rw (h, g) (opaque_still i s _ (set_opaque_xerr-Opaqued l i exdev s refl))
          | inr g ↦ rw (h, g) (λ q. refl, refl)
        ]
      ]

  pub mark_both-Still :
      (l : Laws r) (k : Calls) (exchanges samedir : Bool) (s : Two v r)
      → Still s (mark_both k exchanges samedir s)
  unfolding mark_both
  mark_both-Still l k exchanges samedir s =
      next_lem (mark_old k samedir s) (λ _. when exchanges (mark_new k samedir s)) (Still s)
        (Still s)
        (let h =
            mark_moved-StillOne l k.redirect_max k.old_allocated k.old_path samedir s.new.parent
              (ino_at (here s.old) s.world) s.old.node.opaque (old_of s) in
          (h.0, h.1, refl))
        (λ _ t h.
          when_lem exchanges (mark_new k samedir s) t (Still s)
            (λ _.
              let g =
                mark_moved-StillOne l k.redirect_max k.new_allocated k.new_path samedir s.old.parent
                  (ino_at (here s.new) s.world) s.new.node.opaque (new_of t) in
              (λ q. g.0 q ∙ h.0 q, h.1, g.1 ∙ h.2))
            (λ _. h))
        (λ e t h. h)
