-- ===== src/Dir/Remove/Gone.antt =====
-- A name that is removed is gone from the merged directory (dir.c: ovl_remove_and_whiteout,
-- ovl_remove_upper, ovl_do_remove).
use fzz_overlay.Base.{
  ℕ, ◌≡◌, ◌≢◌, refl, sym, ap, ◌∙◌, Bool, true, false, List, [], ◌∷◌, Option, none, some,
  if◌then◌else◌,
}
use mathlib.Core.Path.{subst}
use fzz_overlay.Vfs.{Res, ok, err, Vfs}
use fzz_overlay.Handle.Store.{estale}
use fzz_overlay.Dir.{Dirs, Laws, World, Place, Ent, Changes, change, is_whiteout}
use fzz_overlay.Dir.Steps.{next_lem, call_lem}
use fzz_overlay.Dir.Whiteout.{Cached}
use fzz_overlay.Dir.Whiteout.Atomic.{OutsideBut, Replaced, cleanup_and_whiteout-Replaced}
use fzz_overlay.Dir.Made.{St, on_world, lock_rename_workdir, dir_modified}
use fzz_overlay.Dir.Made.Created.{SamePlaces}
use fzz_overlay.Dir.Remove.{
  Calls, here, ino_at, clear_empty, opaque_in, replace_upper, remove_in, remove_and_whiteout,
  whiteout_result, moved_on, take_away, remove_result, remove_found, remove_upper, removed,
  unlinked, listed, do_remove,
}
use fzz_overlay.Dir.Remove.Cleared.{
  Cleared, clear_empty-Cleared, lock_rename_workdir-differ, stale_if-cases, same_again,
}

-- The merged directory's entry, from the upper one and what the lower layers give.
abbrev pub view : Option Ent → Option Ent → Option Ent
view none low = low
view (some e) low = if is_whiteout (some e) then none else some e

pub view-is_whiteout : (o low : Option Ent) → is_whiteout o ≡ true → view o low ≡ none
view-is_whiteout none low h = absurd cc
view-is_whiteout (some e) low h = rw h refl

module _ {v : Vfs} {r : Dirs} where
  -- The name is gone if there is no error, with its dentry, and no other name is changed but in
  -- the working directory.
  abbrev pub Gone : ℕ → Option Ent → St v r → Res (Unit {0}) × St v r → Type 0
  Gone d low s (ok _, t) =
      (view (r.at t.world.fs (here s.side)) low ≡ none)
      × (t.side.hashed ≡ false)
      × OutsideBut r d (here s.side) s.world.fs t.world.fs
  Gone d low s (err e, t) = OutsideBut r d (here s.side) s.world.fs t.world.fs

  -- The same, but for a directory that is cleared before.
  abbrev pub Removed : ℕ → Option Ent → St v r → Res (Unit {0}) × St v r → Type 0
  Removed d low s (x, t) =
      (x ≡ ok tt → (view (r.at t.world.fs (here s.side)) low ≡ none) × (t.side.hashed ≡ false))
      × ((q : Place)
          → q.dir ≢ d
          → q ≢ here s.side
          → q ≢ s.side.upper_at
          → q.dir ≢ ino_at s.side.upper_at s.world
          → r.at t.world.fs q ≡ r.at s.world.fs q)

  unchanged : (d : ℕ) (low : Option Ent) (s : St v r) (e : ℕ) → Gone d low s (err e, s)
  unchanged d low s e q a b = refl

  whiteout_Gone :
      (d : ℕ) (low : Option Ent) (s : St v r) (x : Res (Unit {0}) × World r)
      → (here s.side).dir ≢ d
      → Replaced d (here s.side) s.world.fs x
      → Gone d low s (whiteout_result (x.0, record s { world = x.1 }))
  unfolding dir_modified
  whiteout_Gone d low s (ok _, t) n h = (view-is_whiteout _ low h.0, refl, h.1)
  whiteout_Gone d low s (err e, t) n h = λ q a b. h q a

  replace_upper-Gone :
      (l : Laws r) (k : Calls) (d : ℕ) (opaque : Option ℕ) (low : Option Ent) (s : St v r)
      → Gone d low s (replace_upper k d opaque s)
  replace_upper-Gone l k d opaque low s =
      let stop = unchanged d low s in
      call_lem (lock_rename_workdir d s.side.dir k.trapped) s _ (Gone d low s)
        (λ _ locked.
          let apart = lock_rename_workdir-differ d _ _ locked in
          call_lem (r.lookup_one_len s.world.fs (here s.side)) s _ (Gone d low s)
            (λ _ _.
              stale_if-cases (moved_on true opaque s.side (r.at s.world.fs (here s.side))) s _
                (Gone d low s)
                (λ _.
                  whiteout_Gone d low s _ apart
                    (cleanup_and_whiteout-Replaced l d (here s.side) s.world apart))
                (stop estale))
            stop)
        stop

  taken :
      (d : ℕ) (low : Option Ent) (s : St v r) (x : Res r.Fs) (f : r.Fs → Res r.Fs)
      → low ≡ none
      → f s.world.fs ≡ x
      → ((t : r.Fs) → f s.world.fs ≡ ok t → Changes r s.world.fs (here s.side) none t)
      → Gone d low s (remove_result (on_world (change f) s))
  unfolding dir_modified
  taken d low s (ok t) f n h c =
      let e = c t h in rw h (ap (λ o. view o low) e.here ∙ n, refl, λ q a b. e.others q b)
  taken d low s (err e) f n h c = rw h (λ q a b. refl)

  take_away-Gone :
      (l : Laws r) (dir : Bool) (d : ℕ) (low : Option Ent) (s : St v r)
      → low ≡ none
      → Gone d low s (take_away dir s)
  take_away-Gone l true d low s n =
      taken d low s _ (λ t. r.rmdir t s.side.dir (here s.side)) n refl
        (l.rmdir_lem s.world.fs (here s.side))
  take_away-Gone l false d low s n =
      taken d low s _ (λ t. r.unlink t s.side.dir (here s.side)) n refl
        (l.unlink_lem s.world.fs (here s.side))

  remove_found-Gone :
      (l : Laws r) (dir : Bool) (d : ℕ) (opaque : Option ℕ) (low : Option Ent) (s : St v r)
      → low ≡ none
      → Gone d low s (remove_found dir opaque s)
  remove_found-Gone l dir d opaque low s n =
      call_lem (r.lookup_one_len s.world.fs (here s.side)) s _ (Gone d low s)
        (λ _ _.
          stale_if-cases (moved_on false opaque s.side (r.at s.world.fs (here s.side))) s _
            (Gone d low s) (λ _. take_away-Gone l dir d low s n) (unchanged d low s estale))
        (unchanged d low s)

  opaque_in-Cleared :
      (l : Laws r) (k : Calls) (d : ℕ) (list : List Cached) (s : St v r)
      → k.workdir ≡ some d
      → Cleared d s (opaque_in k list s)
  opaque_in-Cleared l k d [] s h = (same_again s, λ q a b c. refl)
  opaque_in-Cleared l k d (c ∷ cs) s h =
      next_lem (clear_empty k (c ∷ cs) s) _ (Cleared d s) (Cleared d s)
        (clear_empty-Cleared l k d (c ∷ cs) s h) (λ _ t h. h) (λ e t h. h)

  same_here : (s t : St v r) → SamePlaces s t → here t.side ≡ here s.side
  same_here s t p =
      ap (λ d. record { dir = d; name = t.side.name }) p.dir
      ∙ ap (λ n. record { dir = s.side.dir; name = n }) p.name

  behind_clearing :
      (d : ℕ) (low : Option Ent) (s t : St v r) (x : Res (Unit {0}) × St v r)
      → SamePlaces s t
      → Cleared {A = Unit {0}} d s (ok tt, t)
      → Gone d low t x
      → Removed d low s x
  behind_clearing d low s t (ok _, u) p c g =
      let same = same_here s t p in
      (
        λ _. (ap (λ z. view (r.at u.world.fs z) low) (sym same) ∙ g.0, g.1),
        λ q a b e i. g.2 q a (λ z. b (z ∙ same)) ∙ c.1 q a e i,
      )
  behind_clearing d low s t (err f, u) p c g =
      let same = same_here s t p in
      (λ z. absurd cc, λ q a b e i. g q a (λ z. b (z ∙ same)) ∙ c.1 q a e i)

  remove_in-Removed :
      (l : Laws r) (k : Calls) (d : ℕ) (list : List Cached) (low : Option Ent) (s : St v r)
      → k.workdir ≡ some d
      → Removed d low s (remove_in (some d) k list s)
  remove_in-Removed l k d list low s h =
      next_lem (opaque_in k list s) (replace_upper k d) (Cleared d s) (Removed d low s)
        (opaque_in-Cleared l k d list s h)
        (λ o t c. behind_clearing d low s t _ c.0 c (replace_upper-Gone l k d o low t))
        (λ e t c. (λ z. absurd cc, λ q a b i. c.1 q a i))

  remove_upper-Removed :
      (l : Laws r) (k : Calls) (dir : Bool) (d : ℕ) (list : List Cached) (low : Option Ent)
      (s : St v r)
      → k.workdir ≡ some d
      → low ≡ none
      → Removed d low s (remove_upper k dir list s)
  unfolding remove_upper
  remove_upper-Removed l k dir d list low s h n =
      next_lem (opaque_in k list s) (remove_found dir) (Cleared d s) (Removed d low s)
        (opaque_in-Cleared l k d list s h)
        (λ o t c. behind_clearing d low s t _ c.0 c (remove_found-Gone l dir d o low t n))
        (λ e t c. (λ z. absurd cc, λ q a b i. c.1 q a i))

  unlinked-Removed :
      (dir : Bool) (d : ℕ) (low : Option Ent) (s : St v r) (x : Res (Unit {0}) × St v r)
      → Removed d low s x
      → Removed d low s (unlinked dir x)
  unlinked-Removed dir d low s (ok _, t) h = h
  unlinked-Removed dir d low s (err e, t) h = h

  removed-Removed :
      (l : Laws r) (k : Calls) (positive dir : Bool) (d : ℕ) (list : List Cached) (low : Option Ent)
      (s : St v r)
      → k.workdir ≡ some d
      → (positive ≡ false → low ≡ none)
      → Removed d low s (removed k positive dir list s)
  unfolding remove_and_whiteout
  removed-Removed l k true dir d list low s h n = unlinked-Removed dir d low s _ (
      subst (λ o. Removed d low s (remove_in o k list s)) (sym h)
        (remove_in-Removed l k d list low s h))
  removed-Removed l k false dir d list low s h n =
      unlinked-Removed dir d low s _ (remove_upper-Removed l k dir d list low s h (n refl))

  -- ovl_do_remove, where the lower layers give nothing if ovl_lower_positive is false: where it
  -- returns 0, the merged directory does not have the name any more and the dentry is unhashed.
  -- In any case, no other name is changed outside the working directory, but for the entries of
  -- the upper directory that is removed.
  pub do_remove-Removed :
      (l : Laws r) (k : Calls) (positive dir : Bool) (d : ℕ) (low : Option Ent) (s : St v r)
      → k.workdir ≡ some d
      → (positive ≡ false → low ≡ none)
      → Removed d low s (do_remove k positive dir s)
  unfolding do_remove
  do_remove-Removed l k positive dir d low s h n =
      let stop : (e : ℕ) → Removed d low s (err e, s) = λ e. (λ z. absurd cc, λ q a b c i. refl) in
      call_lem (listed k positive dir s.side.node) s _ (Removed d low s)
        (λ list _.
          call_lem k.want_write s _ (Removed d low s)
            (λ _ _.
              call_lem k.copy_up_parent s _ (Removed d low s)
                (λ _ _.
                  call_lem k.nlink_start s _ (Removed d low s)
                    (λ _ _. removed-Removed l k positive dir d list low s h n) stop)
                stop)
            stop)
        stop
