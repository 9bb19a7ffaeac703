-- ===== src/Dir/Remove/Cleared.antt =====
-- What the replacement of a directory by an empty opaque one changes (dir.c: ovl_clear_empty).
use fzz_overlay.Base.{
  ℕ, ◌≡◌, ◌≢◌, refl, sym, ap, ◌∙◌, Bool, true, false, not, ◌||◌, List, some, ◌==◌, arith,
}
use mathlib.Core.Path.{subst}
use fzz_overlay.Vfs.{Res, ok, err, Vfs}
use fzz_overlay.Handle.{eio}
use fzz_overlay.Handle.Store.{estale}
use fzz_overlay.Dir.{Dirs, Laws, World, Place, change, next, or_clean, exchange}
use fzz_overlay.Dir.Steps.{next_lem, or_clean_lem, call_lem}
use fzz_overlay.Dir.Whiteout.{Cached, cleanup_whiteouts}
use fzz_overlay.Dir.Whiteout.Atomic.{Outside, elsewhere, cleaned-Outside, cleanup_whiteouts-Outside}
use fzz_overlay.Dir.Made.{
  St, on_world, set_opaque, set_opaque_xerr, create_temp, lock_rename_workdir,
}
use fzz_overlay.Dir.Made.Created.{
  SamePlaces, Opaqued, set_opaque_xerr-Opaqued, TempMade, create_temp-TempMade, on_world_lem,
}
use fzz_overlay.Dir.Remove.{
  Calls, ino_of, ino_at, fill_opaque, swapped, cleared, clear_empty, stale_if, clear_steps,
  clear_in, dir_attr, is_ifdir, clean_on,
}

-- The working directory and the upper one are not the same where they are locked.
pub lock_rename_workdir-differ :
    (d u : ℕ) (b : Bool) {x : Unit {0}} → lock_rename_workdir d u b ≡ ok x → u ≢ d
unfolding lock_rename_workdir
lock_rename_workdir-differ d u b h e = ground (arith, h, e)

right_place : (b : Bool) (i j d : ℕ) → (not b || not (i == j)) ≡ false → j ≢ d → i ≢ d
right_place b i j d h n e = ground (arith, h, n, e)

module _ {v : Vfs} {r : Dirs} where
  abbrev pub Untouched : ℕ → St v r → St v r → Type 0
  Untouched d s t = SamePlaces s t × Outside r d s.world.fs t.world.fs

  -- Nothing is changed but in the working directory, in the directory that is cleared, and where
  -- that one stands.
  abbrev pub Around : ℕ → St v r → r.Fs → Type 0
  Around d s t =
      (q : Place)
      → q.dir ≢ d
      → q ≢ s.side.upper_at
      → q.dir ≢ ino_at s.side.upper_at s.world
      → r.at t q ≡ r.at s.world.fs q

  abbrev pub Cleared : {A : Type 0} → ℕ → St v r → Res A × St v r → Type 0
  Cleared d s (x, t) = SamePlaces s t × Around d s t.world.fs

  pub same_again : (s : St v r) → SamePlaces s s
  same_again s = record { dir = refl; name = refl; upper_at = refl }

  pub same_places : (s : St v r) (t : World r) → SamePlaces s (record s { world = t })
  same_places s t = record { dir = refl; name = refl; upper_at = refl }

  pub same_trans : (s t u : St v r) → SamePlaces s t → SamePlaces t u → SamePlaces s u
  same_trans s t u a b = record {
    dir = b.dir ∙ a.dir;
    name = b.name ∙ a.name;
    upper_at = b.upper_at ∙ a.upper_at;
  }

  -- Behind the exchange.
  abbrev Swapped : ℕ → Place → St v r → Res (Unit {0}) × St v r → Type 0
  Swapped d temp s (ok _, t) =
      SamePlaces s t
      × ((q : Place) → q.dir ≢ d → q ≢ s.side.upper_at → r.at t.world.fs q ≡ r.at s.world.fs q)
      × (ino_at temp t.world ≡ ino_at s.side.upper_at s.world)
  Swapped d temp s (err e, t) = Untouched d s t

  rename_swaps :
      (l : Laws r) (temp : Place) (s t : St v r) (x : Res r.Fs)
      → s.side.upper_at.dir ≢ temp.dir
      → Untouched temp.dir s t
      → r.rename t.world.fs temp s.side.upper_at exchange ≡ x
      → Swapped temp.dir temp s
          (on_world (change (λ u. r.rename u temp s.side.upper_at exchange)) t)
  rename_swaps l temp s t (err e) n h y =
      rw y (record { dir = h.0.dir; name = h.0.name; upper_at = h.0.upper_at }, h.1)
  rename_swaps l temp s t (ok u) n h y =
      let (e, f, a, b, m) = l.exchange_lem t.world.fs temp s.side.upper_at u y in
      let was : r.at s.world.fs s.side.upper_at ≡ some f = sym (h.1 s.side.upper_at n) ∙ b in
      let now : r.at u temp ≡ some f = m.old in
      rw y (
        record { dir = h.0.dir; name = h.0.name; upper_at = h.0.upper_at },
        λ q c k. m.others q (elsewhere temp.dir temp q refl c) k ∙ h.1 q c,
        ap ino_of (now ∙ sym was),
      )

  fill_opaque-Swapped :
      (l : Laws r) (k : Calls) (temp : Place) (s : St v r)
      → s.side.upper_at.dir ≢ temp.dir
      → Swapped temp.dir temp s (fill_opaque k temp s.side.upper_at s)
  unfolding set_opaque
  fill_opaque-Swapped l k temp s n =
      let there = ino_at temp s.world in
      call_lem k.copy_xattr s _ (Swapped temp.dir temp s)
        (λ _ _.
          next_lem (set_opaque_xerr there eio s) _ (Opaqued there s) (Swapped temp.dir temp s)
            (set_opaque_xerr-Opaqued l there eio s refl)
            (λ _ t h.
              call_lem k.set_attr t _ (Swapped temp.dir temp s)
                (λ _ _. rename_swaps l temp s t _ n (h.0, λ q _. h.1.0 q) refl)
                (λ e. (h.0, λ q _. h.1.0 q)))
            (λ e t h. (h.0, λ q _. h.1 q)))
        (λ e. (same_again s, λ q _. refl))

  -- The directory with the whiteouts is removed.
  swapped_around :
      (l : Laws r) (temp : Place) (list : List Cached) (s t : St v r) (x : ℕ)
      → Swapped temp.dir temp s (ok tt, t)
      → Cleared temp.dir s (ok x, swapped temp.dir temp list t)
  swapped_around l temp list s t x h =
      let i = ino_at temp t.world in
      let w = cleanup_whiteouts i list t.world in
      (
        record { dir = h.0.dir; name = h.0.name; upper_at = h.0.upper_at },
        λ q a b c.
            cleaned-Outside l temp w q a
            ∙ cleanup_whiteouts-Outside l i list t.world q (λ z. c (z ∙ h.2))
            ∙ h.1 q a b,
      )

  cleared_lem :
      (l : Laws r) (k : Calls) (list : List Cached) (temp : Place) (s : St v r)
      → s.side.upper_at.dir ≢ temp.dir
      → Cleared temp.dir s (cleared k temp.dir list temp s)
  cleared_lem l k list temp s n =
      next_lem (or_clean (fill_opaque k temp s.side.upper_at s) (clean_on temp.dir temp)) _
        (Swapped temp.dir temp s) (Cleared temp.dir s)
        (or_clean_lem (fill_opaque k temp s.side.upper_at s) (clean_on temp.dir temp)
          (Swapped temp.dir temp s) (Swapped temp.dir temp s) (fill_opaque-Swapped l k temp s n)
          (λ _ t h. h)
          (λ e t h. (
            record { dir = h.0.dir; name = h.0.name; upper_at = h.0.upper_at },
            λ q a. cleaned-Outside l temp t.world q a ∙ h.1 q a,
          )))
        (λ _ t h. swapped_around l temp list s t (ino_at s.side.upper_at t.world) h)
        (λ e t h. (h.0, λ q a b c. h.1 q a))

  pub stale_if-cases :
      {B : Type 0} (c : Bool) (s : St v r) (f : Unit {0} → St v r → Res B × St v r)
      (Q : Res B × St v r → Type 0)
      → (c ≡ false → Q (f tt s))
      → Q (err estale, s)
      → Q (next (stale_if c s) f)
  stale_if-cases true s f Q go stop = stop
  stale_if-cases false s f Q go stop = go refl

  temp_Cleared :
      (l : Laws r) (k : Calls) (d : ℕ) (list : List Cached) (s : St v r) (p : Place) (t : World r)
      → s.side.upper_at.dir ≢ d
      → TempMade d dir_attr s.world.fs (ok p, t)
      → Cleared d s (cleared k d list p (record s { world = t }))
  temp_Cleared l k d list s p t n h =
      let u : St v r = record s { world = t } in
      let c =
        subst (λ z. Cleared z u (cleared k z list p u)) h.0
          (cleared_lem l k list p u (λ e. n (e ∙ h.0))) in
      (
        record { dir = c.0.dir; name = c.0.name; upper_at = c.0.upper_at },
        λ q a b i. c.1 q a b (λ e. i (e ∙ ap ino_of (h.1 s.side.upper_at n))) ∙ h.1 q a,
      )

  clear_steps-Cleared :
      (l : Laws r) (k : Calls) (d : ℕ) (list : List Cached) (s : St v r)
      → Cleared d s (clear_steps d k list s.side s)
  clear_steps-Cleared l k d list s =
      let stop : (e : ℕ) → Cleared {A = ℕ} d s (err e, s) = λ e. (same_again s, λ p a b c. refl) in
      call_lem (lock_rename_workdir d s.side.dir k.trapped) s _ (Cleared d s)
        (λ _ locked.
          call_lem k.getattr s _ (Cleared d s)
            (λ format _.
              stale_if-cases (not (is_ifdir format) || not (s.side.upper_at.dir == s.side.dir)) s _
                (Cleared d s)
                (λ there.
                  on_world_lem s (create_temp d dir_attr s.world) (cleared k d list)
                    (TempMade d dir_attr s.world.fs) (Cleared d s)
                    (create_temp-TempMade l d dir_attr s.world)
                    (λ p t h.
                      temp_Cleared l k d list s p t
                        (right_place _ _ _ d there (lock_rename_workdir-differ d _ _ locked)) h)
                    (λ e t h. (same_places s t, λ q a b i. h q a)))
                (stop estale))
            stop)
        stop

  -- Whatever ovl_clear_empty returns, it has changed only the working directory, the directory
  -- that it clears, and the entry of that one.
  pub clear_empty-Cleared :
      (l : Laws r) (k : Calls) (d : ℕ) (list : List Cached) (s : St v r)
      → k.workdir ≡ some d
      → Cleared d s (clear_empty k list s)
  unfolding clear_empty
  clear_empty-Cleared l k d list s h =
      subst (λ o. Cleared d s (clear_in o k list s)) (sym h) (clear_steps-Cleared l k d list s)
