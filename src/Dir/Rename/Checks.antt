-- ===== src/Dir/Rename/Checks.antt =====
-- What is known where the checks before a rename are passed (dir.c: ovl_rename).
use fzz_overlay.Base.{
  ℕ, ◌≡◌, refl, Bool, true, false, not, ◌&&◌, ◌||◌, Option, none, some, if◌then◌else◌, arith,
}
use fzz_overlay.Vfs.{Res, ok, err, Vfs}
use fzz_overlay.Handle.Store.{estale}
use fzz_overlay.Dentry.{is_some, dentry_is_whiteout, dentry_upper}
use fzz_overlay.Dir.{Dirs, Ent, next, is_whiteout, same_inode}
use fzz_overlay.Dir.Steps.{call_lem}
use fzz_overlay.Dir.Made.{Two}
use fzz_overlay.Dir.Made.Created.{}
use fzz_overlay.Dir.Remove.{here, matches, matches_upper}
use fzz_overlay.Dir.Redirect.{}
use fzz_overlay.Dir.Rename.{Calls, at_old, at_new, new_moved, trapped, check_places, stale_if}

or_right : (a b : Bool) → (a || b) ≡ false → b ≡ false
or_right true b h = cc
or_right false b h = h

matched : (u : Option ℕ) (o : Option Ent) → not (matches u o) ≡ false → (e : Ent) × (o ≡ some e)
matched u (some e) h = (e, refl)
matched none none h = absurd cc
matched (some u) none h = absurd cc

covers :
    (positive opaque has_upper moved there white : Bool)
    → (if positive && has_upper then moved else there && (not opaque || not white)) ≡ false
    → (not positive && opaque) ≡ true
    → there ≡ true
    → white ≡ true
covers true opaque u m i w h n j = cc
covers false false u m i w h n j = cc
covers false true u m true w h n j = ground (arith, h)
covers false true u m false w h n j = cc

module _ {v : Vfs} {r : Dirs} where
  stale_cases :
      {B : Type 0} (c : Bool) (s : Two v r) (f : Unit {0} → Two v r → Res B × Two v r)
      (Q : Res B × Two v r → Type 0)
      → (c ≡ false → Q (f tt s))
      → Q (err estale, s)
      → Q (next (stale_if c s) f)
  stale_cases true s f Q go stop = stop
  stale_cases false s f Q go stop = go refl

  -- What is known where the checks are passed; they change nothing.
  pub record Checked (s : Two v r) : Type 0 where
    pub old : (e : Ent) × (at_old s ≡ some e)
    pub apart : same_inode (at_old s) (at_new s) ≡ false
    pub covered :
        dentry_is_whiteout s.new.node ≡ true
        → is_some (at_new s) ≡ true
        → is_whiteout (at_new s) ≡ true

  abbrev pub AllChecked : Two v r → Res (Unit {0}) × Two v r → Type 0
  AllChecked s (ok _, t) = (t ≡ s) × Checked s
  AllChecked s (err e, t) = t ≡ s

  checked_last :
      (k : Calls) (s : Two v r) (b : Bool)
      → trapped k s ≡ b
      → (e : Ent) × (at_old s ≡ some e)
      → ((not s.new.node.positive && s.new.node.opaque) ≡ true
          → is_some (at_new s) ≡ true
          → is_whiteout (at_new s) ≡ true)
      → AllChecked s (stale_if b s)
  unfolding dentry_is_whiteout
  checked_last k s true h old covered = refl
  checked_last k s false h old covered =
      (refl, record { old = old; apart = or_right _ _ h; covered = covered })

  pub check_places-AllChecked :
      (k : Calls) (opaque : Option ℕ) (s : Two v r) → AllChecked s (check_places k opaque s)
  unfolding check_places matches_upper dentry_is_whiteout
  check_places-AllChecked k opaque s =
      let Q = AllChecked s in
      call_lem (r.lookup_one_len s.world.fs (here s.old)) s _ Q
        (λ _ _.
          stale_cases (not (matches_upper s.old (at_old s))) s _ Q
            (λ old.
              call_lem (r.lookup_one_len s.world.fs (here s.new)) s _ Q
                (λ _ _.
                  stale_cases (new_moved opaque s) s _ Q
                    (λ new.
                      checked_last k s (trapped k s) refl
                        (matched (dentry_upper s.old.node) (at_old s) old)
                        (covers s.new.node.positive s.new.node.opaque _ _ _ _ new))
                    refl)
                (λ e. refl))
            refl)
        (λ e. refl)
