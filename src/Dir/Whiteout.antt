-- ===== src/Dir/Whiteout.antt =====
-- Whiteouts in the place of entries (dir.c: ovl_cleanup, ovl_lookup_temp, ovl_whiteout,
-- ovl_cleanup_and_whiteout; readdir.c: ovl_cleanup_whiteouts).
pub mod Atomic
use fzz_overlay.Base.{
  ℕ, zero, suc, ◌+◌, ◌/◌, ◌%◌, ◌^◌, Bool, true, false, not, ◌&&◌, ◌||◌, List, [], ◌∷◌, none, some,
  ltb, ◌==◌, if◌then◌else◌,
}
use fzz_overlay.Vfs.{Res, ok, err}
use fzz_overlay.Handle.{eio}
use fzz_overlay.Dentry.{is_some}
use fzz_overlay.Dir.{
  Dirs, World, Place, Flag, plain, exchange, d_is_dir, change, call, next, or_clean, when, ◌>>=◌,
  ◌>>◌,
}

-- %x, with 8 digits at most.
abbrev hex_digit : ℕ → ℕ
hex_digit d = if ltb d 10 then b'0' + d else 87 + d

abbrev hex : ℕ → ℕ → List ℕ → List ℕ
hex zero n ds = ds
hex (suc fuel) n ds =
    let rest = hex fuel (n / 16) (hex_digit (n % 16) ∷ ds) in
    if n / 16 == 0 then hex_digit (n % 16) ∷ ds else rest

-- A name that ovl_check_empty_dir has listed.
pub record Cached : Type 0 where
  pub name : List ℕ
  pub is_whiteout : Bool
  pub is_upper : Bool

module _ {r : Dirs} where
  unfoldable pub cleanup : ℕ → Place → World r → Res (Unit {0}) × World r
  cleanup wdir p w =
      if d_is_dir (r.at w.fs p)
      then change (λ s. r.rmdir s wdir p) w
      else change (λ s. r.unlink s wdir p) w

  -- A call whose result is dropped.
  abbrev pub cleaned : ℕ → Place → World r → World r
  cleaned wdir p w = (cleanup wdir p w).1

  abbrev temp_place : ℕ → World r → Place
  temp_place workdir w = record { dir = workdir; name = b'#' ∷ hex 8 ((w.temp_id + 1) % 2 ^ 32) [] }

  abbrev counted : World r → World r
  counted w = record w { temp_id = (w.temp_id + 1) % 2 ^ 32 }

  abbrev unused : Place → Res (Unit {0}) → World r → Res Place × World r
  unused p (err e) w = (err e, w)
  unused p (ok _) w = if is_some (r.at w.fs p) then (err eio, w) else (ok p, w)

  -- ovl_lookup_temp: the name behind the counter, which wraps at 32 bits.
  unfoldable pub lookup_temp : ℕ → World r → Res Place × World r
  lookup_temp workdir w =
      let p = temp_place workdir w in unused p (r.lookup_one_len w.fs p) (counted w)

  -- ovl_whiteout
  unfoldable pub whiteout_in : ℕ → World r → Res Place × World r
  whiteout_in workdir = do
    p ← lookup_temp workdir
    change (λ s. r.do_whiteout s workdir p)
    call (ok p)

  -- The exchange puts what is replaced into the working directory.
  abbrev exchanged : ℕ → Place → Bool → World r → Res (Unit {0}) × World r
  exchanged workdir p true w = (ok tt, cleaned workdir p w)
  exchanged workdir p false w = (ok tt, w)

  abbrev replace : ℕ → Place → Bool → Place → World r → Res (Unit {0}) × World r
  replace workdir p is_dir wh w =
      next
        (or_clean (change (λ s. r.rename s wh p (if is_dir then exchange else plain)) w)
          (cleaned workdir wh))
        (λ _. exchanged workdir wh is_dir)

  unfoldable pub cleanup_and_whiteout : ℕ → Place → World r → Res (Unit {0}) × World r
  cleanup_and_whiteout workdir p w =
      next (whiteout_in workdir w) (λ wh w'. replace workdir p (d_is_dir (r.at w'.fs p)) wh w')

  abbrev cleanup_found : Res (Unit {0}) → ℕ → Place → World r → World r
  cleanup_found (err e) upper p w = w
  cleanup_found (ok _) upper p w = if is_some (r.at w.fs p) then cleaned upper p w else w

  abbrev cleanup_listed : ℕ → Cached → World r → World r
  cleanup_listed upper c w =
      let p : Place = record { dir = upper; name = c.name } in
      if not c.is_whiteout || not c.is_upper
      then w
      else cleanup_found (r.lookup_one_len w.fs p) upper p w

  unfoldable pub cleanup_whiteouts : ℕ → List Cached → World r → World r
  cleanup_whiteouts upper [] w = w
  cleanup_whiteouts upper (c ∷ cs) w = cleanup_whiteouts upper cs (cleanup_listed upper c w)
