-- ===== src/Dir/Steps.antt =====
-- What holds of steps with errors, by what holds of each step.
use fzz_overlay.Base.{ℕ, Bool, true, false, ◌≡◌, refl}
use fzz_overlay.Vfs.{Res, ok, err}
use fzz_overlay.Dir.{next, or_clean, when}

module _ {T A B : Type 0} where
  -- `P` holds of the first step, and `Q` of what follows it, or of its error.
  pub next_lem :
      (m : Res A × T) (f : A → T → Res B × T) (P : Res A × T → Type 0) (Q : Res B × T → Type 0)
      → P m
      → ((a : A) (t : T) → P (ok a, t) → Q (f a t))
      → ((e : ℕ) (t : T) → P (err e, t) → Q (err e, t))
      → Q (next m f)
  next_lem (ok a, t) f P Q p go stop = go a t p
  next_lem (err e, t) f P Q p go stop = stop e t p

module _ {T A : Type 0} where
  pub or_clean_lem :
      (m : Res A × T) (f : T → T) (P Q : Res A × T → Type 0)
      → P m
      → ((a : A) (t : T) → P (ok a, t) → Q (ok a, t))
      → ((e : ℕ) (t : T) → P (err e, t) → Q (err e, f t))
      → Q (or_clean m f)
  or_clean_lem (ok a, t) f P Q p go stop = go a t p
  or_clean_lem (err e, t) f P Q p go stop = stop e t p

module _ {T : Type 0} where
  pub when_lem :
      (c : Bool) (m : T → Res (Unit {0}) × T) (s : T) (Q : Res (Unit {0}) × T → Type 0)
      → (c ≡ true → Q (m s))
      → (c ≡ false → Q (ok tt, s))
      → Q (when c m s)
  when_lem true m s Q go stop = go refl
  when_lem false m s Q go stop = stop refl

module _ {T A B : Type 0} where
  pub call_lem :
      (x : Res A) (s : T) (f : A → T → Res B × T) (Q : Res B × T → Type 0)
      → ((a : A) → x ≡ ok a → Q (f a s))
      → ((e : ℕ) → Q (err e, s))
      → Q (next (x, s) f)
  call_lem (ok a) s f Q go stop = go a refl
  call_lem (err e) s f Q go stop = stop e
