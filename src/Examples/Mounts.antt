-- ===== src/Examples/Mounts.antt =====
-- Options and paths of a mount.
use fzz_overlay.Base.{
  arith, ◌<◌, ◌≡◌, refl, true, false, List, [], ◌∷◌, ◌++◌, ℕ, none, some, if◌then◌else◌,
}
use fzz_overlay.Vfs.{Res, ok}
use fzz_overlay.Mount.Inuse.{
  Claims, Step, Reach, trylock_by, inuse_trylock, inuse_unlock, inuse_exclusive,
}
use fzz_overlay.Mount.Saving.{save_task, save_task_gap}
use fzz_overlay.Handle.Store.{bytes_eq}
use fzz_overlay.Mount.Config.{
  Config, Parser, metacopy_opt, unknown_opt, xino_off, comma, mode_off, next_opt, parse_opt,
  parse_loop, take_option, resolve, parse_redirect_mode,
}
use fzz_overlay.Mount.Config.Separate.{escape_commas, next_opt-escape_commas}
use fzz_overlay.Mount.Config.Resolve.{Agrees, parse_opt-Agrees}
use fzz_overlay.Mount.Paths.{joined, split_lowerdirs, split_lowerdirs-joined}

abbrev odd_name : List ℕ
odd_name = b'a' ∷ 92 ∷ 58 ∷ 44 ∷ []

split_lowerdirs-joined_example :
    split_lowerdirs false (joined odd_name ((b'b' ∷ []) ∷ [])) ≡ odd_name ∷ (b'b' ∷ []) ∷ []
split_lowerdirs-joined_example = split_lowerdirs-joined odd_name ((b'b' ∷ []) ∷ [])

next_opt-escape_commas_example :
    (next_opt false (escape_commas odd_name ++ (comma ∷ (b'b' ∷ [])))
      ≡ (escape_commas odd_name, some (b'b' ∷ [])))
    × (next_opt false (escape_commas odd_name) ≡ (escape_commas odd_name, none))
next_opt-escape_commas_example = next_opt-escape_commas odd_name (b'b' ∷ [])

abbrev metacopy_on : List ℕ
metacopy_on = b'm' ∷ b'e' ∷ b't' ∷ b'a' ∷ b'c' ∷ b'o' ∷ b'p' ∷ b'y' ∷ b'=' ∷ b'o' ∷ b'n' ∷ []

abbrev parser : Parser
parser = record {
  token = λ s. if bytes_eq s metacopy_on then metacopy_opt true else unknown_opt;
  copied = λ s. true;
  mode_copied = true;
  default_mode = mode_off;
  always_follow = false;
}

abbrev blank : Config
blank = record {
  lowerdir = none;
  upperdir = none;
  workdir = some (b'w' ∷ []);
  default_permissions = false;
  redirect_dir = false;
  redirect_follow = false;
  redirect_mode = [];
  index = false;
  nfs_export = false;
  xino = xino_off;
  metacopy = false;
}

abbrev parsed : Config
parsed = record blank {
  workdir = none;
  redirect_dir = true;
  redirect_follow = true;
  redirect_mode = mode_off;
  metacopy = true;
}

parses : parse_opt parser (some metacopy_on) blank ≡ ok (some parsed)
unfolding parse_opt parse_loop next_opt take_option resolve parse_redirect_mode
parses = refl

parse_opt-Agrees_example : Agrees parsed
parse_opt-Agrees_example =
    parse_opt-Agrees parser (some metacopy_on) blank parsed (refl, refl) parses

-- A file that keeps the writes it was given, the last one first.
abbrev logged : List (ℕ × ℕ) → ℕ → ℕ → List (ℕ × ℕ)
logged f n pos = (pos, n) ∷ f

abbrev log_write : List (ℕ × ℕ) → ℕ → ℕ → Res (ℕ × List (ℕ × ℕ))
log_write f n pos = ok (n, logged f n pos)

save_task_gap_example :
    save_task log_write 3 [] (record { first = 7; last = 5006 })
    ≡ some ((8197, 904) ∷ (5, 4096) ∷ [])
save_task_gap_example =
    save_task_gap log_write 0 [] (record { first = 7; last = 5006 }) logged (λ f n pos. refl)
      (omega arith) (omega arith) (omega arith) (omega arith)

one_written :
    (f : List (ℕ × ℕ)) (n pos cnt : ℕ) (g : List (ℕ × ℕ))
    → 0 < n
    → log_write f n pos ≡ ok (cnt, g)
    → 0 < cnt
one_written f n pos cnt g h e = let same : n ≡ cnt = cc in omega (arith, h, same)

abbrev first_mount : ℕ
first_mount = 7

abbrev other_mount : ℕ
other_mount = 8

-- The first mount has got a directory.
abbrev by_first : Claims
by_first = trylock_by first_mount (record { inuse = false; holds = λ i. false })

inuse_exclusive_example :
    (by_first.holds other_mount ≡ true → first_mount ≡ other_mount)
    × ((inuse_unlock by_first.inuse).0 ≡ false)
    × ((inuse_trylock by_first.inuse).0 ≡ false)
unfolding inuse_trylock
inuse_exclusive_example =
    inuse_exclusive by_first first_mount other_mount
      (Reach.later Reach.unused (Step.try first_mount)) refl
