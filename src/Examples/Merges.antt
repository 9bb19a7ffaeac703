-- ===== src/Examples/Merges.antt =====
-- An upper directory with the names a and b, over a lower one with b and c.
use fzz_overlay.Base.{ℕ, ◌≡◌, refl, Bool, true, false, List, [], ◌∷◌, ◌==◌, if◌then◌else◌}
use fzz_overlay.Vfs.{ok, err}
use fzz_overlay.Readdir.Tree.{find, link, side}
use fzz_overlay.Readdir.Merge.{
  Dirent, CacheEntry, Reader, dir_read_merged, read_layers, dir_read, read_batches, fill_all,
  add_rb, fill_lowest, entry_new, extract, mark_whiteouts, calc_d_ino,
}
use fzz_overlay.Readdir.Merge.Cells.{At}
use fzz_overlay.Readdir.Merge.Steps.{Balances}
use fzz_overlay.Readdir.Empty.{
  enotempty, is_empty, upper_whiteouts, check_empty_dir, check_empty_dir-decides,
}
use fzz_overlay.Readdir.Merge.Listing.{topmost, dir_read_merged_lem}

abbrev entry : ℕ → ℕ → Dirent
entry c i = record { name = c ∷ []; ino = i; kind = 8 }

abbrev reader : Reader ℕ
reader = record {
  allocated = λ n. true;
  rebalanced = λ t. t;
  opens = λ d. ok tt;
  batches = λ d.
      if d == 0
      then ok (entry b'a' 1 ∷ entry b'b' 2 ∷ []) ∷ ok [] ∷ []
      else ok (entry b'b' 3 ∷ []) ∷ ok (entry b'c' 4 ∷ []) ∷ ok [] ∷ [];
  locked = λ d. ok tt;
  whiteout = λ d n. ok false;
  xino = false;
  impure = false;
  iterates = true;
}

reader-Balances : Balances reader
reader-Balances = record { sorted = λ t s. s; found = λ t n s. refl }

abbrev cached : ℕ → ℕ → Bool → CacheEntry
cached c i u = record {
  name = c ∷ [];
  kind = 8;
  real_ino = i;
  ino = i;
  is_upper = u;
  is_whiteout = false;
}

-- The names of the lower directory come first.
abbrev merged : List CacheEntry
merged = cached b'b' 2 true ∷ cached b'c' 4 false ∷ cached b'a' 1 true ∷ []

merges : dir_read_merged reader ((true, 0) ∷ (false, 1) ∷ []) ≡ ok merged
unfolding dir_read_merged read_layers dir_read read_batches fill_all add_rb fill_lowest entry_new
    extract mark_whiteouts calc_d_ino find link side
merges = refl

dir_read_merged_lem_example :
    At merged (b'b' ∷ []) (topmost reader (b'b' ∷ []) ((true, 0) ∷ (false, 1) ∷ []))
dir_read_merged_lem_example =
    dir_read_merged_lem reader ((true, 0) ∷ (false, 1) ∷ []) merged reader-Balances
      (refl, (refl, tt)) merges (b'b' ∷ [])

check_empty_dir-decides_example :
    (is_empty merged ≡ true
      → check_empty_dir reader ((true, 0) ∷ (false, 1) ∷ []) ≡ (ok tt, upper_whiteouts merged))
    × (is_empty merged ≡ false
        → (check_empty_dir reader ((true, 0) ∷ (false, 1) ∷ [])).0 ≡ err enotempty)
check_empty_dir-decides_example =
    check_empty_dir-decides reader ((true, 0) ∷ (false, 1) ∷ []) merged merges
