-- ===== src/Readdir/Empty.antt =====
-- Whether a merged directory is empty (readdir.c: ovl_check_empty_dir).
use fzz_overlay.Base.{
  ℕ, ◌≡◌, refl, ap, Bool, Bool-cases, true, false, ◌&&◌, ◌||◌, List, [], ◌∷◌, inl, inr,
  if◌then◌else◌,
}
use fzz_overlay.Vfs.{Res, ok, err}
use fzz_overlay.Handle.Store.{bytes_eq}
use fzz_overlay.Readdir.Merge.{CacheEntry, Reader, dot, dot_dot, dir_read_merged}

abbrev pub enotempty : ℕ
enotempty = 39

abbrev is_dots : List ℕ → Bool
is_dots name = bytes_eq name dot || bytes_eq name dot_dot

abbrev kept_in : CacheEntry → Res (Unit {0}) × List CacheEntry → Res (Unit {0}) × List CacheEntry
kept_in p (x, ps) = (x, p ∷ ps)

-- The loop of ovl_check_empty_dir: the list keeps the whiteouts of the upper directory, and what
-- is not looked at behind an entry that is seen.
unfoldable pub check_entries : List CacheEntry → Res (Unit {0}) × List CacheEntry
check_entries [] = (ok tt, [])
check_entries (p ∷ ps) =
    let rest = check_entries ps in
    if p.is_whiteout
    then (if p.is_upper then kept_in p rest else rest)
    else if is_dots p.name
    then rest
    else (err enotempty, p ∷ ps)

abbrev checked : Res (List CacheEntry) → Res (Unit {0}) × List CacheEntry
checked (ok es) = check_entries es
checked (err e) = (err e, [])

unfoldable pub check_empty_dir :
    {D : Type 0} → Reader D → List (Bool × D) → Res (Unit {0}) × List CacheEntry
check_empty_dir k paths = checked (dir_read_merged k paths)

-- Nothing but whiteouts, `.` and `..`.
abbrev pub is_empty : List CacheEntry → Bool
is_empty [] = true
is_empty (p ∷ ps) = (p.is_whiteout || is_dots p.name) && is_empty ps

-- The whiteouts of the upper directory.
abbrev pub upper_whiteouts : List CacheEntry → List CacheEntry
upper_whiteouts [] = []
upper_whiteouts (p ∷ ps) =
    let rest = upper_whiteouts ps in if p.is_whiteout && p.is_upper then p ∷ rest else rest

check_entries_lem :
    (es : List CacheEntry)
    → (is_empty es ≡ true → check_entries es ≡ (ok tt, upper_whiteouts es))
      × (is_empty es ≡ false → (check_entries es).0 ≡ err enotempty)
unfolding check_entries
check_entries_lem [] = (λ h. refl, λ h. cc)
check_entries_lem (p ∷ ps) =
    let rest = check_entries_lem ps in
    elim (Bool-cases p.is_whiteout) [
      | inl w ↦ elim (Bool-cases p.is_upper) [
        | inl u ↦ simp (w, u) (λ h. ap (kept_in p) (rest.0 h), λ h. rest.1 h)
        | inr u ↦ simp (w, u) (λ h. rest.0 h, λ h. rest.1 h)
      ]
      | inr w ↦ elim (Bool-cases (is_dots p.name)) [
        | inl d ↦ simp (w, d) (λ h. rest.0 h, λ h. rest.1 h)
        | inr d ↦ simp (w, d) (λ h. cc, λ h. refl)
      ]
    ]

-- What ovl_check_empty_dir says of a merged directory that can be read: it succeeds just if there
-- is no entry but whiteouts, `.` and `..`, and leaves the whiteouts of the upper directory, and
-- fails with ENOTEMPTY otherwise.
pub check_empty_dir-decides :
    {D : Type 0} (k : Reader D) (paths : List (Bool × D)) (es : List CacheEntry)
    → dir_read_merged k paths ≡ ok es
    → (is_empty es ≡ true → check_empty_dir k paths ≡ (ok tt, upper_whiteouts es))
      × (is_empty es ≡ false → (check_empty_dir k paths).0 ≡ err enotempty)
unfolding check_empty_dir
check_empty_dir-decides k paths es h = rw h (check_entries_lem es)
