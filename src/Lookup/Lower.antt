-- ===== src/Lookup/Lower.antt =====
-- The layers of a dentry in turn, and whether a name is in the lower ones (namei.c: ovl_path_next,
-- ovl_fix_origin, ovl_lower_positive).
pub mod Walk
pub mod Topmost
use fzz_overlay.Base.{
  ℕ, zero, suc, ◌+◌, ◌-◌, ◌≡◌, ◌∙◌, refl, Bool, true, false, not, ◌||◌, List, [], ◌∷◌, ◌++◌, Option,
  none, some, ◌==◌, ltb, if◌then◌else◌, length, get_elem?,
}
use fzz_overlay.Vfs.{Res, ok, err}
use fzz_overlay.Lookup.{Layers, enoent, enametoolong}

-- A BUG_ON, or the path and the next index; `none` is -1.
pub data Next (A : Type 0) : Type 0 where
  bug : Next A
  path_then : A → Option ℕ → Next A

module _ {A : Type 0} where
  abbrev pub lower_at : ℕ → List A → Option A → Next A
  lower_at idx lowers none = bug
  lower_at idx lowers (some lower) =
      path_then lower (if ltb idx (length lowers) then some (idx + 1) else none)

  abbrev pub lower_next : ℕ → List A → Next A
  lower_next idx lowers =
      if ltb (length lowers) idx then bug else lower_at idx lowers (get_elem? lowers (idx - 1))

  -- ovl_path_next on a dentry with an upper path, or none, and lower ones.
  unfoldable pub path_next : ℕ → Option A → List A → Next A
  path_next zero (some upper) lowers =
      path_then upper (if ltb 0 (length lowers) then some 1 else none)
  path_next zero none lowers = lower_next 1 lowers
  path_next (suc idx) upper lowers = lower_next (suc idx) lowers

  abbrev pub cons_path : A → Option (List A) → Option (List A)
  cons_path p none = none
  cons_path p (some ps) = some (p ∷ ps)

  abbrev pub go_on : Next A → (ℕ → Option (List A)) → Option (List A)
  go_on bug next = none
  go_on (path_then p none) next = some (p ∷ [])
  go_on (path_then p (some idx)) next = cons_path p (next idx)

  -- The loop that a caller of ovl_path_next makes, as in ovl_dir_read_merged.
  unfoldable pub path_loop : ℕ → ℕ → Option A → List A → Option (List A)
  path_loop zero idx upper lowers = none
  path_loop (suc fuel) idx upper lowers =
      go_on (path_next idx upper lowers) (λ i. path_loop fuel i upper lowers)

module _ (l : Layers) where
  -- The loop of ovl_lower_positive.
  abbrev pub positive_or : Res l.Dentry → Bool → Bool
  positive_or (err e) rest = if e == enoent || e == enametoolong then rest else true
  positive_or (ok this) rest = if l.positive this then not (l.whiteout this) else rest

  unfoldable pub positive_in : List ℕ → List l.Dentry → Bool
  positive_in name [] = false
  positive_in name (lower ∷ lowers) =
      let rest = positive_in name lowers in positive_or (l.lookup_one lower name) rest

  -- ovl_lower_positive of a dentry that has an inode, or none and may be opaque, with an upper
  -- dentry or none.
  unfoldable pub lower_positive : Bool → Bool → Bool → List ℕ → List l.Dentry → Bool
  lower_positive has_inode opaque has_upper name lowers =
      if not has_inode then opaque else if not has_upper then true else positive_in name lowers

-- What the helpers of ovl_fix_origin return.
pub record Fixing : Type 0 where
  pub has_origin : Bool  -- ovl_check_origin_xattr
  pub want_write : Res (Unit {0})
  pub set_origin_call : Res (Unit {0})
  pub set_impure_call : Res (Unit {0})

abbrev pub then_call : Res (Unit {0}) → Res (Unit {0}) → Res (Unit {0})
then_call (err e) next = err e
then_call (ok _) next = next

-- ovl_fix_origin
unfoldable pub fix_origin_xattr : Fixing → Res (Unit {0})
fix_origin_xattr k =
    if k.has_origin
    then ok tt
    else then_call k.want_write (then_call k.set_origin_call k.set_impure_call)
