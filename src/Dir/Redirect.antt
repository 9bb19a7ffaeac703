-- ===== src/Dir/Redirect.antt =====
-- The redirect that is stored with a dentry that moves (dir.c: ovl_type_merge_or_lower,
-- ovl_can_move, ovl_get_redirect, ovl_need_absolute_redirect, ovl_set_redirect; util.c:
-- ovl_redirect_dir).
pub mod Absolute
use fzz_overlay.Base.{
  ℕ, ◌+◌, ◌-◌, Bool, true, false, not, ◌&&◌, ◌||◌, List, [], ◌∷◌, ◌++◌, Option, none, some, ltb,
  if◌then◌else◌, length,
}
use fzz_overlay.Vfs.{Res, ok, err, Vfs}
use fzz_overlay.Handle.{enomem}
use fzz_overlay.Dentry.{Node, is_dir, path_type}
use fzz_overlay.Lookup.{slash, is_absolute}
use fzz_overlay.Dir.{Dirs, redirect_xattr, check_set}
use fzz_overlay.Dir.Made.{Side, St, with_side, on_world}

abbrev pub exdev : ℕ
exdev = 18

-- A dentry on the way up to the root, which is left out: its name, and its redirect.
pub record Step : Type 0 where
  pub name : List ℕ
  pub redirect : Option (List ℕ)

abbrev name_or : List ℕ → Option (List ℕ) → List ℕ
name_or name none = name
name_or name (some redirect) = redirect

abbrev pub text_of : Step → List ℕ
text_of d = name_or d.name d.redirect

-- The loop of ovl_get_redirect: the buffer is filled from its end, `buflen` bytes are free.
unfoldable pub absolute_loop : ℕ → List ℕ → List Step → Res (List ℕ)
absolute_loop buflen buf [] = ok buf
absolute_loop buflen buf (d ∷ ds) =
    let text = text_of d in
    let above = absolute_loop (buflen - length text - 1) (slash ∷ text ++ buf) ds in
    if ltb buflen (length text + (if is_absolute text then 0 else 1))
    then err exdev
    else if is_absolute (text ++ buf)
    then ok (text ++ buf)
    else above

-- ovl_get_redirect, for the dentries from the one that moves up to the root.
unfoldable pub get_redirect : ℕ → Bool → List ℕ → List Step → Bool → Res (List ℕ)
get_redirect redirect_max allocated name path abs_redirect =
    if not allocated
    then err enomem
    else if not abs_redirect
    then ok name
    else absolute_loop redirect_max [] path

module _ {v : Vfs} where
  unfoldable pub type_merge_or_lower : Node v → Bool
  type_merge_or_lower n = let t = path_type n in t.merge || not t.upper

  -- `redirect_dir` is the option.
  unfoldable pub can_move : Bool → Bool → Node v → Bool
  can_move redirect_dir noxattr n =
      (redirect_dir && not noxattr) || not (is_dir n.mode) || not (type_merge_or_lower n)

  unfoldable pub need_absolute_redirect : Bool → Node v → Bool
  need_absolute_redirect samedir n =
      if not samedir then true else if is_dir n.mode then false else ltb 1 n.lower_nlink

abbrev pub suffices : Bool → Option (List ℕ) → Bool
suffices absolute none = false
suffices absolute (some redirect) = not absolute || is_absolute redirect

module _ {v : Vfs} {r : Dirs} where
  -- Any error of the attribute becomes EXDEV.
  abbrev pub remember : List ℕ → Res (Unit {0}) × St v r → Res (Unit {0}) × St v r
  remember redirect (ok _, s) =
      let d = s.side in (ok tt, with_side s (record d { redirect = some redirect }))
  remember redirect (err e, s) = (err exdev, s)

  abbrev pub store_redirect : ℕ → Res (List ℕ) → St v r → Res (Unit {0}) × St v r
  store_redirect upper (err e) s = (err e, s)
  store_redirect upper (ok redirect) s =
      remember redirect (on_world (check_set upper redirect_xattr redirect exdev) s)

  -- ovl_set_redirect, for the inode of the upper dentry.
  unfoldable pub set_redirect : ℕ → Bool → List Step → Bool → ℕ → St v r → Res (Unit {0}) × St v r
  set_redirect redirect_max allocated path samedir upper s =
      let absolute = need_absolute_redirect samedir s.side.node in
      if suffices absolute s.side.redirect
      then (ok tt, s)
      else store_redirect upper (get_redirect redirect_max allocated s.side.name path absolute) s
