-- ===== src/CopyUp/Walk.antt =====
-- ovl_copy_up_flags (copy_up.c): the ancestors that are not copied up come first, from the top.
pub mod Ends
use fzz_overlay.Base.{
  ℕ, zero, suc, Bool, true, false, not, ◌&&◌, ◌||◌, List, [], ◌∷◌, Option, none, some,
  if◌then◌else◌,
}
use fzz_overlay.Vfs.{Res, ok, err, Vfs}
use fzz_overlay.Handle.{enodata, eio}
use fzz_overlay.Block.{Outcome, returns, fails, fault, loops}
use fzz_overlay.Dentry.{
  Node, is_some, is_dir, is_special, already_copied_up, open_flags_need_copy_up,
}
use fzz_overlay.CopyUp.{St, Calls, Fs, Temp, copy_up_one}

-- A dentry, its ancestors from the parent to the root, and the file system.
pub record Chain (v : Vfs) : Type 0 where
  pub node : Node v
  pub ancestors : List (Node v)
  pub fs : Fs

abbrev pub new_temp : Temp
new_temp = record { origin_xattr = err enodata; metacopy_xattr = err enodata }

module _ {v : Vfs} where
  abbrev pub parent_list : Option (Node v) → List (Node v) → List (Node v)
  parent_list none rest = rest
  parent_list (some p) rest = p ∷ rest

  abbrev pub placed : List (Node v) → Res (Unit {0}) × St v → Res (Unit {0}) × Chain v
  placed rest (r, s) =
      (r, record { node = s.node; ancestors = parent_list s.parent rest; fs = s.fs })

  abbrev below : Node v → Option (Res (Unit {0}) × Chain v) → Option (Res (Unit {0}) × Chain v)
  below n none = none
  below n (some (r, c)) = some (r, record { node = n; ancestors = c.node ∷ c.ancestors; fs = c.fs })

  -- The walk to the topmost dentry that is not copied up, and its copy. A root that is not copied
  -- up is its own parent, and the walk does not end.
  unfoldable pub copy_topmost :
      Calls → ℕ → Fs → Node v → List (Node v) → Option (Res (Unit {0}) × Chain v)
  copy_topmost k flags fs n [] = none
  copy_topmost k flags fs n (p ∷ rest) =
      let higher = copy_topmost k flags fs p rest in
      if is_some p.upper
      then some (
          placed rest
            (copy_up_one k flags (record { node = n; parent = some p; fs = fs; temp = new_temp })))
      else below n higher

  -- One round of the loop. A disconnected dentry is copied up without a parent.
  unfoldable pub copy_round : Calls → ℕ → Bool → Chain v → Option (Res (Unit {0}) × Chain v)
  copy_round k flags disconnected c =
      if disconnected
      then some (
          placed c.ancestors (
            copy_up_one k flags
              (record { node = c.node; parent = none; fs = c.fs; temp = new_temp })))
      else copy_topmost k flags c.fs c.node c.ancestors

  -- `while (!err)`: `calls` gives what the kernel returns in each round.
  unfoldable pub copy_rounds : ℕ → (ℕ → Calls) → ℕ → Bool → Chain v → Outcome (Unit {0}) × Chain v
  copy_rounds zero calls flags d c = (loops, c)
  copy_rounds (suc fuel) calls flags d c =
      let round = elim (copy_round (calls fuel) flags d c) as (λ _. Outcome (Unit {0}) × Chain v) [
        | none ↦ (loops, c)
        | some (ok _, c') ↦ copy_rounds fuel calls flags d c'
        | some (err e, c') ↦ (fails e, c')
      ] in
      if already_copied_up flags c.node then (returns tt, c) else round

  -- ovl_copy_up_flags, with fuel for the rounds.
  unfoldable pub copy_up_flags : ℕ → (ℕ → Calls) → ℕ → Chain v → Outcome (Unit {0}) × Chain v
  copy_up_flags fuel calls flags c =
      if c.node.disconnected && is_dir c.node.mode
      then (fails eio, c)
      else copy_rounds fuel calls flags c.node.disconnected c

  -- ovl_open_need_copy_up
  unfoldable pub open_need_copy_up : ℕ → Node v → Bool
  open_need_copy_up flags n =
      if already_copied_up flags n
      then false
      else if is_special n.mode
      then false
      else if not (open_flags_need_copy_up flags)
      then false
      else true

  abbrev if_writable :
      Res (Unit {0}) → Outcome (Unit {0}) × Chain v → Chain v → Outcome (Unit {0}) × Chain v
  if_writable (ok _) r c = r
  if_writable (err e) r c = (fails e, c)

  -- ovl_maybe_copy_up, by what mnt_want_write returns.
  unfoldable pub maybe_copy_up :
      Res (Unit {0}) → ℕ → (ℕ → Calls) → ℕ → Chain v → Outcome (Unit {0}) × Chain v
  maybe_copy_up writable fuel calls flags c =
      if open_need_copy_up flags c.node
      then if_writable writable (copy_up_flags fuel calls flags c) c
      else (returns tt, c)
