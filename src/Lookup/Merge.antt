-- ===== src/Lookup/Merge.antt =====
-- ovl_lookup (namei.c): the upper layer and the lower layers of a name are put together. The origin,
-- the index, the fix of a missing origin and the allocations are taken by what they return.
pub mod Layered
pub mod Whole
pub mod Hidden
use fzz_overlay.Base.{
  ℕ, zero, suc, ◌+◌, ◌-◌, Bool, true, false, not, ◌&&◌, ◌||◌, List, [], ◌∷◌, ◌++◌, Option, none,
  some, ◌==◌, ltb, if◌then◌else◌, length, drop,
}
use fzz_overlay.Vfs.{Res, ok, err}
use fzz_overlay.Handle.{eio, enomem}
use fzz_overlay.Dentry.{is_some}
use fzz_overlay.Lookup.{
  Layers, Look, Walked, done, off_rails, loops, is_absolute, is_nil, enametoolong, eremote,
  lookup_layer, get_redirect_xattr,
}

abbrev pub eperm : ℕ
eperm = 1

-- The options of the mount, and `noxattr`.
pub record Options : Type 0 where
  pub redirect_follow : Bool
  pub metacopy : Bool
  pub index : Bool
  pub indexdir : Bool  -- ovl_indexdir
  pub index_all : Bool  -- ovl_index_all
  pub verify_lower : Bool
  pub noxattr : Bool
  pub namelen : ℕ

-- struct ovl_path: a dentry of a lower layer, and the index of the layer.
pub record Lower (l : Layers) : Type 0 where
  pub dentry : l.Dentry
  pub idx : ℕ

-- What the helpers of ovl_lookup return.
pub record LookupCalls (l : Layers) : Type 0 where
  pub remote : l.Dentry → Bool  -- ovl_dentry_remote
  pub origin : l.Dentry → Res (Option (Lower l))  -- ovl_check_origin
  pub fix_origin : l.Dentry → Res (Unit {0})
  pub verify_origin : l.Dentry → Res (Unit {0})
  pub strdup : Bool
  pub stack_allocated : Bool
  pub entry_allocated : Bool
  -- ovl_lookup_index, by the upper dentry and the origin.
  pub lookup_index : Option l.Dentry → l.Dentry → Res (Option l.Dentry)
  pub inode_got : Res (Unit {0})  -- ovl_get_inode

-- The variables of ovl_lookup. `ctr` is the length of `stack`.
pub record Scan (l : Layers) : Type 0 where
  pub d : Look
  pub stack : List (Lower l)
  pub metacopy : Bool
  pub origin : Option l.Dentry
  pub at_root : Bool  -- poe == roe

-- The end of a round of the loop: an error, `break`, or on; or the walk along the name in it has no
-- fuel left, and the lookup does not return.
pub data Round (l : Layers) : Type 0 where
  fails : ℕ → Round l
  breaks : Scan l → Round l
  continues : Scan l → Round l
  no_fuel : Round l

-- What the upper layer gives.
pub record UpperFound (l : Layers) : Type 0 where
  pub d : Look
  pub upper : Option l.Dentry
  pub origin_path : Option (Lower l)
  pub metacopy : Bool
  pub redirect : Option (List ℕ)
  pub opaque : Bool
  pub at_root : Bool

-- What the dentry of the overlay gets.
pub record Entry (l : Layers) : Type 0 where
  pub upper : Option l.Dentry
  pub stack : List (Lower l)
  pub index : Option l.Dentry
  pub redirect : Option (List ℕ)
  pub opaque : Bool
  pub upper_alias : Bool

abbrev pub present {ℓ} : {A : Type ℓ} → Res A → Res (Option A)
present (err e) = err e
present (ok x) = ok (some x)

module _ (l : Layers) (o : Options) (k : LookupCalls l) (roe : List (Lower l)) where
  abbrev pub absolute_redirect : Look → Bool
  absolute_redirect d = elim d.redirect [ none ↦ false | some path ↦ is_absolute path ]

  -- A dentry that is kept: it is put on the stack, and the redirect is looked at.
  unfoldable pub keep : Lower l → Scan l → Round l
  keep found s =
      let t = record s { stack = s.stack ++ (found ∷ []) } in
      if s.d.metacopy && not (is_nil s.stack)
      then continues s
      else if is_some s.d.redirect && not o.redirect_follow
      then fails eperm
      else if s.d.stop
      then breaks t
      else continues t

  -- The origin is verified where it has to be, and the dentry is kept.
  abbrev pub verified : Lower l → Scan l → Res (Unit {0}) → Round l
  verified found s (err e) = if s.d.is_dir then breaks s else fails e
  verified found s (ok _) =
      keep found (record s { origin = some found.dentry; metacopy = s.metacopy || s.d.metacopy })

  unfoldable pub verify : Bool → Bool → Lower l → Scan l → Round l
  verify has_upper has_origin found s =
      if has_upper
        && is_nil s.stack
        && ((s.d.is_dir && o.verify_lower) || (not s.d.is_dir && o.index && has_origin))
      then verified found s (k.verify_origin found.dentry)
      else keep found (record s { metacopy = s.metacopy || s.d.metacopy })

  abbrev pub fixed : Bool → Bool → Lower l → Scan l → Res (Unit {0}) → Round l
  fixed has_upper has_origin found s (err e) = fails e
  fixed has_upper has_origin found s (ok _) = verify has_upper has_origin found s

  unfoldable pub merge : Bool → Bool → Lower l → Scan l → Round l
  merge has_upper has_origin found s =
      if has_upper && is_nil s.stack && not o.noxattr && s.d.is_dir
      then fixed has_upper has_origin found s (k.fix_origin found.dentry)
      else verify has_upper has_origin found s

  abbrev pub looked : Bool → Bool → ℕ → Scan l → Walked l.Dentry × Look → Round l
  looked has_upper has_origin idx s (off_rails, d) = fails eio
  looked has_upper has_origin idx s (loops, d) = no_fuel
  looked has_upper has_origin idx s (done (err e), d) = fails e
  looked has_upper has_origin idx s (done (ok none), d) = continues (record s { d = d })
  looked has_upper has_origin idx s (done (ok (some this)), d) =
      merge has_upper has_origin (record { dentry = this; idx = idx }) (record s { d = d })

  -- One round: `last` says that the layer is the last one of the parent.
  unfoldable pub layer_round : Bool → Bool → Lower l → Bool → Scan l → Round l
  layer_round has_upper has_origin lower last s =
      let d = s.d in
      let d' = record d { last = if o.redirect_follow then lower.idx == length roe else last } in
      looked has_upper has_origin lower.idx s (lookup_layer l lower.dentry d')

  -- Behind a round: `here` goes on with the layers left, `root` with the root's layers below.
  abbrev pub next_layer :
      ℕ
      → Round l
      → (Scan l → Res (Option (Scan l)))
      → (Scan l → Res (Option (Scan l)))
      → Res (Option (Scan l))
  next_layer n (fails e) here root = err e
  next_layer n (breaks t) here root = ok (some t)
  next_layer n no_fuel here root = ok none
  next_layer n (continues t) here root =
      if ltb n (length t.stack) && absolute_redirect t.d && not t.at_root
      then root (record t { at_root = true })
      else here t

  -- The loop over the layers that are left of the parent. An absolute redirect of a dentry that was
  -- kept goes on with the root's layers below the present one. `ok none` is a loop, or a walk along
  -- a name in it, that has no fuel left.
  unfoldable pub scan : ℕ → Bool → Bool → List (Lower l) → Scan l → Res (Option (Scan l))
  scan zero has_upper has_origin rest s = ok none
  scan (suc fuel) has_upper has_origin [] s = ok (some s)
  scan (suc fuel) has_upper has_origin (lower ∷ rest) s =
      if s.d.stop
      then ok (some s)
      else next_layer (length s.stack) (layer_round has_upper has_origin lower (is_nil rest) s)
          (λ t. scan fuel has_upper has_origin rest t)
          (λ t. scan fuel has_upper has_origin (drop lower.idx roe) t)

  -- The dentry of the upper layer, its origin and the redirect of it.
  abbrev pub redirected : Option l.Dentry → Option (Lower l) → Look → Bool → Res (UpperFound l)
  redirected upper origin d poe_is_roe =
      if is_some d.redirect && not k.strdup
      then err enomem
      else ok record {
        d = d;
        upper = upper;
        origin_path = origin;
        metacopy = is_some upper && not d.is_dir && d.metacopy;
        redirect = d.redirect;
        opaque = d.opaque;
        at_root = poe_is_roe || absolute_redirect d;
      }

  abbrev pub with_origin : l.Dentry → Look → Bool → Res (Option (Lower l)) → Res (UpperFound l)
  with_origin this d poe_is_roe (err e) = err e
  with_origin this d poe_is_roe (ok origin) = redirected (some this) origin d poe_is_roe

  abbrev pub upper_found : Bool → Walked l.Dentry × Look → Res (Option (UpperFound l))
  upper_found poe_is_roe (off_rails, d) = err eio
  upper_found poe_is_roe (loops, d) = ok none
  upper_found poe_is_roe (done (err e), d) = err e
  upper_found poe_is_roe (done (ok none), d) = present (redirected none none d poe_is_roe)
  upper_found poe_is_roe (done (ok (some this)), d) =
      if k.remote this
      then err eremote
      else if not d.is_dir
      then present (with_origin this d poe_is_roe (k.origin this))
      else present (redirected (some this) none d poe_is_roe)

  -- The part of ovl_lookup that looks in the upper directory of the parent, if it has one. `ok none`
  -- is a walk along the name that has no fuel left.
  unfoldable pub lookup_upper : Option l.Dentry → Bool → Look → Res (Option (UpperFound l))
  lookup_upper none poe_is_roe d = ok (
      some record {
        d = d;
        upper = none;
        origin_path = none;
        metacopy = false;
        redirect = none;
        opaque = false;
        at_root = poe_is_roe;
      })
  lookup_upper (some upperdir) poe_is_roe d = upper_found poe_is_roe (lookup_layer l upperdir d)

  -- The layers the loop runs over, once the upper dentry is known.
  abbrev pub lowers_of : List (Lower l) → UpperFound l → List (Lower l)
  lowers_of poe u = if absolute_redirect u.d then roe else poe

  abbrev pub stack_needed : List (Lower l) → UpperFound l → Bool
  stack_needed poe u = not u.d.stop && not (is_nil (lowers_of poe u))

  abbrev pub start_of : UpperFound l → Scan l
  start_of u = record {
    d = u.d;
    stack = [];
    metacopy = u.metacopy;
    origin = none;
    at_root = u.at_root;
  }

  -- The allocation of the stack, and the loop.
  unfoldable pub scan_lowers : List (Lower l) → UpperFound l → Res (Option (Scan l))
  scan_lowers poe u =
      if stack_needed poe u && not k.stack_allocated
      then err enomem
      else scan (suc (length (lowers_of poe u) + length roe)) (is_some u.upper)
          (is_some u.origin_path) (lowers_of poe u) (start_of u)
