-- ===== src/Lookup/Merge/Whole.antt =====
-- ovl_lookup (namei.c), behind the loop over the lower layers, and as a whole.
use fzz_overlay.Base.{
  ℕ, Bool, false, not, ◌&&◌, ◌||◌, List, [], ◌∷◌, Option, none, some, ltb, if◌then◌else◌, length,
}
use fzz_overlay.Vfs.{Res, ok, err}
use fzz_overlay.Handle.{eio, enomem}
use fzz_overlay.Dentry.{is_some}
use fzz_overlay.Lookup.{Layers, Look, is_nil, enametoolong, get_redirect_xattr}
use fzz_overlay.Lookup.Merge.{
  eperm, Options, Lower, LookupCalls, Scan, UpperFound, Entry, present, lookup_upper, stack_needed,
  scan_lowers,
}

module _ (l : Layers) (o : Options) (k : LookupCalls l) (roe : List (Lower l)) where
  abbrev pub origin_stack : Bool → Option (Lower l) → Res (List (Lower l))
  origin_stack allocated none = ok []
  origin_stack allocated (some path) = if allocated then err eio else ok (path ∷ [])

  -- Behind the loop: the checks of a metacopy, and the origin in place of an empty stack.
  unfoldable pub settle_stack : List (Lower l) → UpperFound l → Scan l → Res (List (Lower l))
  settle_stack poe u t =
      if t.metacopy
      then (if t.d.metacopy then err eio else if not o.metacopy then err eperm else ok t.stack)
      else if not t.d.is_dir && is_some u.upper && is_nil t.stack
      then origin_stack (stack_needed l o k roe poe u) u.origin_path
      else ok t.stack

  abbrev pub first_of : List (Lower l) → Option l.Dentry → Option l.Dentry
  first_of [] other = other
  first_of (x ∷ _) other = some x.dentry

  -- The dentry whose index is looked up.
  unfoldable pub index_origin : UpperFound l → Scan l → List (Lower l) → Option l.Dentry
  index_origin u t stack =
      if not (is_some u.upper) || (not t.d.is_dir && not t.metacopy)
      then first_of stack t.origin
      else t.origin

  abbrev pub index_of : UpperFound l → Bool → Option l.Dentry → Res (Option l.Dentry)
  index_of u is_dir none = ok none
  index_of u is_dir (some origin) =
      if o.indexdir && (not is_dir || o.index_all) then k.lookup_index u.upper origin else ok none

  -- ovl_get_inode is called where there is a dentry.
  abbrev pub got : Bool → Entry l → Res (Unit {0}) → Res (Entry l)
  got needed e (ok _) = ok e
  got needed e (err x) = if needed then err x else ok e

  abbrev pub entry_of :
      UpperFound l
      → List (Lower l)
      → Option l.Dentry
      → Option l.Dentry
      → Option (List ℕ)
      → Res (Entry l)
  entry_of u stack upper index redirect =
      got (is_some upper || not (is_nil stack))
        record {
          upper = upper;
          stack = stack;
          index = index;
          redirect = redirect;
          opaque = u.opaque;
          upper_alias = is_some u.upper;
        }
        k.inode_got

  abbrev pub from_index :
      UpperFound l → List (Lower l) → l.Dentry → Res (Option (List ℕ)) → Res (Entry l)
  from_index u stack index (err e) = err e
  from_index u stack index (ok redirect) = entry_of u stack (some index) (some index) redirect

  abbrev pub indexed : UpperFound l → List (Lower l) → Res (Option l.Dentry) → Res (Entry l)
  indexed u stack (err e) = err e
  indexed u stack (ok none) =
      if not k.entry_allocated then err enomem else entry_of u stack u.upper none u.redirect
  indexed u stack (ok (some index)) =
      if not k.entry_allocated
      then err enomem
      else if is_some u.upper
      then entry_of u stack u.upper (some index) u.redirect
      else from_index u stack index (get_redirect_xattr (l.redirect_xattr index))

  abbrev pub put_together : UpperFound l → Scan l → Res (List (Lower l)) → Res (Entry l)
  put_together u t (err e) = err e
  put_together u t (ok stack) = indexed u stack (index_of u t.d.is_dir (index_origin u t stack))

  abbrev pub after_lowers :
      List (Lower l) → UpperFound l → Res (Option (Scan l)) → Res (Option (Entry l))
  after_lowers poe u (err e) = err e
  after_lowers poe u (ok none) = ok none
  after_lowers poe u (ok (some t)) = present (put_together u t (settle_stack poe u t))

  abbrev pub after_upper : List (Lower l) → Res (Option (UpperFound l)) → Res (Option (Entry l))
  after_upper poe (err e) = err e
  after_upper poe (ok none) = ok none
  after_upper poe (ok (some u)) = after_lowers poe u (scan_lowers l o k roe poe u)

  abbrev pub look_for : List ℕ → List (Lower l) → Look
  look_for name poe = record {
    name = name;
    is_dir = false;
    opaque = false;
    stop = false;
    last = if o.redirect_follow then false else is_nil poe;
    redirect = none;
    metacopy = false;
  }

  -- ovl_lookup of `name`, whose parent has the lower dentries `poe` and the upper one `upperdir`;
  -- `poe_is_roe` says that the parent is the root. `ok none` is a loop that has no fuel left:
  -- the one over the layers, or a walk along a name.
  unfoldable pub lookup : Option l.Dentry → List (Lower l) → Bool → List ℕ → Res (Option (Entry l))
  lookup upperdir poe poe_is_roe name =
      if ltb o.namelen (length name)
      then err enametoolong
      else after_upper poe (lookup_upper l o k roe upperdir poe_is_roe (look_for name poe))
