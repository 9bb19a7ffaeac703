-- ===== src/Lookup.antt =====
-- Lookup of a name in one layer (namei.c: ovl_check_redirect, ovl_lookup_single, ovl_lookup_layer;
-- util.c: ovl_get_redirect_xattr, ovl_check_metacopy_xattr, ovl_check_dir_xattr). A name is its
-- bytes.
pub mod Redirect
pub mod Rails
pub mod Halts
pub mod Merge
pub mod Origin
pub mod Index
pub mod Lower
use fzz_overlay.Base.{
  ℕ, zero, suc, ◌+◌, ◌-◌, Bool, true, false, not, ◌&&◌, ◌||◌, List, [], ◌∷◌, ◌++◌, Option, none,
  some, leb, ◌==◌, if◌then◌else◌, length, get_or, take, drop,
}
use fzz_overlay.Base.Words.{sub64}
use fzz_overlay.Vfs.{Res, ok, err}
use fzz_overlay.Handle.{einval, enodata}
use fzz_overlay.Handle.Store.{eopnotsupp}

abbrev pub slash : ℕ
slash = b'/'

abbrev pub enoent : ℕ
enoent = 2

abbrev pub enametoolong : ℕ
enametoolong = 36

abbrev pub eloop : ℕ
eloop = 40

abbrev pub eremote : ℕ
eremote = 66

-- The dentries of the layers' file systems, as the kernel gives them.
pub record Layers : Type 1 where
  pub Dentry : Type 0
  -- lookup_one_len_unlocked: a dentry, which may be negative.
  pub lookup_one : Dentry → List ℕ → Res Dentry
  pub positive : Dentry → Bool
  pub weird : Dentry → Bool  -- ovl_dentry_weird
  pub whiteout : Dentry → Bool  -- ovl_is_whiteout
  pub is_reg : Dentry → Bool
  pub can_lookup : Dentry → Bool
  pub trap : Dentry → Bool  -- ovl_lookup_trap_inode
  pub opaque_xattr : Dentry → Res (List ℕ)
  pub metacopy_xattr : Dentry → Res (List ℕ)
  pub redirect_xattr : Dentry → Res (List ℕ)

-- struct ovl_lookup_data
pub record Look : Type 0 where
  pub name : List ℕ
  pub is_dir : Bool
  pub opaque : Bool
  pub stop : Bool
  pub last : Bool
  pub redirect : Option (List ℕ)
  pub metacopy : Bool

-- strchrnul(s, '/'): the bytes before the first slash, and those from it on.
abbrev pub element : List ℕ → List ℕ
element [] = []
element (c ∷ s) = if c == slash then [] else c ∷ element s

abbrev pub from_slash : List ℕ → List ℕ
from_slash [] = []
from_slash (c ∷ s) = if c == slash then c ∷ s else from_slash s

abbrev pub is_nil {ℓ} : {A : Type ℓ} → List A → Bool
is_nil [] = true
is_nil (_ ∷ _) = false

-- strchr(buf, '/') != NULL
abbrev pub has_slash : List ℕ → Bool
has_slash [] = false
has_slash (c ∷ s) = c == slash || has_slash s

abbrev pub is_absolute : List ℕ → Bool
is_absolute s = get_or s 0 0 == slash

-- The loop over an absolute redirect, `s` at a slash or at the end: no element is empty. `seen`
-- says whether the element that is read has a byte already.
unfoldable pub elements_filled : Bool → List ℕ → Bool
elements_filled seen [] = seen
elements_filled seen (c ∷ s) =
    let within = elements_filled true s in
    let after = elements_filled false s in if c == slash then seen && after else within

abbrev pub valid_redirect : List ℕ → Bool
valid_redirect [] = false
valid_redirect (c ∷ s) = if c == slash then elements_filled false s else not (has_slash (c ∷ s))

-- The bytes of a buffer that are a C string: those before the first NUL.
abbrev pub c_string : List ℕ → List ℕ
c_string [] = []
c_string (c ∷ s) = if c == 0 then [] else c ∷ c_string s

-- ovl_get_redirect_xattr, by what ovl_getxattr gives; `none` is no redirect. The buffer is longer
-- than the attribute and zeroed, so that a NUL follows. An attribute that begins with a NUL passes.
unfoldable pub get_redirect_xattr : Res (List ℕ) → Res (Option (List ℕ))
get_redirect_xattr (err e) = if e == enodata then ok none else err e
get_redirect_xattr (ok buf) =
    let s = c_string buf in
    if is_nil buf
    then err einval
    else if is_nil s || valid_redirect s
    then ok (some s)
    else err einval

-- The result of a walk along a name: a return value, one of the two WARN_ONs, or no fuel.
pub data Walked {ℓ} (A : Type ℓ) : Type ℓ where
  done : Res (Option A) → Walked A
  off_rails : Walked A
  loops : Walked A

-- ovl_check_redirect with a redirect `buf`.
unfoldable pub redirect_to : List ℕ → Look → ℕ → List ℕ → Look
redirect_to buf d prelen post =
    let path = if is_absolute buf then buf ++ post else take prelen d.name ++ (buf ++ post) in
    record d { name = path; redirect = some path; stop = if is_absolute buf then false else d.stop }

-- How far a walk along a name has come: `rem` bytes of the name are left. `first` bytes are before
-- them, `this` is the next element, and `next` is what follows it.
abbrev pub rest_of : List ℕ → ℕ → List ℕ
rest_of name rem = drop (length name - rem) name

module _ (l : Layers) where
  -- ovl_check_dir_xattr of the opaque attribute, on a directory: it is "y".
  abbrev pub is_y : Res (List ℕ) → Bool
  is_y (ok (c ∷ [])) = c == b'y'
  is_y _ = false

  abbrev pub has_metacopy : Res (List ℕ) → Res Bool
  has_metacopy (ok _) = ok true
  has_metacopy (err e) = if e == enodata || e == eopnotsupp then ok false else err e

  -- ovl_check_metacopy_xattr
  unfoldable pub check_metacopy_xattr : l.Dentry → Res Bool
  check_metacopy_xattr this =
      if not (l.is_reg this) then ok false else has_metacopy (l.metacopy_xattr this)

  abbrev pub followed_to :
      l.Dentry → Look → ℕ → List ℕ → Res (Option (List ℕ)) → Res (Option l.Dentry) × Look
  followed_to this d prelen post (err e) = (err e, d)
  followed_to this d prelen post (ok none) = (ok (some this), d)
  followed_to this d prelen post (ok (some buf)) = (ok (some this), redirect_to buf d prelen post)

  -- ovl_check_redirect, and the end of ovl_lookup_single.
  unfoldable pub check_redirect : l.Dentry → Look → ℕ → List ℕ → Res (Option l.Dentry) × Look
  check_redirect this d prelen post =
      followed_to this d prelen post (get_redirect_xattr (l.redirect_xattr this))

  abbrev pub single_meta : l.Dentry → Look → ℕ → List ℕ → Res Bool → Res (Option l.Dentry) × Look
  single_meta this d prelen post (err e) = (err e, d)
  single_meta this d prelen post (ok m) =
      let d' = record d { metacopy = m; stop = not m } in
      if not m || d.last then (ok (some this), d') else check_redirect this d' prelen post

  -- A positive dentry that is no directory.
  unfoldable pub single_file : l.Dentry → Look → ℕ → List ℕ → Res (Option l.Dentry) × Look
  single_file this d prelen post =
      if d.is_dir || not (is_nil post)
      then (ok none, record d { stop = true })
      else single_meta this d prelen post (check_metacopy_xattr this)

  -- A directory.
  unfoldable pub single_dir : l.Dentry → Look → ℕ → List ℕ → Res (Option l.Dentry) × Look
  single_dir this d prelen post =
      let last_element = is_nil post in
      let d' = record d { is_dir = if last_element then true else d.is_dir } in
      if l.trap this
      then (err eloop, d)
      else if d.last
      then (ok (some this), d')
      else if is_y (l.opaque_xattr this)
      then (
        ok (some this),
        record d {
          is_dir = if last_element then true else d.is_dir;
          stop = true;
          opaque = if last_element then true else d.opaque;
        },
      )
      else check_redirect this d' prelen post

  unfoldable pub single_found : l.Dentry → Look → ℕ → List ℕ → Res (Option l.Dentry) × Look
  single_found this d prelen post =
      if not (l.positive this)
      then (ok none, d)
      else if l.weird this
      then (err eremote, d)
      else if l.whiteout this
      then (ok none, record d { stop = true; opaque = true })
      else if is_nil post && d.metacopy && not (l.is_reg this)
      then (ok none, record d { stop = true })
      else if not (l.can_lookup this)
      then single_file this d prelen post
      else single_dir this d prelen post

  abbrev pub single_of : Look → ℕ → List ℕ → Res l.Dentry → Res (Option l.Dentry) × Look
  single_of d prelen post (err e) =
      if e == enoent || e == enametoolong then (ok none, d) else (err e, d)
  single_of d prelen post (ok this) = single_found this d prelen post

  -- ovl_lookup_single: `name` in `base`, with `prelen` bytes of the path before it, `post` behind.
  unfoldable pub lookup_single :
      l.Dentry → Look → List ℕ → ℕ → List ℕ → Res (Option l.Dentry) × Look
  lookup_single base d name prelen post = single_of d prelen post (l.lookup_one base name)

  -- On to the next element, if there is a directory to go on from.
  abbrev pub onward :
      Option l.Dentry → Look → (l.Dentry → Look → Walked l.Dentry × Look) → Walked l.Dentry × Look
  onward none d go = (done (ok none), d)
  onward (some this) d go = if l.can_lookup this then go this d else (done (ok (some this)), d)

  -- Behind ovl_lookup_single in the loop: `end` says whether that was the last element, and `rem'`
  -- is what is left behind it.
  abbrev pub stepped :
      Bool
      → ℕ
      → Res (Option l.Dentry) × Look
      → (l.Dentry → Look → Walked l.Dentry × Look)
      → Walked l.Dentry × Look
  stepped end rem' (err e, d) go = (done (err e), d)
  stepped end rem' (ok o, d) go =
      if end
      then (done (ok o), d)
      else if leb (length d.name) rem'
      then (off_rails, d)
      else onward o d go

  -- The loop of ovl_lookup_layer: `rem` bytes of the path are left, and `base` is the dentry of
  -- those before. The path may change in the loop; what is left of it does not.
  unfoldable pub walk : ℕ → l.Dentry → ℕ → Look → Walked l.Dentry × Look
  walk zero base rem d = (loops, d)
  walk (suc fuel) base rem d =
      let s = rest_of d.name rem in
      let next = from_slash s in
      let rem' = sub64 rem (length (element s) + 1) in
      if not (get_or d.name (length d.name - rem - 1) 0 == slash)
      then (off_rails, d)
      else stepped (is_nil next) rem' (lookup_single base d (element s) (length d.name - rem) next)
          (λ this d'. walk fuel this rem' d')

  -- ovl_lookup_layer
  unfoldable pub lookup_layer : l.Dentry → Look → Walked l.Dentry × Look
  lookup_layer base d =
      let single = lookup_single base d d.name 0 [] in
      let path = walk (length d.name) base (length d.name - 1) d in
      if not (is_absolute d.name)
      then (done single.0, single.1)
      else if l.can_lookup base
      then path
      else (done (ok none), d)
