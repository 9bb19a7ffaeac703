-- ===== src/Mount/Config.antt =====
-- The mount options (super.c: ovl_next_opt, ovl_parse_redirect_mode, ovl_parse_opt; ovl_entry.h:
-- struct ovl_config).
pub mod Separate
pub mod Resolve
use fzz_overlay.Base.{
  ℕ, zero, suc, Bool, true, false, not, ◌&&◌, ◌||◌, List, [], ◌∷◌, Option, none, some, ◌==◌,
  if◌then◌else◌, length,
}
use fzz_overlay.Vfs.{Res, ok, err}
use fzz_overlay.Handle.{einval, enomem}
use fzz_overlay.Handle.Store.{bytes_eq}
use fzz_overlay.Dentry.{is_some}

abbrev pub backslash : ℕ
backslash = 92

abbrev pub comma : ℕ
comma = 44

pub data Xino : Type 0 where
  xino_off xino_auto xino_on : Xino

-- struct ovl_config
pub record Config : Type 0 where
  pub lowerdir : Option (List ℕ)
  pub upperdir : Option (List ℕ)
  pub workdir : Option (List ℕ)
  pub default_permissions : Bool
  pub redirect_dir : Bool
  pub redirect_follow : Bool
  pub redirect_mode : List ℕ
  pub index : Bool
  pub nfs_export : Bool
  pub xino : Xino
  pub metacopy : Bool

-- An option as match_token tells it from ovl_tokens, with its argument.
pub data Token : Type 0 where
  lowerdir_opt upperdir_opt workdir_opt redirect_dir_opt : List ℕ → Token
  default_permissions_opt unknown_opt : Token
  index_opt nfs_export_opt metacopy_opt : Bool → Token
  xino_opt : Xino → Token

-- The kernel's match_token and string copies, and the parameters of the module.
pub record Parser : Type 0 where
  pub token : List ℕ → Token
  pub copied : List ℕ → Bool  -- match_strdup of an argument
  pub mode_copied : Bool  -- kstrdup of the default mode
  pub default_mode : List ℕ  -- ovl_redirect_mode_def
  pub always_follow : Bool  -- ovl_redirect_always_follow

abbrev pub push_byte : ℕ → List ℕ × Option (List ℕ) → List ℕ × Option (List ℕ)
push_byte c (piece, rest) = (c ∷ piece, rest)

-- ovl_next_opt on a string: the option, and what is left. `escaped` says that a backslash is before.
unfoldable pub next_opt : Bool → List ℕ → List ℕ × Option (List ℕ)
next_opt escaped [] = ([], none)
next_opt escaped (c ∷ s) =
    let plain = push_byte c (next_opt false s) in
    let skipped = push_byte c (next_opt true s) in
    if escaped
    then plain
    else if c == backslash
    then skipped
    else if c == comma
    then ([], some s)
    else plain

abbrev pub mode_on : List ℕ
mode_on = b'o' ∷ b'n' ∷ []

abbrev pub mode_off : List ℕ
mode_off = b'o' ∷ b'f' ∷ b'f' ∷ []

abbrev pub mode_follow : List ℕ
mode_follow = b'f' ∷ b'o' ∷ b'l' ∷ b'l' ∷ b'o' ∷ b'w' ∷ []

abbrev pub mode_nofollow : List ℕ
mode_nofollow = b'n' ∷ b'o' ∷ mode_follow

-- The configuration while the options are read, and the two flags of the loop.
pub record Parsing : Type 0 where
  pub config : Config
  pub metacopy_seen : Bool
  pub redirect_seen : Bool

abbrev pub opt_length : Option (List ℕ) → ℕ
opt_length none = 0
opt_length (some s) = suc (length s)

module _ (k : Parser) where
  -- ovl_parse_redirect_mode
  unfoldable pub parse_redirect_mode : Config → List ℕ → Res Config
  parse_redirect_mode c mode =
      if bytes_eq mode mode_on
      then ok (record c { redirect_dir = true; redirect_follow = true })
      else if bytes_eq mode mode_follow
      then ok (record c { redirect_follow = true })
      else if bytes_eq mode mode_off
      then ok (if k.always_follow then record c { redirect_follow = true } else c)
      else if not (bytes_eq mode mode_nofollow)
      then err einval
      else ok c

  abbrev pub if_copied : List ℕ → Parsing → Res Parsing
  if_copied s p = if k.copied s then ok p else err enomem

  -- The switch of ovl_parse_opt.
  unfoldable pub take_option : Parsing → Token → Res Parsing
  take_option p (upperdir_opt s) =
      if_copied s (record p { config = record p.config { upperdir = some s } })
  take_option p (lowerdir_opt s) =
      if_copied s (record p { config = record p.config { lowerdir = some s } })
  take_option p (workdir_opt s) =
      if_copied s (record p { config = record p.config { workdir = some s } })
  take_option p default_permissions_opt =
      ok (record p { config = record p.config { default_permissions = true } })
  take_option p (redirect_dir_opt s) =
      if_copied s
        (record p { config = record p.config { redirect_mode = s }; redirect_seen = true })
  take_option p (index_opt b) = ok (record p { config = record p.config { index = b } })
  take_option p (nfs_export_opt b) = ok (record p { config = record p.config { nfs_export = b } })
  take_option p (xino_opt x) = ok (record p { config = record p.config { xino = x } })
  take_option p (metacopy_opt b) = ok (record p {
    config = record p.config { metacopy = b };
    metacopy_seen = if b then true else p.metacopy_seen;
  })
  take_option p unknown_opt = err einval

  abbrev pub take_piece : Parsing → List ℕ → Res Parsing
  take_piece p [] = ok p
  take_piece p (c ∷ s) = take_option p (k.token (c ∷ s))

  abbrev pub then_parse : Res Parsing → (Parsing → Res (Option Parsing)) → Res (Option Parsing)
  then_parse (err e) go = err e
  then_parse (ok p) go = go p

  -- The loop of ovl_parse_opt; `ok none` is no fuel.
  unfoldable pub parse_loop : ℕ → Option (List ℕ) → Parsing → Res (Option Parsing)
  parse_loop zero opt p = ok none
  parse_loop (suc fuel) none p = ok (some p)
  parse_loop (suc fuel) (some s) p =
      then_parse (take_piece p (next_opt false s).0) (λ q. parse_loop fuel (next_opt false s).1 q)

  -- A work directory is dropped where there is no upper one.
  abbrev pub drop_workdir : Config → Config
  drop_workdir c = if not (is_some c.upperdir) then record c { workdir = none } else c

  abbrev pub resolve_metacopy : Bool → Bool → Config → Res Config
  resolve_metacopy metacopy_seen redirect_seen c =
      if c.metacopy && not c.redirect_dir
      then (if metacopy_seen && redirect_seen
          then err einval
          else if redirect_seen
          then ok (record c { metacopy = false })
          else ok (record c { redirect_follow = true; redirect_dir = true }))
      else ok c

  abbrev pub with_mode : Bool → Bool → Res Config → Res Config
  with_mode metacopy_seen redirect_seen (err e) = err e
  with_mode metacopy_seen redirect_seen (ok c) = resolve_metacopy metacopy_seen redirect_seen (
      if not (is_some c.upperdir) && c.redirect_follow then record c { redirect_dir = true } else c)

  -- The part of ovl_parse_opt behind the loop.
  unfoldable pub resolve : Parsing → Res Config
  resolve p =
      let c = drop_workdir p.config in
      with_mode p.metacopy_seen p.redirect_seen (parse_redirect_mode c c.redirect_mode)

  abbrev pub resolved_as : Res Config → Res (Option Config)
  resolved_as (err e) = err e
  resolved_as (ok c) = ok (some c)

  abbrev pub resolved : Res (Option Parsing) → Res (Option Config)
  resolved (err e) = err e
  resolved (ok none) = ok none
  resolved (ok (some p)) = resolved_as (resolve p)

  abbrev pub started : Config → Parsing
  started c = record {
    config = record c { redirect_mode = k.default_mode };
    metacopy_seen = false;
    redirect_seen = false;
  }

  -- ovl_parse_opt
  unfoldable pub parse_opt : Option (List ℕ) → Config → Res (Option Config)
  parse_opt opt c =
      if not k.mode_copied
      then err enomem
      else resolved (parse_loop (suc (opt_length opt)) opt (started c))
