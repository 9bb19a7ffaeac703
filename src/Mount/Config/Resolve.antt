-- ===== src/Mount/Config/Resolve.antt =====
-- What the options come to (super.c: ovl_parse_opt).
use fzz_overlay.Base.{
  ℕ, zero, suc, ◌≡◌, refl, sym, ap, inl, inr, Bool, Bool-cases, true, false, not, ◌&&◌, List, [],
  ◌∷◌, Option, none, some, if◌then◌else◌, arith,
}
use fzz_overlay.Vfs.{Res, ok, err}
use fzz_overlay.Handle.Store.{bytes_eq}
use fzz_overlay.Dentry.{is_some}
use fzz_overlay.Mount.Config.{
  Config, Parsing, Parser, Token, upperdir_opt, lowerdir_opt, workdir_opt, redirect_dir_opt,
  default_permissions_opt, unknown_opt, index_opt, nfs_export_opt, metacopy_opt, xino_opt, next_opt,
  take_option, take_piece, then_parse, parse_loop, resolve, resolved, started, resolved_as,
  opt_length, parse_opt, mode_on, mode_off, mode_follow, mode_nofollow, parse_redirect_mode,
  drop_workdir, resolve_metacopy, with_mode, if_copied,
}

-- Nothing is said of redirects yet.
abbrev pub Fresh : Config → Type 0
Fresh c = (c.redirect_dir ≡ false) × (c.redirect_follow ≡ false)

-- The options agree: metadata-only copy-up needs redirects, redirects are followed where they are
-- made, and a work directory goes with an upper one.
abbrev pub Agrees : Config → Type 0
Agrees c =
    (c.metacopy ≡ true → c.redirect_dir ≡ true)
    × (c.redirect_dir ≡ true → c.redirect_follow ≡ true)
    × (c.upperdir ≡ none → c.workdir ≡ none)

-- The second and the third part.
abbrev Follows : Config → Type 0
Follows c =
    (c.redirect_dir ≡ true → c.redirect_follow ≡ true) × (c.upperdir ≡ none → c.workdir ≡ none)

module _ (k : Parser) where
  if_copied-Fresh :
      (s : List ℕ) (p q : Parsing) → if_copied k s p ≡ ok q → Fresh p.config → Fresh q.config
  if_copied-Fresh s p q h f = elim (Bool-cases (k.copied s)) [
    | inl e ↦ let same : p ≡ q = ground (arith, e, h) in rw (sym same) f
    | inr e ↦ absurd (ground (arith, e, h))
  ]

  ok-Fresh : (p q : Parsing) → ok p ≡ ok q → Fresh p.config → Fresh q.config
  ok-Fresh p q h f = let same : p ≡ q = cc in rw (sym same) f

  take_option-Fresh :
      (p q : Parsing) (t : Token) → take_option k p t ≡ ok q → Fresh p.config → Fresh q.config
  unfolding take_option
  take_option-Fresh p q (upperdir_opt s) h f =
      if_copied-Fresh s (record p { config = record p.config { upperdir = some s } }) q h f
  take_option-Fresh p q (lowerdir_opt s) h f =
      if_copied-Fresh s (record p { config = record p.config { lowerdir = some s } }) q h f
  take_option-Fresh p q (workdir_opt s) h f =
      if_copied-Fresh s (record p { config = record p.config { workdir = some s } }) q h f
  take_option-Fresh p q (redirect_dir_opt s) h f =
      if_copied-Fresh s
        (record p { config = record p.config { redirect_mode = s }; redirect_seen = true }) q h f
  take_option-Fresh p q default_permissions_opt h f =
      ok-Fresh (record p { config = record p.config { default_permissions = true } }) q h f
  take_option-Fresh p q unknown_opt h f = absurd (ground (arith, h))
  take_option-Fresh p q (index_opt b) h f =
      ok-Fresh (record p { config = record p.config { index = b } }) q h f
  take_option-Fresh p q (nfs_export_opt b) h f =
      ok-Fresh (record p { config = record p.config { nfs_export = b } }) q h f
  take_option-Fresh p q (metacopy_opt b) h f =
      ok-Fresh
        (record p {
          config = record p.config { metacopy = b };
          metacopy_seen = if b then true else p.metacopy_seen;
        })
        q h f
  take_option-Fresh p q (xino_opt x) h f =
      ok-Fresh (record p { config = record p.config { xino = x } }) q h f

  take_piece-Fresh :
      (p q : Parsing) (s : List ℕ) → take_piece k p s ≡ ok q → Fresh p.config → Fresh q.config
  take_piece-Fresh p q [] h f = ok-Fresh p q h f
  take_piece-Fresh p q (c ∷ s) h f = take_option-Fresh p q (k.token (c ∷ s)) h f

  then_parse-Fresh :
      (p q : Parsing) (s : List ℕ) (r : Res Parsing) (go : Parsing → Res (Option Parsing))
      → take_piece k p s ≡ r
      → Fresh p.config
      → ((t : Parsing) → Fresh t.config → go t ≡ ok (some q) → Fresh q.config)
      → then_parse k r go ≡ ok (some q)
      → Fresh q.config
  then_parse-Fresh p q s (err e) go t f ih h = absurd (ground (arith, h))
  then_parse-Fresh p q s (ok r) go t f ih h = ih r (take_piece-Fresh p r s t f) h

  parse_loop-Fresh :
      (fuel : ℕ) (opt : Option (List ℕ)) (p q : Parsing)
      → Fresh p.config
      → parse_loop k fuel opt p ≡ ok (some q)
      → Fresh q.config
  unfolding parse_loop
  parse_loop-Fresh zero opt p q f h = absurd (ground (arith, h))
  parse_loop-Fresh (suc fuel) none p q f h = let same : p ≡ q = cc in rw (sym same) f
  parse_loop-Fresh (suc fuel) (some s) p q f h =
      then_parse-Fresh p q (next_opt false s).0 (take_piece k p (next_opt false s).0)
        (λ t. parse_loop k fuel (next_opt false s).1 t) refl f
        (λ t g. parse_loop-Fresh fuel (next_opt false s).1 t q g) h

  parse_redirect_mode-Follows :
      (c d : Config) (m : List ℕ)
      → Fresh c
      → (c.upperdir ≡ none → c.workdir ≡ none)
      → parse_redirect_mode k c m ≡ ok d
      → Follows d
  unfolding parse_redirect_mode
  parse_redirect_mode-Follows c d m f w h = elim (Bool-cases (bytes_eq m mode_on)) [
    | inl e ↦
        let same : record c { redirect_dir = true; redirect_follow = true } ≡ d =
          ground (arith, e, h) in
        rw (sym same) (λ _. refl, w)
    | inr e ↦ elim (Bool-cases (bytes_eq m mode_follow)) [
      | inl e2 ↦
          let same : record c { redirect_follow = true } ≡ d = ground (arith, e, e2, h) in
          rw (sym same) (λ _. refl, w)
      | inr e2 ↦ elim (Bool-cases (bytes_eq m mode_off)) [
        | inl e3 ↦ elim (Bool-cases k.always_follow) [
          | inl a ↦
              let same : record c { redirect_follow = true } ≡ d =
                ground (arith, e, e2, e3, a, h) in
              rw (sym same) (λ _. refl, w)
          | inr a ↦ unchanged (ground (arith, e, e2, e3, a, h))
        ]
        | inr e3 ↦ elim (Bool-cases (bytes_eq m mode_nofollow)) [
          | inl e4 ↦ unchanged (ground (arith, e, e2, e3, e4, h))
          | inr e4 ↦ absurd (ground (arith, e, e2, e3, e4, h))
        ]
      ]
    ]
  ]
    where
      unchanged : c ≡ d → Follows d
      unchanged same = rw (sym same) (λ r. absurd (ground (arith, f.0, r)), w)

  resolve_metacopy-Agrees :
      (ms rs : Bool) (c d : Config) → Follows c → resolve_metacopy k ms rs c ≡ ok d → Agrees d
  resolve_metacopy-Agrees ms rs c d f h = elim (Bool-cases (c.metacopy && not c.redirect_dir)) [
    | inr e ↦
        let same : c ≡ d = ground (arith, e, h) in
        rw (sym same) (λ m. ground (arith, e, m), f.0, f.1)
    | inl e ↦ elim (Bool-cases (ms && rs)) [
      | inl e2 ↦ absurd (ground (arith, e, e2, h))
      | inr e2 ↦ elim (Bool-cases rs) [
        | inl e3 ↦
            let same : record c { metacopy = false } ≡ d = ground (arith, e, e2, e3, h) in
            rw (sym same) (λ m. absurd (ground (arith, m)), f.0, f.1)
        | inr e3 ↦
            let same : record c { redirect_follow = true; redirect_dir = true } ≡ d =
              ground (arith, e, e2, e3, h) in
            rw (sym same) (λ _. refl, λ _. refl, f.1)
      ]
    ]
  ]

  lower_only-Follows :
      (c : Config)
      → Follows c
      → Follows (
          if not (is_some c.upperdir) && c.redirect_follow
          then record c { redirect_dir = true }
          else c)
  lower_only-Follows c f = elim (Bool-cases (not (is_some c.upperdir) && c.redirect_follow)) [
    | inl e ↦ rw e (λ _. ground (arith, e), f.1)
    | inr e ↦ rw e f
  ]

  drop_workdir-Fresh :
      (c : Config)
      → Fresh c
      → Fresh (drop_workdir k c)
        × ((drop_workdir k c).upperdir ≡ none → (drop_workdir k c).workdir ≡ none)
  drop_workdir-Fresh c f = elim (Bool-cases (is_some c.upperdir)) [
    | inl e ↦ simp e (f, λ u. absurd (ground (arith, e, u)))
    | inr e ↦ simp e (f, λ _. refl)
  ]

  with_mode-Agrees :
      (ms rs : Bool) (c d : Config) (m : List ℕ) (r : Res Config)
      → Fresh c
      → (c.upperdir ≡ none → c.workdir ≡ none)
      → parse_redirect_mode k c m ≡ r
      → with_mode k ms rs r ≡ ok d
      → Agrees d
  with_mode-Agrees ms rs c d m (err e) f w t h = absurd (ground (arith, h))
  with_mode-Agrees ms rs c d m (ok b) f w t h =
      resolve_metacopy-Agrees ms rs
        (if not (is_some b.upperdir) && b.redirect_follow
          then record b { redirect_dir = true }
          else b)
        d (lower_only-Follows b (parse_redirect_mode-Follows c b m f w t)) h

  resolve-Agrees : (p : Parsing) (d : Config) → Fresh p.config → resolve k p ≡ ok d → Agrees d
  unfolding resolve
  resolve-Agrees p d f h =
      let c = drop_workdir k p.config in
      let g = drop_workdir-Fresh p.config f in
      with_mode-Agrees p.metacopy_seen p.redirect_seen c d c.redirect_mode
        (parse_redirect_mode k c c.redirect_mode) g.0 g.1 refl h

  resolved_as-ok : (r : Res Config) (d : Config) → resolved_as k r ≡ ok (some d) → r ≡ ok d
  resolved_as-ok (err e) d h = absurd (ground (arith, h))
  resolved_as-ok (ok c) d h = let same : c ≡ d = cc in ap (λ t. ok t) same

  resolved-Agrees :
      (r : Res (Option Parsing)) (d : Config)
      → ((p : Parsing) → r ≡ ok (some p) → Fresh p.config)
      → resolved k r ≡ ok (some d)
      → Agrees d
  resolved-Agrees (err e) d f h = absurd (ground (arith, h))
  resolved-Agrees (ok none) d f h = absurd (ground (arith, h))
  resolved-Agrees (ok (some p)) d f h =
      resolve-Agrees p d (f p refl) (resolved_as-ok (resolve k p) d h)

  -- What ovl_parse_opt accepts, from a configuration that says nothing of redirects, agrees:
  -- metadata-only copy-up comes with redirects of directories, these are followed, and there is no
  -- work directory without an upper one.
  pub parse_opt-Agrees :
      (opt : Option (List ℕ)) (c d : Config) → Fresh c → parse_opt k opt c ≡ ok (some d) → Agrees d
  unfolding parse_opt
  parse_opt-Agrees opt c d f h = elim (Bool-cases k.mode_copied) [
    | inl e ↦
        resolved-Agrees (parse_loop k (suc (opt_length opt)) opt (started k c)) d
          (λ p. parse_loop-Fresh (suc (opt_length opt)) opt (started k c) p f) (simp e at h)
    | inr e ↦ absurd (ground (arith, e, h))
  ]
