-- ===== src/Lookup/Rails.antt =====
-- ovl_lookup_layer (namei.c) walks along a path that may change under it.
use fzz_overlay.Base.{
  ℕ, zero, suc, ◌+◌, ◌-◌, ◌^◌, ◌<◌, ◌≡◌, ◌≢◌, ◌⊎◌, sym, ap, ◌∙◌, Bool, Bool-cases, true, false, not,
  ◌&&◌, ◌||◌, List, [], ◌∷◌, ◌++◌, Option, none, some, arith, ◌==◌, leb, length, get_or, take, drop,
  inl, inr, refl, length-append,
}
use fzz_overlay.Base.Words.{sub64}
use fzz_overlay.Vfs.{Res, ok, err}
use fzz_overlay.Block.Copy.Range.{Res-cases}
use fzz_overlay.Lookup.{
  Layers, Look, Walked, off_rails, loops, slash, element, from_slash, is_nil, is_absolute, is_y,
  enoent, enametoolong, rest_of, redirect_to, check_redirect, followed_to, check_metacopy_xattr,
  single_file, single_dir, single_found, single_meta, lookup_single, stepped, walk, lookup_layer,
  get_redirect_xattr,
}

append_assoc : (xs ys zs : List ℕ) → (xs ++ ys) ++ zs ≡ xs ++ (ys ++ zs)
append_assoc [] ys zs = refl
append_assoc (x ∷ xs) ys zs = ap (λ t. x ∷ t) (append_assoc xs ys zs)

drop-append_suc : (pre s : List ℕ) (c : ℕ) → drop (suc (length pre)) (pre ++ (c ∷ s)) ≡ s
drop-append_suc [] s c = refl
drop-append_suc (x ∷ pre) s c = drop-append_suc pre s c

get_or-append_mid : (pre s : List ℕ) (c : ℕ) → get_or (pre ++ (c ∷ s)) (length pre) 0 ≡ c
get_or-append_mid [] s c = refl
get_or-append_mid (x ∷ pre) s c = get_or-append_mid pre s c

pub element-from_slash : (s : List ℕ) → element s ++ from_slash s ≡ s
element-from_slash [] = refl
element-from_slash (c ∷ s) = elim (Bool-cases (c == slash)) [
  | inl e ↦ rw e refl
  | inr e ↦ rw e (ap (λ t. c ∷ t) (element-from_slash s))
]

from_slash-cases : (s : List ℕ) → (from_slash s ≡ []) ⊎ ((t : List ℕ) × (from_slash s ≡ slash ∷ t))
from_slash-cases [] = inl refl
from_slash-cases (c ∷ s) = elim (Bool-cases (c == slash)) [
  | inl e ↦ rw e (inr (s, ap (λ (k : ℕ). k ∷ s) (ground (arith, e))))
  | inr e ↦ rw e (from_slash-cases s)
]

absolute_name : (n : List ℕ) → is_absolute n ≡ true → (s : List ℕ) × (n ≡ slash ∷ s)
absolute_name [] h = absurd (ground (arith, h))
absolute_name (c ∷ s) h = (s, ap (λ (k : ℕ). k ∷ s) (ground (arith, h)))

-- The path `new` is `old`, or it ends with `post`.
abbrev Follows : List ℕ → List ℕ → List ℕ → Type 0
Follows old post new = (new ≡ old) ⊎ ((b : List ℕ) × (new ≡ b ++ post))

module _ (l : Layers) where
  redirect_to-name :
      (buf : List ℕ) (d : Look) (prelen : ℕ) (post : List ℕ)
      → (b : List ℕ) × ((redirect_to buf d prelen post).name ≡ b ++ post)
  unfolding redirect_to
  redirect_to-name buf d prelen post = elim (Bool-cases (is_absolute buf)) [
    | inl e ↦ rw e (buf, refl)
    | inr e ↦ rw e (take prelen d.name ++ buf, sym (append_assoc (take prelen d.name) buf post))
  ]

  check_redirect-name :
      (this : l.Dentry) (d : Look) (prelen : ℕ) (post : List ℕ)
      → Follows d.name post (check_redirect l this d prelen post).1.name
  unfolding check_redirect
  check_redirect-name this d prelen post = followed (get_redirect_xattr (l.redirect_xattr this))
    where
      followed :
          (r : Res (Option (List ℕ)))
          → Follows d.name post (followed_to l this d prelen post r).1.name
      followed (err e) = inl refl
      followed (ok none) = inl refl
      followed (ok (some buf)) = inr (redirect_to-name buf d prelen post)

  single_meta-name :
      (this : l.Dentry) (d : Look) (prelen : ℕ) (post : List ℕ) (r : Res Bool)
      → Follows d.name post (single_meta l this d prelen post r).1.name
  single_meta-name this d prelen post (err e) = inl refl
  single_meta-name this d prelen post (ok m) = elim (Bool-cases (not m || d.last)) [
    | inl e ↦ rw e (inl refl)
    | inr e ↦ rw e (check_redirect-name this (record d { metacopy = m; stop = not m }) prelen post)
  ]

  single_file-name :
      (this : l.Dentry) (d : Look) (prelen : ℕ) (post : List ℕ)
      → Follows d.name post (single_file l this d prelen post).1.name
  unfolding single_file
  single_file-name this d prelen post = elim (Bool-cases (d.is_dir || not (is_nil post))) [
    | inl e ↦ rw e (inl refl)
    | inr e ↦ rw e (single_meta-name this d prelen post (check_metacopy_xattr l this))
  ]

  single_dir-name :
      (this : l.Dentry) (d : Look) (prelen : ℕ) (post : List ℕ)
      → Follows d.name post (single_dir l this d prelen post).1.name
  unfolding single_dir
  single_dir-name this d prelen post = elim (Bool-cases (l.trap this)) [
    | inl t ↦ rw t (inl refl)
    | inr t ↦ rw t (elim (Bool-cases d.last) [
      | inl e ↦ simp e (inl refl)
      | inr e ↦ simp e (elim (Bool-cases (is_y l (l.opaque_xattr this))) [
        | inl o ↦ rw o (inl refl)
        | inr o ↦ rw o (check_redirect-name this _ prelen post)
      ])
    ])
  ]

  single_found-name :
      (this : l.Dentry) (d : Look) (prelen : ℕ) (post : List ℕ)
      → Follows d.name post (single_found l this d prelen post).1.name
  unfolding single_found
  single_found-name this d prelen post = elim (Bool-cases (l.positive this)) [
    | inr p ↦ rw p (inl refl)
    | inl p ↦ rw p (elim (Bool-cases (l.weird this)) [
      | inl w ↦ rw w (inl refl)
      | inr w ↦ rw w (elim (Bool-cases (l.whiteout this)) [
        | inl o ↦ rw o (inl refl)
        | inr o ↦ rw o (elim (Bool-cases (is_nil post && d.metacopy && not (l.is_reg this))) [
          | inl m ↦ rw m (inl refl)
          | inr m ↦ rw m (elim (Bool-cases (l.can_lookup this)) [
            | inl k ↦ rw k (single_dir-name this d prelen post)
            | inr k ↦ rw k (single_file-name this d prelen post)
          ])
        ])
      ])
    ])
  ]

  -- A step along the path leaves what follows the element.
  lookup_single-name :
      (base : l.Dentry) (d : Look) (name : List ℕ) (prelen : ℕ) (post : List ℕ)
      → Follows d.name post (lookup_single l base d name prelen post).1.name
  unfolding lookup_single
  lookup_single-name base d name prelen post = elim (Res-cases (l.lookup_one base name)) [
    | inl (this, e) ↦ rw e (single_found-name this d prelen post)
    | inr (x, e) ↦ rw e (elim (Bool-cases (x == enoent || x == enametoolong)) [
      | inl q ↦ rw q (inl refl)
      | inr q ↦ rw q (inl refl)
    ])
  ]

  -- There is a slash before the `rem` bytes that are left.
  abbrev IsOnRails : Look → ℕ → Type 0
  IsOnRails d rem = (pre : List ℕ) × (s : List ℕ) × (d.name ≡ pre ++ (slash ∷ s)) × (length s ≡ rem)

  on_rails :
      (name pre s : List ℕ) (rem : ℕ)
      → name ≡ pre ++ (slash ∷ s)
      → length s ≡ rem
      → (rest_of name rem ≡ s) × (get_or name (length name - rem - 1) 0 ≡ slash)
  on_rails name pre s rem e h = rw e (
      rw (← h) (
        ap (λ (k : ℕ). drop k (pre ++ (slash ∷ s))) one ∙ drop-append_suc pre s slash,
        ap (λ (k : ℕ). get_or (pre ++ (slash ∷ s)) k 0) two ∙ get_or-append_mid pre s slash,
      ))
    where
      one : length (pre ++ (slash ∷ s)) - length s ≡ suc (length pre)
      one = omega (arith, length-append pre (slash ∷ s))

      two : length (pre ++ (slash ∷ s)) - length s - 1 ≡ length pre
      two = omega (arith, length-append pre (slash ∷ s))

  -- Behind an element that a slash follows, the walk is on its rails again, and has come on.
  step_on :
      (base : l.Dentry) (d : Look) (pre s t : List ℕ) (prelen rem : ℕ)
      → d.name ≡ pre ++ (slash ∷ s)
      → length s ≡ rem
      → rem < 2 ^ 64
      → from_slash s ≡ slash ∷ t
      → let d' = (lookup_single l base d (element s) prelen (from_slash s)).1 in
        let rem' = sub64 rem (length (element s) + 1) in
        IsOnRails d' rem' × (rem' < rem) × (leb (length d'.name) rem' ≡ false)
  step_on base d pre s t prelen rem e h hb f =
      let d' = (lookup_single l base d (element s) prelen (from_slash s)).1 in
      let split = element-from_slash s in
      let long : length s ≡ length (element s) + (length t + 1) = omega (
        arith,
        ap (λ (x : List ℕ). length x) split,
        length-append (element s) (from_slash s),
        ap (λ (x : List ℕ). length x) f,
      ) in
      let ends : (b : List ℕ) × (d'.name ≡ b ++ (slash ∷ t)) =
        elim (lookup_single-name base d (element s) prelen (from_slash s)) [
          | inr (b, q) ↦ (b, q ∙ ap (λ (x : List ℕ). b ++ x) f)
          | inl q ↦ (
            (pre ++ (slash ∷ [])) ++ element s,
            q
                ∙ e
                ∙ ap (λ (x : List ℕ). pre ++ (slash ∷ x))
                    (sym split ∙ ap (λ (x : List ℕ). element s ++ x) f)
                ∙ sym (
                    append_assoc (pre ++ (slash ∷ [])) (element s) (slash ∷ t)
                    ∙ append_assoc pre (slash ∷ []) (element s ++ (slash ∷ t))),
          )
        ] in
      let back : length t ≡ sub64 rem (length (element s) + 1) = omega (arith, long, h, hb) in
      let size : length d'.name ≡ length ends.0 + (length t + 1) =
        omega (arith, ap (λ (x : List ℕ). length x) ends.1, length-append ends.0 (slash ∷ t)) in
      ((ends.0, t, ends.1, back), omega (arith, back, long, h), ground (arith, size, back))

  abbrev Ends : Walked l.Dentry × Look → Type 0
  Ends w = (w.0 ≢ off_rails) × (w.0 ≢ loops)

  stepped_lem :
      (end : Bool) (rem' : ℕ) (r : Res (Option l.Dentry) × Look)
      (go : l.Dentry → Look → Walked l.Dentry × Look)
      → (end ≡ false
          → (leb (length r.1.name) rem' ≡ false) × ((this : l.Dentry) → Ends (go this r.1)))
      → Ends (stepped l end rem' r go)
  stepped_lem end rem' (err e, d) go h = (λ z. cc, λ z. cc)
  stepped_lem true rem' (ok o, d) go h = (λ z. cc, λ z. cc)
  stepped_lem false rem' (ok none, d) go h = rw (h refl).0 (λ z. cc, λ z. cc)
  stepped_lem false rem' (ok (some this), d) go h =
      rw (h refl).0 (elim (Bool-cases (l.can_lookup this)) [
        | inl e ↦ rw e ((h refl).1 this)
        | inr e ↦ rw e (λ z. cc, λ z. cc)
      ])

  walk_lem :
      (fuel : ℕ) (base : l.Dentry) (rem : ℕ) (d : Look)
      → rem < fuel
      → rem < 2 ^ 64
      → IsOnRails d rem
      → Ends (walk l fuel base rem d)
  unfolding walk
  walk_lem zero base rem d hf hb i = absurd (omega arith)
  walk_lem (suc fuel) base rem d hf hb (pre, s, e, h) =
      let here = on_rails d.name pre s rem e h in
      let r = rest_of d.name rem in
      let e' : d.name ≡ pre ++ (slash ∷ r) =
        e ∙ ap (λ (x : List ℕ). pre ++ (slash ∷ x)) (sym here.0) in
      let h' : length r ≡ rem = ap (λ (x : List ℕ). length x) here.0 ∙ h in
      let prelen = length d.name - rem in
      let single = lookup_single l base d (element r) prelen (from_slash r) in
      let rem' = sub64 rem (length (element r) + 1) in
      rw here.1 (
        stepped_lem (is_nil (from_slash r)) rem' single (λ this d'. walk l fuel this rem' d')
          (λ q. elim (from_slash-cases r) [
            | inl f ↦ cc (ap (λ (x : List ℕ). is_nil x) f)
            | inr (t, f) ↦
                let on = step_on base d pre r t prelen rem e' h' hb f in
                (
                  on.2,
                  λ this.
                      walk_lem fuel this rem' single.1 (omega (arith, on.1)) (omega (arith, on.1))
                        on.0,
                )
          ]))

  -- ovl_lookup_layer on a name of less than 2 ^ 64 bytes ends, and neither of its two checks that
  -- it went off the rails fails, although a redirect that is met changes the path that is walked.
  pub lookup_layer_ends :
      (base : l.Dentry) (d : Look)
      → length d.name < 2 ^ 64
      → ((lookup_layer l base d).0 ≢ off_rails) × ((lookup_layer l base d).0 ≢ loops)
  unfolding lookup_layer
  lookup_layer_ends base d hb = elim (Bool-cases (is_absolute d.name)) [
    | inr e ↦ rw e (λ z. cc, λ z. cc)
    | inl e ↦ rw e (elim (Bool-cases (l.can_lookup base)) [
      | inr k ↦ rw k (λ z. cc, λ z. cc)
      | inl k ↦ rw k (
          let a = absolute_name d.name e in
          let n : length d.name ≡ length a.0 + 1 =
            omega (arith, ap (λ (x : List ℕ). length x) a.1) in
          walk_lem (length d.name) base (length d.name - 1) d (omega (arith, n)) (omega (arith, hb))
            ([], a.0, a.1, omega (arith, n)))
    ])
  ]
