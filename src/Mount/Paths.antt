-- ===== src/Mount/Paths.antt =====
-- The directories of a mount option (super.c: ovl_unescape, ovl_split_lowerdirs).
use fzz_overlay.Base.{
  ℕ, ◌≡◌, refl, sym, ap, ◌∙◌, inl, inr, Bool, Bool-cases, true, false, List, [], ◌∷◌, ◌++◌, ◌==◌,
  if◌then◌else◌,
}
use fzz_overlay.Mount.Config.{backslash}

abbrev pub colon : ℕ
colon = 58

-- ovl_unescape. `escaped` says that a backslash is before.
unfoldable pub unescape : Bool → List ℕ → List ℕ
unescape escaped [] = []
unescape escaped (c ∷ s) =
    let kept = c ∷ unescape false s in
    let dropped = unescape true s in
    if escaped then kept else if c == backslash then dropped else kept

abbrev pub onto_first : ℕ → List (List ℕ) → List (List ℕ)
onto_first c [] = (c ∷ []) ∷ []
onto_first c (d ∷ ds) = (c ∷ d) ∷ ds

-- ovl_split_lowerdirs: the strings it leaves between the NULs that it writes; it returns how many.
unfoldable pub split_lowerdirs : Bool → List ℕ → List (List ℕ)
split_lowerdirs escaped [] = [] ∷ []
split_lowerdirs escaped (c ∷ s) =
    let kept = onto_first c (split_lowerdirs false s) in
    let dropped = split_lowerdirs true s in
    let parted = [] ∷ split_lowerdirs false s in
    if escaped
    then kept
    else if c == backslash
    then dropped
    else if c == colon
    then parted
    else kept

-- A path with a backslash before each colon and backslash.
unfoldable pub escape : List ℕ → List ℕ
escape [] = []
escape (c ∷ s) =
    let rest = escape s in
    if c == backslash
    then backslash ∷ c ∷ rest
    else if c == colon
    then backslash ∷ c ∷ rest
    else c ∷ rest

-- The paths, escaped, with a colon between two.
unfoldable pub joined : List ℕ → List (List ℕ) → List ℕ
joined d [] = escape d
joined d (e ∷ ds) = escape d ++ (colon ∷ joined e ds)

abbrev before : List ℕ → List (List ℕ) → List (List ℕ)
before xs [] = xs ∷ []
before xs (d ∷ ds) = (xs ++ d) ∷ ds

-- A path that is escaped is what ovl_unescape gives back.
pub unescape-escape : (s : List ℕ) → unescape false (escape s) ≡ s
unfolding unescape escape
unescape-escape [] = refl
unescape-escape (c ∷ s) = elim (Bool-cases (c == backslash)) [
  | inl e ↦ rw e (ap (λ t. c ∷ t) (unescape-escape s))
  | inr e ↦ elim (Bool-cases (c == colon)) [
    | inl f ↦ rw (e, f) (ap (λ t. c ∷ t) (unescape-escape s))
    | inr f ↦ rw (e, f) (rw e (ap (λ t. c ∷ t) (unescape-escape s)))
  ]
]

onto_first-before :
    (c : ℕ) (xs : List ℕ) (ds : List (List ℕ)) → onto_first c (before xs ds) ≡ before (c ∷ xs) ds
onto_first-before c xs [] = refl
onto_first-before c xs (d ∷ ds) = refl

before-onto_first : (c : ℕ) (ds : List (List ℕ)) → before [] (onto_first c ds) ≡ onto_first c ds
before-onto_first c [] = refl
before-onto_first c (d ∷ ds) = refl

before-split_lowerdirs :
    (escaped : Bool) (s : List ℕ)
    → before [] (split_lowerdirs escaped s) ≡ split_lowerdirs escaped s
unfolding split_lowerdirs
before-split_lowerdirs escaped [] = refl
before-split_lowerdirs true (c ∷ s) = before-onto_first c (split_lowerdirs false s)
before-split_lowerdirs false (c ∷ s) = elim (Bool-cases (c == backslash)) [
  | inl e ↦ rw e (before-split_lowerdirs true s)
  | inr e ↦ elim (Bool-cases (c == colon)) [
    | inl f ↦ rw (e, f) refl
    | inr f ↦ rw (e, f) (before-onto_first c (split_lowerdirs false s))
  ]
]

split_lowerdirs-escape :
    (s rest : List ℕ)
    → split_lowerdirs false (escape s ++ rest) ≡ before s (split_lowerdirs false rest)
unfolding split_lowerdirs escape
split_lowerdirs-escape [] rest = sym (before-split_lowerdirs false rest)
split_lowerdirs-escape (c ∷ s) rest =
    let ih =
      ap (onto_first c) (split_lowerdirs-escape s rest)
      ∙ onto_first-before c s (split_lowerdirs false rest) in
    elim (Bool-cases (c == backslash)) [
      | inl e ↦ rw e ih
      | inr e ↦ elim (Bool-cases (c == colon)) [
        | inl f ↦ rw (e, f) ih
        | inr f ↦ rw (e, f) (rw (e, f) ih)
      ]
    ]

append-nil : (s : List ℕ) → s ++ [] ≡ s
append-nil [] = refl
append-nil (c ∷ s) = ap (λ t. c ∷ t) (append-nil s)

-- The lower directories of the option: paths that are escaped, with a colon between two, are split
-- into just these paths, with nothing of the escapes left.
pub split_lowerdirs-joined :
    (d : List ℕ) (ds : List (List ℕ)) → split_lowerdirs false (joined d ds) ≡ d ∷ ds
unfolding joined split_lowerdirs
split_lowerdirs-joined d [] =
    ap (split_lowerdirs false) (sym (append-nil (escape d)))
    ∙ (split_lowerdirs-escape d [] ∙ ap (λ t. t ∷ []) (append-nil d))
split_lowerdirs-joined d (e ∷ ds) =
    split_lowerdirs-escape d (colon ∷ joined e ds)
    ∙ rw (split_lowerdirs-joined e ds) (ap (λ t. t ∷ e ∷ ds) (append-nil d))
