-- ===== src/Readdir/Tree.antt =====
-- The tree of names that a merge of directories keeps (readdir.c: ovl_cache_entry_find_link,
-- ovl_cache_entry_find). A name is its bytes, none of them NUL.
use fzz_overlay.Base.{
  ℕ, ◌≡◌, ◌≢◌, ◌⊎◌, refl, sym, ap, inl, inr, Bool, Bool-cases, true, false, List, [], ◌∷◌, Option,
  none, some, ltb, ◌==◌, if◌then◌else◌, arith,
}

-- Where the search for a name goes on at a name of the tree.
pub data Side : Type 0 where
  left here right : Side

-- strncmp of the name's length, and the comparison of the lengths after it.
unfoldable pub side : List ℕ → List ℕ → Side
side [] [] = here
side [] (d ∷ t) = left
side (c ∷ s) [] = right
side (c ∷ s) (d ∷ t) = if ltb c d then left else if c == d then side s t else right

-- A tree whose nodes are linked as struct rb_node, without their colours.
pub data Tree : Type 0 where
  leaf : Tree
  node : Tree → List ℕ → Tree → Tree

abbrev pub go {ℓ} : {A : Type ℓ} → Side → A → A → A → A
go left l h r = l
go here l h r = h
go right l h r = r

-- ovl_cache_entry_find
unfoldable pub find : Tree → List ℕ → Bool
find leaf n = false
find (node a x b) n = let l = find a n in let r = find b n in go (side n x) l true r

abbrev pub option_map : (Tree → Tree) → Option Tree → Option Tree
option_map f none = none
option_map f (some t) = some (f t)

-- ovl_cache_entry_find_link and rb_link_node: the tree with the name linked where the search ends,
-- or none if the name is found.
unfoldable pub link : Tree → List ℕ → Option Tree
link leaf n = some (node leaf n leaf)
link (node a x b) n =
    let l = option_map (λ t. node t x b) (link a n) in
    let r = option_map (λ t. node a x t) (link b n) in go (side n x) l none r

pub Side-cases : (s : Side) → (s ≡ left) ⊎ (s ≡ here) ⊎ (s ≡ right)
Side-cases left = inl refl
Side-cases here = inr (inl refl)
Side-cases right = inr (inr refl)

pub side_refl : (n : List ℕ) → side n n ≡ here
unfolding side
side_refl [] = refl
side_refl (c ∷ s) =
    let a : ltb c c ≡ false = ground arith in
    let b : (c == c) ≡ true = ground arith in rw (a, b) (side_refl s)

pub side_here : (n m : List ℕ) → side n m ≡ here → n ≡ m
unfolding side
side_here [] [] h = refl
side_here [] (d ∷ t) h = absurd (ground (arith, h))
side_here (c ∷ s) [] h = absurd (ground (arith, h))
side_here (c ∷ s) (d ∷ t) h = elim (Bool-cases (ltb c d)) [
  | inl e ↦ absurd (ground (arith, e, h))
  | inr e ↦ elim (Bool-cases (c == d)) [
    | inr f ↦ absurd (ground (arith, e, f, h))
    | inl f ↦
        let same : c ≡ d = ground (arith, f) in rw (same, side_here s t (simp (e, f) at h)) refl
  ]
]

-- All names of a tree are on one side of a name.
abbrev pub All : Side → List ℕ → Tree → Type 0
All s m leaf = Unit
All s m (node a x b) = All s m a × (side x m ≡ s) × All s m b

-- A search tree.
abbrev pub IsSearch : Tree → Type 0
IsSearch leaf = Unit
IsSearch (node a x b) = IsSearch a × All left x a × All right x b × IsSearch b

option_map-some :
    (f : Tree → Tree) (o : Option Tree) (t : Tree)
    → option_map f o ≡ some t
    → (u : Tree) × (o ≡ some u) × (t ≡ f u)
option_map-some f none t h = absurd (ground (arith, h))
option_map-some f (some u) t h = (u, refl, let same : f u ≡ t = cc in sym same)

link-All :
    (s : Side) (m n : List ℕ) (t t' : Tree)
    → link t n ≡ some t'
    → side n m ≡ s
    → All s m t
    → All s m t'
unfolding link
link-All s m n leaf t' h e a = let same : node leaf n leaf ≡ t' = cc in rw (sym same) (tt, e, tt)
link-All s m n (node a x b) t' h e al = elim (Side-cases (side n x)) [
  | inl k ↦
      let g = option_map-some (λ t. node t x b) (link a n) t' (simp k at h) in
      rw g.2 (link-All s m n a g.0 g.1 e al.0, al.1, al.2)
  | inr (inl k) ↦ absurd (ground (arith, k, h))
  | inr (inr k) ↦
      let g = option_map-some (λ t. node a x t) (link b n) t' (simp k at h) in
      rw g.2 (al.0, al.1, link-All s m n b g.0 g.1 e al.2)
]

-- A name that is linked leaves a search tree, in which it is found, and of the others those that
-- were.
pub link_lem :
    (t t' : Tree) (n : List ℕ)
    → link t n ≡ some t'
    → IsSearch t
    → IsSearch t'
      × (find t n ≡ false)
      × (find t' n ≡ true)
      × ((m : List ℕ) → m ≢ n → find t' m ≡ find t m)
unfolding link find
link_lem leaf t' n h s =
    let same : node leaf n leaf ≡ t' = cc in
    rw (sym same) (
      (tt, tt, tt, tt),
      refl,
      rw (side_refl n) refl,
      λ m ne. elim (Side-cases (side m n)) [
        | inl k ↦ rw k refl
        | inr (inl k) ↦ absurd (ne (side_here m n k))
        | inr (inr k) ↦ rw k refl
      ],
    )
link_lem (node a x b) t' n h s = elim (Side-cases (side n x)) [
  | inl k ↦
      let g = option_map-some (λ t. node t x b) (link a n) t' (simp k at h) in
      let ih = link_lem a g.0 n g.1 s.0 in
      rw g.2 (
        (ih.0, link-All left x n a g.0 g.1 k s.1, s.2, s.3),
        rw k ih.1,
        rw k ih.2,
        λ m ne. ap (λ r. go (side m x) r true (find b m)) (ih.3 m ne),
      )
  | inr (inl k) ↦ absurd (ground (arith, k, h))
  | inr (inr k) ↦
      let g = option_map-some (λ t. node a x t) (link b n) t' (simp k at h) in
      let ih = link_lem b g.0 n g.1 s.3 in
      rw g.2 (
        (s.0, s.1, link-All right x n b g.0 g.1 k s.2, ih.0),
        rw k ih.1,
        rw k ih.2,
        λ m ne. ap (λ r. go (side m x) (find a m) true r) (ih.3 m ne),
      )
]

-- A name that is not linked is there.
pub link_found : (t : Tree) (n : List ℕ) → link t n ≡ none → find t n ≡ true
unfolding link find
link_found leaf n h = absurd (ground (arith, h))
link_found (node a x b) n h = elim (Side-cases (side n x)) [
  | inl k ↦ rw k (link_found a n (option_map_none (λ t. node t x b) (link a n) (simp k at h)))
  | inr (inl k) ↦ rw k refl
  | inr (inr k) ↦ rw k (link_found b n (option_map_none (λ t. node a x t) (link b n) (simp k at h)))
]
  where
    option_map_none : (f : Tree → Tree) (o : Option Tree) → option_map f o ≡ none → o ≡ none
    option_map_none f none h = refl
    option_map_none f (some u) h = absurd (ground (arith, h))
