-- ===== src/Readdir/Merge/Cells.antt =====
-- What stands for a name in the lists of a merge (readdir.c).
use fzz_overlay.Base.{
  ℕ, ◌+◌, ◌≡◌, ◌⊎◌, refl, sym, ap, ◌∙◌, inl, inr, Bool, Bool-cases, List, [], ◌∷◌, ◌++◌, Option,
  none, some, if◌then◌else◌, arith,
}
use fzz_overlay.Vfs.{Res, ok, err}
use fzz_overlay.Handle.Store.{bytes_eq}
use fzz_overlay.Readdir.Merge.{
  Dirent, CacheEntry, Rdd, extract, kept_before, mark_as, mark, moved, moved_in_front,
}

-- How many entries of a list have a name.
abbrev pub count : List ℕ → List CacheEntry → ℕ
count n [] = 0
count n (e ∷ es) = (if bytes_eq n e.name then 1 else 0) + count n es

-- An entry stands for what a real directory has, the upper one or another.
abbrev pub Stands : CacheEntry → List ℕ → Bool → Dirent → Type 0
Stands e n u x = (e.name ≡ n) × (e.is_upper ≡ u) × (e.real_ino ≡ x.ino) × (e.kind ≡ x.kind)

abbrev pub Has : List ℕ → Bool → Dirent → List CacheEntry → Type 0
Has n u x [] = ⊥
Has n u x (e ∷ es) = Stands e n u x ⊎ Has n u x es

pub count-append :
    (n : List ℕ) (es1 es2 : List CacheEntry) → count n (es1 ++ es2) ≡ count n es1 + count n es2
count-append n [] es2 = omega arith
count-append n (e ∷ es1) es2 = omega (arith, count-append n es1 es2)

pub Has-left :
    (n : List ℕ) (u : Bool) (x : Dirent) (es1 es2 : List CacheEntry)
    → Has n u x es1
    → Has n u x (es1 ++ es2)
Has-left n u x [] es2 h = elim h [ ]
Has-left n u x (e ∷ es1) es2 (inl h) = inl h
Has-left n u x (e ∷ es1) es2 (inr h) = inr (Has-left n u x es1 es2 h)

pub Has-right :
    (n : List ℕ) (u : Bool) (x : Dirent) (es1 es2 : List CacheEntry)
    → Has n u x es2
    → Has n u x (es1 ++ es2)
Has-right n u x [] es2 h = h
Has-right n u x (e ∷ es1) es2 h = inr (Has-right n u x es1 es2 h)

pub Has-split :
    (n : List ℕ) (u : Bool) (x : Dirent) (es1 es2 : List CacheEntry)
    → Has n u x (es1 ++ es2)
    → Has n u x es1 ⊎ Has n u x es2
Has-split n u x [] es2 h = inr h
Has-split n u x (e ∷ es1) es2 (inl h) = inl (inl h)
Has-split n u x (e ∷ es1) es2 (inr h) = elim (Has-split n u x es1 es2 h) [
  | inl g ↦ inl (inr g)
  | inr g ↦ inr g
]

-- Another list holds the same.
abbrev pub Keeps : List CacheEntry → List CacheEntry → Type 0
Keeps es1 es2 =
    (n : List ℕ)
    → (count n es2 ≡ count n es1) × ((u : Bool) (x : Dirent) → Has n u x es1 → Has n u x es2)

pub Keeps-append :
    (es1 es2 es3 es4 : List CacheEntry)
    → Keeps es1 es2
    → Keeps es3 es4
    → Keeps (es1 ++ es3) (es2 ++ es4)
Keeps-append es1 es2 es3 es4 f g n =
    let p = f n in
    let q = g n in
    (
      omega (arith, count-append n es1 es3, count-append n es2 es4, p.0, q.0),
      λ u x h. elim (Has-split n u x es1 es3 h) [
        | inl a ↦ Has-left n u x es2 es4 (p.1 u x a)
        | inr b ↦ Has-right n u x es2 es4 (q.1 u x b)
      ],
    )

pub mark_as-Keeps : (m : List ℕ) (w : Bool) (es : List CacheEntry) → Keeps es (mark_as m w es)
mark_as-Keeps m w [] n = (refl, λ u x h. h)
mark_as-Keeps m w (e ∷ es) n =
    let ih = mark_as-Keeps m w es n in
    elim (Bool-cases (bytes_eq m e.name)) [
      | inl t ↦ simp t (
        ap (λ k. (if bytes_eq n e.name then 1 else 0) + k) ih.0,
        λ u x h. elim h [ inl s ↦ inl s | inr s ↦ inr (ih.1 u x s) ],
      )
      | inr t ↦ simp t (
        ap (λ k. (if bytes_eq n e.name then 1 else 0) + k) ih.0,
        λ u x h. elim h [ inl s ↦ inl s | inr s ↦ inr (ih.1 u x s) ],
      )
    ]

-- An entry that is taken out stands before the rest as well as it did in its place.
pub extract-Keeps :
    (m : List ℕ) (es rest : List CacheEntry) (p : CacheEntry)
    → extract m es ≡ some (p, rest)
    → Keeps es (p ∷ rest)
unfolding extract
extract-Keeps m [] rest p h = absurd (ground (arith, h))
extract-Keeps m (e ∷ es) rest p h = elim (Bool-cases (bytes_eq m e.name)) [
  | inl t ↦
      let got : some (e, es) ≡ some (p, rest) = simp t at h in
      let both : (e, es) ≡ (p, rest) = cc got in
      let first : e ≡ p = ap (λ (z : CacheEntry × List CacheEntry). z.0) both in
      let others : es ≡ rest = ap (λ (z : CacheEntry × List CacheEntry). z.1) both in
      rw (sym first, sym others) (λ n. (refl, λ u x g. g))
  | inr t ↦
      let got : kept_before e (extract m es) ≡ some (p, rest) = simp t at h in
      let cut = kept_before_some e (extract m es) p rest got in
      rw cut.2 (swapped e p es cut.0 (extract-Keeps m es cut.0 p cut.1))
]
  where
    kept_before_some :
        (e : CacheEntry) (o : Option (CacheEntry × List CacheEntry)) (p : CacheEntry)
        (rest : List CacheEntry)
        → kept_before e o ≡ some (p, rest)
        → (others : List CacheEntry) × (o ≡ some (p, others)) × (rest ≡ e ∷ others)
    kept_before_some e none p rest h = absurd (ground (arith, h))
    kept_before_some e (some (q, others)) p rest h =
        let first : q ≡ p = cc in
        let all : e ∷ others ≡ rest = cc in (others, ap (λ t. some (t, others)) first, sym all)

    swapped :
        (e p : CacheEntry) (es others : List CacheEntry)
        → Keeps es (p ∷ others)
        → Keeps (e ∷ es) (p ∷ e ∷ others)
    swapped e p es others f n =
        let ih = f n in
        (
          omega (arith, ih.0),
          λ u x h. elim h [
            | inl s ↦ inr (inl s)
            | inr s ↦ elim (ih.1 u x s) [ inl a ↦ inl a | inr b ↦ inr (inr b) ]
          ],
        )

pub mark-Keeps :
    (m : List ℕ) (w : Res Bool) (r : Rdd)
    → Keeps (r.front ++ r.list) ((mark m w r).front ++ (mark m w r).list)
mark-Keeps m (err e) r = λ n. (refl, λ u x h. h)
mark-Keeps m (ok w) r =
    Keeps-append r.front (mark_as m w r.front) r.list (mark_as m w r.list)
      (mark_as-Keeps m w r.front) (mark_as-Keeps m w r.list)

pub Keeps-trans : (es1 es2 es3 : List CacheEntry) → Keeps es1 es2 → Keeps es2 es3 → Keeps es1 es3
Keeps-trans es1 es2 es3 f g n =
    let p = f n in let q = g n in (q.0 ∙ p.0, λ u x h. q.1 u x (p.1 u x h))

-- What a list has for a name: nothing, or one entry, which stands for what is given.
abbrev pub At : List CacheEntry → List ℕ → Option (Bool × Dirent) → Type 0
At es n none = count n es ≡ 0
At es n (some (u, x)) = (count n es ≡ 1) × Has n u x es

pub Keeps-At :
    (es1 es2 : List CacheEntry) (n : List ℕ) (o : Option (Bool × Dirent))
    → Keeps es1 es2
    → At es1 n o
    → At es2 n o
Keeps-At es1 es2 n none f h = (f n).0 ∙ h
Keeps-At es1 es2 n (some (u, x)) f h = ((f n).0 ∙ h.0, (f n).1 u x h.1)

pub append_assoc : (es1 es2 es3 : List CacheEntry) → (es1 ++ es2) ++ es3 ≡ es1 ++ (es2 ++ es3)
append_assoc [] es2 es3 = refl
append_assoc (e ∷ es1) es2 es3 = ap (λ t. e ∷ t) (append_assoc es1 es2 es3)

Keeps-refl : (es : List CacheEntry) → Keeps es es
Keeps-refl es n = (refl, λ u x h. h)

Keeps-last : (e : CacheEntry) (es : List CacheEntry) → Keeps (e ∷ es) (es ++ (e ∷ []))
Keeps-last e es n = (
  omega (arith, count-append n es (e ∷ [])),
  λ u x h. elim h [
    | inl s ↦ Has-right n u x es (e ∷ []) (inl s)
    | inr s ↦ Has-left n u x es (e ∷ []) s
  ],
)

pub Keeps-front :
    (e : CacheEntry) (es1 es2 : List CacheEntry)
    → Keeps (e ∷ (es1 ++ es2)) ((es1 ++ (e ∷ [])) ++ es2)
Keeps-front e es1 es2 =
    Keeps-append (e ∷ es1) (es1 ++ (e ∷ [])) es2 es2 (Keeps-last e es1) (Keeps-refl es2)

pub Keeps-back :
    (e : CacheEntry) (es1 es2 : List CacheEntry)
    → Keeps (e ∷ (es1 ++ es2)) (es1 ++ (es2 ++ (e ∷ [])))
Keeps-back e es1 es2 = rw⁻¹ (append_assoc es1 es2 (e ∷ [])) (Keeps-last e (es1 ++ es2))

-- list_move_tail keeps what the lists hold.
pub moved-Keeps :
    (n : List ℕ) (r : Rdd) (o : Option (CacheEntry × List CacheEntry))
    → extract n r.list ≡ o
    → Keeps (r.front ++ r.list) ((moved n r o).front ++ (moved n r o).list)
moved-Keeps n r (some (p, es)) h = rw (append_assoc r.front (p ∷ []) es) (
    Keeps-append r.front r.front r.list (p ∷ es) (Keeps-refl r.front)
      (extract-Keeps n r.list es p h))
moved-Keeps n r none h = in_front (extract n r.front) refl
  where
    in_front :
        (o : Option (CacheEntry × List CacheEntry))
        → extract n r.front ≡ o
        → Keeps (r.front ++ r.list) ((moved_in_front r o).front ++ (moved_in_front r o).list)
    in_front none g = Keeps-refl (r.front ++ r.list)
    in_front (some (p, es)) g =
        Keeps-append r.front (es ++ (p ∷ [])) r.list r.list
          (Keeps-trans r.front (p ∷ es) (es ++ (p ∷ [])) (extract-Keeps n r.front es p g)
            (Keeps-last p es))
          (Keeps-refl r.list)
