-- ===== src/Readdir/Merge/Steps.antt =====
-- What one entry of a real directory does to a merge (readdir.c: ovl_cache_entry_add_rb,
-- ovl_fill_lowest).
use fzz_overlay.Base.{
  ℕ, ◌+◌, ◌≡◌, ◌≢◌, refl, sym, ap, ◌∙◌, inl, inr, Bool, Bool-cases, true, false, List, [], ◌∷◌,
  ◌++◌, Option, none, some, ◌==◌, if◌then◌else◌, arith,
}
use fzz_overlay.Vfs.{Res, ok, err}
use fzz_overlay.Handle.Store.{bytes_eq}
use fzz_overlay.Handle.RoundTrip.{bytes_eq_refl, bytes_eq→eq}
use fzz_overlay.Readdir.Tree.{Tree, find, link, IsSearch, link_lem, link_found}
use fzz_overlay.Readdir.Merge.{
  Dirent, CacheEntry, Rdd, Reader, extract, moved, moved_in_front, entry_new, add_linked, add_rb,
  fill_lowest,
}
use fzz_overlay.Readdir.Merge.Cells.{count, moved-Keeps, Keeps-front, Keeps-back, At, Keeps-At}

-- The first of two, if there is one.
abbrev pub or_else {ℓ} : {A : Type ℓ} → Option A → Option A → Option A
or_else none b = b
or_else (some a) b = some a

-- The first entry of a name in a directory.
abbrev pub named : List ℕ → Bool → List Dirent → Option (Bool × Dirent)
named n u [] = none
named n u (x ∷ xs) = or_else (if bytes_eq n x.name then some (u, x) else none) (named n u xs)

-- All that the calls of iterate_dir deliver before the first that delivers nothing.
abbrev pub delivered : List (Res (List Dirent)) → List Dirent
delivered [] = []
delivered (err e ∷ bs) = []
delivered (ok [] ∷ bs) = []
delivered (ok (x ∷ xs) ∷ bs) = (x ∷ xs) ++ delivered bs

-- The names of a directory differ.
abbrev pub Differ : List Dirent → Type 0
Differ [] = Unit
Differ (x ∷ xs) = (named x.name true xs ≡ none) × Differ xs

abbrev pub all : Rdd → List CacheEntry
all r = r.front ++ r.list

pub or_else_assoc {ℓ} :
    {A : Type ℓ} (a b c : Option A) → or_else (or_else a b) c ≡ or_else a (or_else b c)
or_else_assoc none b c = refl
or_else_assoc (some a) b c = refl

pub or_else-none {ℓ} : {A : Type ℓ} (a : Option A) → or_else a none ≡ a
or_else-none none = refl
or_else-none (some a) = refl

pub named-append :
    (n : List ℕ) (u : Bool) (xs ys : List Dirent)
    → named n u (xs ++ ys) ≡ or_else (named n u xs) (named n u ys)
named-append n u [] ys = refl
named-append n u (x ∷ xs) ys =
    ap (or_else (if bytes_eq n x.name then some (u, x) else none)) (named-append n u xs ys)
    ∙ sym (
        or_else_assoc (if bytes_eq n x.name then some (u, x) else none) (named n u xs)
          (named n u ys))

module _ {D : Type 0} (k : Reader D) where
  -- rb_insert_color keeps a search tree one, and the names that are found in it.
  pub record Balances : Type 0 where
    pub sorted : (t : Tree) → IsSearch t → IsSearch (k.rebalanced t)
    pub found : (t : Tree) (n : List ℕ) → IsSearch t → find (k.rebalanced t) n ≡ find t n

  -- One entry more, of a name that has none.
  At-new :
      (es : List CacheEntry) (u : Bool) (x : Dirent) (n : List ℕ) (o : Option (Bool × Dirent))
      → count x.name es ≡ 0
      → At es n o
      → At (entry_new k u x ∷ es) n (or_else o (if bytes_eq n x.name then some (u, x) else none))
  unfolding entry_new
  At-new es u x n none z h = elim (Bool-cases (bytes_eq n x.name)) [
    | inl t ↦
        let one : (if bytes_eq n x.name then 1 else 0) + count n es ≡ 1 = rw t (omega (arith, h)) in
        rw t (one, inl (sym (bytes_eq→eq n x.name t), refl, refl, refl))
    | inr t ↦
        let same : (if bytes_eq n x.name then 1 else 0) + count n es ≡ 0 =
          rw t (omega (arith, h)) in
        rw t same
  ]
  At-new es u x n (some (v, y)) z h = elim (Bool-cases (bytes_eq n x.name)) [
    | inl t ↦
        let same = bytes_eq→eq n x.name t in
        let one = h.0 in absurd (none_and_one es n x.name same one z)
    | inr t ↦
        let p = h.0 in let same : 0 + count n es ≡ 1 = omega (arith, p) in rw t (same, inr h.1)
  ]
    where
      none_and_one :
          (fs : List CacheEntry) (a b : List ℕ) → a ≡ b → count a fs ≡ 1 → count b fs ≡ 0 → ⊥
      none_and_one fs a b e p q =
          let both : 1 ≡ 0 = sym p ∙ (ap (λ t. count t fs) e ∙ q) in omega (arith, both)

  -- A name that has its entry already.
  At-old :
      (es : List CacheEntry) (u : Bool) (x : Dirent) (n : List ℕ) (o : Option (Bool × Dirent))
      → count x.name es ≡ 1
      → At es n o
      → At es n (or_else o (if bytes_eq n x.name then some (u, x) else none))
  At-old es u x n (some (v, y)) z h = h
  At-old es u x n none z h = elim (Bool-cases (bytes_eq n x.name)) [
    | inl t ↦
        let both : 0 ≡ 1 = sym h ∙ (ap (λ m. count m es) (bytes_eq→eq n x.name t) ∙ z) in
        absurd (omega (arith, both))
    | inr t ↦ rw t h
  ]

  -- The names of the tree are those of the lists.
  abbrev pub Indexed : Rdd → Type 0
  Indexed r = IsSearch r.tree × ((n : List ℕ) → count n (all r) ≡ (if find r.tree n then 1 else 0))

  -- What an entry that is read does to the lists.
  abbrev pub Reads : Rdd → Rdd → Bool → List Dirent → Type 0
  Reads r q u xs =
      (n : List ℕ) (o : Option (Bool × Dirent))
      → At (all r) n o
      → At (all q) n (or_else o (named n u xs))

  Reads-one :
      (r q : Rdd) (u : Bool) (x : Dirent)
      → ((n : List ℕ) (o : Option (Bool × Dirent))
          → At (all r) n o
          → At (all q) n (or_else o (if bytes_eq n x.name then some (u, x) else none)))
      → Reads r q u (x ∷ [])
  Reads-one r q u x f n o h =
      rw (or_else-none {A = Bool × Dirent} (if bytes_eq n x.name then some (u, x) else none))
        (f n o h)

  Indexed-link :
      (r : Rdd) (t : Tree) (x : Dirent)
      → Balances
      → Indexed r
      → link r.tree x.name ≡ some t
      → (n : List ℕ)
      → count n (r.front ++ (r.list ++ (entry_new k r.is_upper x ∷ [])))
        ≡ (if find (k.rebalanced t) n then 1 else 0)
  unfolding entry_new
  Indexed-link r t x b i h n =
      let ln = link_lem r.tree t x.name h i.0 in
      let more = (Keeps-back (entry_new k r.is_upper x) r.front r.list n).0 in
      let before = i.1 n in
      let same = b.found t n ln.0 in
      elim (Bool-cases (bytes_eq n x.name)) [
        | inl e ↦
            let eq = bytes_eq→eq n x.name e in
            let there : find (k.rebalanced t) n ≡ true = same ∙ (ap (find t) eq ∙ ln.2) in
            let gone : find r.tree n ≡ false = ap (find r.tree) eq ∙ ln.1 in
            let zero_before : count n (all r) ≡ 0 = before ∙ ap (λ z. if z then 1 else 0) gone in
            more ∙ (rw (e, there) (omega (arith, zero_before)))
        | inr e ↦
            let ne : n ≢ x.name = λ q.
              absurd
                (ground (arith, e, sym (ap (λ z. bytes_eq z x.name) q), bytes_eq_refl x.name)) in
            let kept : find (k.rebalanced t) n ≡ find r.tree n = same ∙ ln.3 n ne in
            more ∙ rw (e, kept) (omega (arith, before))
      ]

  pub add_rb-Indexed :
      (r : Rdd) (x : Dirent)
      → Balances
      → Indexed r
      → ((add_rb k r x).error == 0) ≡ true
      → Indexed (add_rb k r x)
        × Reads r (add_rb k r x) r.is_upper (x ∷ [])
        × ((add_rb k r x).is_upper ≡ r.is_upper)
        × ((add_rb k r x).is_lowest ≡ r.is_lowest)
  unfolding add_rb
  add_rb-Indexed r x b i z = of (link r.tree x.name) refl z
    where
      of :
          (o : Option Tree)
          → link r.tree x.name ≡ o
          → ((add_linked k r x o).error == 0) ≡ true
          → Indexed (add_linked k r x o)
            × Reads r (add_linked k r x o) r.is_upper (x ∷ [])
            × ((add_linked k r x o).is_upper ≡ r.is_upper)
            × ((add_linked k r x o).is_lowest ≡ r.is_lowest)
      of none h z =
          let there : count x.name (all r) ≡ 1 =
            i.1 x.name ∙ ap (λ t. if t then 1 else 0) (link_found r.tree x.name h) in
          (
            i,
            Reads-one r r r.is_upper x (λ n o a. At-old (all r) r.is_upper x n o there a),
            refl,
            refl,
          )
      of (some t) h z = elim (Bool-cases (k.allocated x.name)) [
        | inr e ↦ absurd (ground (arith, e, z))
        | inl e ↦
            let ln = link_lem r.tree t x.name h i.0 in
            let more = Keeps-back (entry_new k r.is_upper x) r.front r.list in
            let free : count x.name (all r) ≡ 0 = i.1 x.name ∙ ap (λ t. if t then 1 else 0) ln.1 in
            simp e (
              (b.sorted t ln.0, Indexed-link r t x b i h),
              Reads-one r (record r { list = r.list ++ (entry_new k r.is_upper x ∷ []) }) r.is_upper
                  x
                  (λ n o a.
                    Keeps-At (entry_new k r.is_upper x ∷ all r)
                      (r.front ++ (r.list ++ (entry_new k r.is_upper x ∷ []))) n
                      (or_else o (if bytes_eq n x.name then some (r.is_upper, x) else none)) more
                      (At-new (all r) r.is_upper x n o free a)),
              refl,
              refl,
            )
      ]

  count-new :
      (r : Rdd) (x : Dirent) (n : List ℕ)
      → bytes_eq n x.name ≡ false
      → count n (entry_new k r.is_upper x ∷ all r) ≡ count n (all r)
  unfolding entry_new
  count-new r x n e = rw e (omega arith)

  pub fill_lowest_lem :
      (r : Rdd) (x : Dirent)
      → count x.name (all r) ≡ (if find r.tree x.name then 1 else 0)
      → ((fill_lowest k r x).error == 0) ≡ true
      → Reads r (fill_lowest k r x) r.is_upper (x ∷ [])
        × ((n : List ℕ)
            → bytes_eq n x.name ≡ false
            → count n (all (fill_lowest k r x)) ≡ count n (all r))
        × ((fill_lowest k r x).tree ≡ r.tree)
        × ((fill_lowest k r x).is_upper ≡ r.is_upper)
        × ((fill_lowest k r x).is_lowest ≡ r.is_lowest)
  unfolding fill_lowest
  fill_lowest_lem r x c z = elim (Bool-cases (find r.tree x.name)) [
    | inl f ↦
        let q = moved x.name r (extract x.name r.list) in
        let same = moved-Keeps x.name r (extract x.name r.list) refl in
        let there : count x.name (all r) ≡ 1 = c ∙ ap (λ t. if t then 1 else 0) f in
        let kept = moved_same x.name r (extract x.name r.list) in
        rw f (
          Reads-one r q r.is_upper x (λ n o a.
              Keeps-At (all r) (all q) n
                (or_else o (if bytes_eq n x.name then some (r.is_upper, x) else none)) same
                (At-old (all r) r.is_upper x n o there a)),
          λ n e. (same n).0,
          kept.0,
          kept.1,
          kept.2,
        )
    | inr f ↦ elim (Bool-cases (k.allocated x.name)) [
      | inr e ↦ absurd (ground (arith, e, f, z))
      | inl e ↦
          let more = Keeps-front (entry_new k r.is_upper x) r.front r.list in
          let free : count x.name (all r) ≡ 0 = c ∙ ap (λ t. if t then 1 else 0) f in
          simp (f, e)
            (
              Reads-one r (record r { front = r.front ++ (entry_new k r.is_upper x ∷ []) })
                  r.is_upper x
                  (λ n o a.
                    Keeps-At (entry_new k r.is_upper x ∷ all r)
                      ((r.front ++ (entry_new k r.is_upper x ∷ [])) ++ r.list) n
                      (or_else o (if bytes_eq n x.name then some (r.is_upper, x) else none)) more
                      (At-new (all r) r.is_upper x n o free a)),
              λ n e. (more n).0 ∙ count-new r x n e,
              refl,
              refl,
              refl,
            )
    ]
  ]
    where
      in_front_same :
          (r : Rdd) (o : Option (CacheEntry × List CacheEntry))
          → ((moved_in_front r o).tree ≡ r.tree)
            × ((moved_in_front r o).is_upper ≡ r.is_upper)
            × ((moved_in_front r o).is_lowest ≡ r.is_lowest)
      in_front_same r none = (refl, refl, refl)
      in_front_same r (some (p, es)) = (refl, refl, refl)

      moved_same :
          (n : List ℕ) (r : Rdd) (o : Option (CacheEntry × List CacheEntry))
          → ((moved n r o).tree ≡ r.tree)
            × ((moved n r o).is_upper ≡ r.is_upper)
            × ((moved n r o).is_lowest ≡ r.is_lowest)
      moved_same n r (some (p, es)) = (refl, refl, refl)
      moved_same n r none = in_front_same r (extract n r.front)

  -- The names that are left to read in the lowest layer: those in the tree have their entry, the
  -- others have none.
  abbrev pub Awaits : List Dirent → Rdd → Type 0
  Awaits [] r = Unit
  Awaits (x ∷ xs) r = (count x.name (all r) ≡ (if find r.tree x.name then 1 else 0)) × Awaits xs r

  named-none :
      (n : List ℕ) (x : Dirent) (xs : List Dirent)
      → named n true (x ∷ xs) ≡ none
      → (bytes_eq n x.name ≡ false) × (named n true xs ≡ none)
  named-none n x xs h = elim (Bool-cases (bytes_eq n x.name)) [
    | inl e ↦ absurd (ground (arith, e, h))
    | inr e ↦ (e, ground (arith, e, h))
  ]

  bytes_eq_sym : (a b : List ℕ) → bytes_eq a b ≡ false → bytes_eq b a ≡ false
  bytes_eq_sym a b h = elim (Bool-cases (bytes_eq b a)) [
    | inl e ↦
        let same = bytes_eq→eq b a e in
        absurd (ground (arith, h, sym (ap (λ z. bytes_eq z b) same), bytes_eq_refl b))
    | inr e ↦ e
  ]

  pub Awaits-kept :
      (x : Dirent) (xs : List Dirent) (r q : Rdd)
      → ((n : List ℕ) → bytes_eq n x.name ≡ false → count n (all q) ≡ count n (all r))
      → q.tree ≡ r.tree
      → named x.name true xs ≡ none
      → Awaits xs r
      → Awaits xs q
  Awaits-kept x [] r q f t d a = tt
  Awaits-kept x (y ∷ xs) r q f t d a =
      let g = named-none x.name y xs d in
      (
        f y.name (bytes_eq_sym x.name y.name g.0)
            ∙ (a.0 ∙ ap (λ z. if find z y.name then 1 else 0) (sym t)),
        Awaits-kept x xs r q f t g.1 a.1,
      )
