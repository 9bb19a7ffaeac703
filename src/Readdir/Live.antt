-- ===== src/Readdir/Live.antt =====
-- No pointer to a directory's cache (readdir.c) outlives it.
use fzz_overlay.Base.{
  ℕ, zero, suc, ◌+◌, ◌-◌, ◌<◌, ◌≡◌, ◌≢◌, refl, sym, ap, ◌∙◌, Bool, Bool-cases, true, false, List,
  [], ◌∷◌, ◌++◌, Option, Option-cases, none, some, arith, inl, inr, ◌==◌, length, get_or, set,
  get_or-set_self, get_or-set_ne, get_or-append_left, get_or-append_right,
}
use fzz_overlay.Vfs.{Res, ok, err}
use fzz_overlay.Readdir.{
  Cache, Dir, cache_at, cache_get, cache_put, new_cache, with_cache, clear_if,
}

get_or-some :
    (xs : List (Option Cache)) (i : ℕ) (c : Cache) → get_or xs i none ≡ some c → i < length xs
get_or-some [] i c h = cc
get_or-some (x ∷ xs) zero c h = omega arith
get_or-some (x ∷ xs) (suc i) c h = omega (arith, get_or-some xs i c h)

-- The cache at `i` is not freed, and is referred to.
pub record IsLive (d : Dir) (i : ℕ) : Type 0 where
  pub cache : Cache
  pub there : cache_at d i ≡ some cache
  pub held : 0 < cache.refcount

-- The directory's own pointer, if it has one, is to a live cache.
abbrev pub IsValid : Dir → Type 0
IsValid d = (i : ℕ) → d.current ≡ some i → IsLive d i

live_new :
    (d : Dir)
    → get_or
        (d.caches ++ (some (record { refcount = 1; version = d.version }) ∷ []))
        (length d.caches)
        none
      ≡ some (record { refcount = 1; version = d.version })
live_new d =
    get_or-append_right d.caches _ (length d.caches) none (omega arith)
    ∙ ap (λ k. get_or (some (record { refcount = 1; version = d.version }) ∷ []) k none) zero_off
  where
    zero_off : length d.caches - length d.caches ≡ 0
    zero_off = omega arith

live_set :
    (d : Dir) (i : ℕ) (c : Cache)
    → i < length d.caches
    → 0 < c.refcount
    → IsLive (with_cache d i (some c)) i
live_set d i c h k = record {
  cache = c;
  there = get_or-set_self d.caches i (some c) none h;
  held = k;
}

live_other :
    (d : Dir) (i j : ℕ) (o : Option Cache) → j ≢ i → IsLive d j → IsLive (with_cache d i o) j
live_other d i j o n l = record {
  cache = l.cache;
  there = get_or-set_ne d.caches i j o none (λ e. n (sym e)) ∙ l.there;
  held = l.held;
}

live_bound : (d : Dir) (i : ℕ) → IsLive d i → i < length d.caches
live_bound d i l = get_or-some d.caches i l.cache l.there

-- A cache is replaced by one that is referred to: every live one stays live.
live_with :
    (d : Dir) (i j : ℕ) (c : Cache)
    → i < length d.caches
    → 0 < c.refcount
    → IsLive d j
    → IsLive (with_cache d i (some c)) j
live_with d i j c h k l = elim (Bool-cases (j == i)) [
  | inl e ↦ let p : j ≡ i = ground arith in rw p (live_set d i c h k)
  | inr e ↦ live_other d i j (some c) (λ p. ground (arith, p, e)) l
]

clear_if_lem : (i j : ℕ) (o : Option ℕ) → clear_if i o ≡ some j → (o ≡ some j) × (j ≢ i)
clear_if_lem i j none h = cc
clear_if_lem i j (some k) h = ground (arith, h)

-- What ovl_cache_get promises of its result and of the directory behind it.
record Got (d : Dir) (r : Res ℕ) (d' : Dir) : Type 0 where
  pub valid : IsValid d'
  pub result :
      (i : ℕ)
      → r ≡ ok i
      → (d'.current ≡ some i)
        × ((c : Cache) × (cache_at d' i ≡ some c) × (0 < c.refcount) × (c.version ≡ d'.version))
  pub stays : (j : ℕ) → IsLive d j → IsLive d' j

same_live : (d : Dir) (o : Option ℕ) (j : ℕ) → IsLive d j → IsLive (record d { current = o }) j
same_live d o j l = record { cache = l.cache; there = l.there; held = l.held }

new_cache_lem :
    (allocated : Bool) (read : Res (Unit {0})) (d : Dir)
    → Got d (new_cache allocated read d).0 (new_cache allocated read d).1
new_cache_lem false read d = record {
  valid = λ i h. cc;
  result = λ i h. cc;
  stays = same_live d none;
}
new_cache_lem true (err e) d = record {
  valid = λ i h. cc;
  result = λ i h. cc;
  stays = same_live d none;
}
new_cache_lem true (ok u) d =
    let c : Cache = record { refcount = 1; version = d.version } in
    record {
      valid = λ i h.
          let e : i ≡ length d.caches = cc in
          rw e (record { cache = c; there = live_new d; held = omega arith });
      result = λ i h.
          let e : i ≡ length d.caches = cc in rw e (refl, (c, live_new d, omega arith, refl));
      stays = λ j l. record {
        cache = l.cache;
        there = get_or-append_left d.caches _ j none (live_bound d j l) ∙ l.there;
        held = l.held;
      };
    }

cache_get_lem :
    (allocated : Bool) (read : Res (Unit {0})) (d : Dir)
    → IsValid d
    → Got d (cache_get allocated read d).0 (cache_get allocated read d).1
unfolding cache_get
cache_get_lem allocated read d w =
    let fresh = new_cache_lem allocated read d in
    elim (Option-cases d.current) [
      | inl e ↦ simp e fresh
      | inr (i, e) ↦
          let l = w i e in
          let c = l.cache in
          let c' : Cache = record { refcount = c.refcount + 1; version = c.version } in
          let b = live_bound d i l in
          simp (e, l.there)
            (elim (Bool-cases (d.version == c.version)) [
              | inr n ↦ simp n fresh
              | inl y ↦ simp y (record {
                valid = λ j h.
                    same_live (with_cache d i (some c')) (some i) j
                      (live_with d i j c' b (omega arith) (w j (e ∙ h)));
                result = λ j h.
                    let p : j ≡ i = cc in
                    rw p (
                      refl,
                      (c', get_or-set_self d.caches i (some c') none b, omega arith, ground arith),
                    );
                stays = λ j m.
                    same_live (with_cache d i (some c')) (some i) j
                      (live_with d i j c' b (omega arith) m);
              })
            ])
    ]

-- ovl_cache_get on a directory whose own pointer is live: the pointer stays live, and a cache that
-- is returned is live, is the directory's own, and has its version. A cache that was live stays so.
pub cache_get_live :
    (allocated : Bool) (read : Res (Unit {0})) (d : Dir)
    → IsValid d
    → let (r, d') = cache_get allocated read d in
      IsValid d'
      × ((i : ℕ)
          → r ≡ ok i
          → (d'.current ≡ some i)
            × ((c : Cache) × (cache_at d' i ≡ some c)
                × (0 < c.refcount)
                × (c.version ≡ d'.version)))
      × ((j : ℕ) → IsLive d j → IsLive d' j)
cache_get_live allocated read d w =
    let g = cache_get_lem allocated read d w in (g.valid, g.result, g.stays)

-- ovl_cache_put of a live cache: it makes no use of a freed cache, and the directory's own pointer
-- stays live. Another live cache stays live, and so does this one if it is referred to twice.
pub cache_put_live :
    (i : ℕ) (d : Dir)
    → IsValid d
    → (l : IsLive d i)
    → (d' : Dir) × (cache_put i d ≡ some d')
      × IsValid d'
      × ((j : ℕ) → j ≢ i → IsLive d j → IsLive d' j)
      × (1 < l.cache.refcount → IsLive d' i)
unfolding cache_put
cache_put_live i d w l =
    let c = l.cache in
    let b = live_bound d i l in
    simp l.there (elim (Bool-cases (c.refcount == 1)) [
      | inl e ↦ simp e (
        record d { current = clear_if i d.current; caches = set d.caches i none },
        refl,
        λ j h.
            let k = clear_if_lem i j d.current h in
            same_live (with_cache d i none) (clear_if i d.current) j
              (live_other d i j none k.1 (w j k.0)),
        λ j n m.
            same_live (with_cache d i none) (clear_if i d.current) j (live_other d i j none n m),
        λ h. absurd (ground (arith, e, h)),
      )
      | inr e ↦
          let c' : Cache = record { refcount = c.refcount - 1; version = c.version } in
          let k : 0 < c'.refcount = ground (arith, e, l.held) in
          simp e (
            with_cache d i (some c'),
            refl,
            λ j h. live_with d i j c' b k (w j h),
            λ j n. live_with d i j c' b k,
            λ h. live_set d i c' b k,
          )
    ])
