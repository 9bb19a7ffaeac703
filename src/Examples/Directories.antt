-- ===== src/Examples/Directories.antt =====
-- The cache of a directory, taken once more and given back.
use fzz_overlay.Base.{◌<◌, ◌≡◌, ◌≢◌, ℕ, refl, true, [], ◌∷◌, some, arith}
use fzz_overlay.Vfs.{ok}
use fzz_overlay.Readdir.{Cache, Dir, cache_at, cache_get, cache_put}
use fzz_overlay.Readdir.Live.{IsLive, IsValid, cache_get_live, cache_put_live}

abbrev dir : Dir
dir = record {
  version = 5;
  current = some 0;
  caches = some (record { refcount = 2; version = 5 }) ∷ [];
  whiteouts = true;
}

first_live : IsLive dir 0
first_live = record {
  cache = record { refcount = 2; version = 5 };
  there = refl;
  held = omega arith;
}

dir-IsValid : IsValid dir
dir-IsValid i e = let p : i ≡ 0 = cc in rw p first_live

cache_get_live_example :
    let (r, d) = cache_get true (ok tt) dir in
    IsValid d
    × ((i : ℕ)
        → r ≡ ok i
        → (d.current ≡ some i)
          × ((c : Cache) × (cache_at d i ≡ some c) × (0 < c.refcount) × (c.version ≡ d.version)))
    × ((j : ℕ) → IsLive dir j → IsLive d j)
cache_get_live_example = cache_get_live true (ok tt) dir dir-IsValid

cache_put_live_example :
    (d : Dir) × (cache_put 0 dir ≡ some d)
    × IsValid d
    × ((j : ℕ) → j ≢ 0 → IsLive dir j → IsLive d j)
    × (1 < 2 → IsLive d 0)
unfolding first_live
cache_put_live_example = cache_put_live 0 dir dir-IsValid first_live
