-- ===== src/Readdir.antt =====
-- The cache of a merged directory (readdir.c): ovl_cache_get, ovl_cache_put and ovl_dir_reset on
-- the caches that the directory has had. A cache is named by its place in that list, which a
-- pointer to it stands for; a freed one leaves its place empty.
pub mod Live
pub mod Tree
pub mod Merge
pub mod Empty
use fzz_overlay.Base.{
  ℕ, suc, ◌+◌, ◌-◌, Bool, true, false, not, ◌&&◌, List, [], ◌∷◌, ◌++◌, Option, none, some, ◌==◌,
  if◌then◌else◌, length, get_or, set,
}
use fzz_overlay.Vfs.{Res, ok, err}
use fzz_overlay.Handle.{enomem}

-- struct ovl_dir_cache, without its entries.
pub record Cache : Type 0 where
  pub refcount : ℕ
  pub version : ℕ

-- The directory's inode: its version, its cache, and every cache made so far.
pub record Dir : Type 0 where
  pub version : ℕ
  pub current : Option ℕ
  pub caches : List (Option Cache)
  pub whiteouts : Bool  -- OVL_WHITEOUTS

-- struct ovl_dir_file
pub record DirFile : Type 0 where
  pub is_real : Bool
  pub cache : Option ℕ
  pub cursor : Option ℕ

abbrev pub cache_at : Dir → ℕ → Option Cache
cache_at d i = get_or d.caches i none

abbrev pub with_cache : Dir → ℕ → Option Cache → Dir
with_cache d i c = record d { caches = set d.caches i c }

-- A new cache, filled by ovl_dir_read_merged, which `read` stands for.
abbrev pub new_cache : Bool → Res (Unit {0}) → Dir → Res ℕ × Dir
new_cache false read d = (err enomem, record d { current = none })
new_cache true (err e) d = (err e, record d { current = none })
new_cache true (ok _) d = (
  ok (length d.caches),
  record d {
    current = some (length d.caches);
    caches = d.caches ++ (some (record { refcount = 1; version = d.version }) ∷ []);
  },
)

abbrev pub reuse : ℕ → Option Cache → Res ℕ × Dir → Dir → Res ℕ × Dir
reuse i none fresh d = fresh
reuse i (some c) fresh d =
    if d.version == c.version
    then (ok i, with_cache d i (some (record c { refcount = c.refcount + 1 })))
    else fresh

abbrev pub get_from : Option ℕ → Res ℕ × Dir → Dir → Res ℕ × Dir
get_from none fresh d = fresh
get_from (some i) fresh d = reuse i (cache_at d i) fresh d

-- ovl_cache_get
unfoldable pub cache_get : Bool → Res (Unit {0}) → Dir → Res ℕ × Dir
cache_get allocated read d = get_from d.current (new_cache allocated read d) d

abbrev pub clear_if : ℕ → Option ℕ → Option ℕ
clear_if i none = none
clear_if i (some j) = if j == i then none else some j

abbrev pub put_at : ℕ → Option Cache → Dir → Option Dir
put_at i none d = none
put_at i (some c) d =
    if c.refcount == 1
    then some (record d { current = clear_if i d.current; caches = set d.caches i none })
    else some (with_cache d i (some (record c { refcount = c.refcount - 1 })))

-- ovl_cache_put; `none` is the use of a freed cache. A count that is not positive is warned of by
-- the source, and would fall below 0; here it stays at 0.
unfoldable pub cache_put : ℕ → Dir → Option Dir
cache_put i d = put_at i (cache_at d i) d

-- ovl_dir_is_real
abbrev pub dir_is_real : Dir → Bool
dir_is_real d = not d.whiteouts

abbrev pub drop_stale : DirFile → Option ℕ → Dir → Option (DirFile × Dir)
drop_stale f none d = some (f, d)
drop_stale f (some i) d = elim (cache_at d i) [
  | none ↦ none
  | some c ↦ if d.version == c.version then some (f, d) else elim (cache_put i d) [
    | none ↦ none
    | some d' ↦ some (record f { cache = none; cursor = none }, d')
  ]
]

-- `is_real` only falls: a rise is warned of and ignored.
abbrev pub settle : Option (DirFile × Dir) → Option (DirFile × Dir)
settle none = none
settle (some (f, d)) =
    some (if f.is_real && not (dir_is_real d) then record f { is_real = false } else f, d)

-- ovl_dir_reset
unfoldable pub dir_reset : DirFile → Dir → Option (DirFile × Dir)
dir_reset f d = settle (drop_stale f f.cache d)
