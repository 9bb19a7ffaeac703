-- ===== src/Readdir/Merge.antt =====
-- The merge of the layers of a directory (readdir.c: ovl_cache_entry_new, ovl_cache_entry_add_rb,
-- ovl_fill_lowest, ovl_fill_merge, ovl_check_whiteouts, ovl_dir_read, ovl_dir_read_merged).
pub mod Cells
pub mod Steps
pub mod Loops
pub mod Listing
use fzz_overlay.Base.{
  ℕ, Bool, true, false, not, ◌&&◌, ◌||◌, List, [], ◌∷◌, ◌++◌, Option, none, some, ◌==◌,
  if◌then◌else◌, map,
}
use fzz_overlay.Vfs.{Res, ok, err}
use fzz_overlay.Handle.{enomem}
use fzz_overlay.Handle.Store.{bytes_eq}
use fzz_overlay.Readdir.Tree.{Tree, leaf, find, link}

-- What a real directory has: a name, its inode number and its type.
pub record Dirent : Type 0 where
  pub name : List ℕ
  pub ino : ℕ
  pub kind : ℕ

abbrev pub dt_chr : ℕ
dt_chr = 2

-- struct ovl_cache_entry
pub record CacheEntry : Type 0 where
  pub name : List ℕ
  pub kind : ℕ
  pub real_ino : ℕ
  pub ino : ℕ
  pub is_upper : Bool
  pub is_whiteout : Bool

-- The kernel's part, for real directories `D`.
pub record Reader (D : Type 0) : Type 0 where
  pub allocated : List ℕ → Bool  -- kmalloc of the entry of a name
  pub rebalanced : Tree → Tree  -- rb_insert_color
  pub opens : D → Res (Unit {0})
  -- What each call of iterate_dir delivers.
  pub batches : D → List (Res (List Dirent))
  pub locked : D → Res (Unit {0})  -- down_write_killable
  pub whiteout : D → List ℕ → Res Bool  -- lookup_one_len and ovl_is_whiteout
  -- ovl_xino_bits of the overlay is not 0; the directory has OVL_IMPURE; it is read by ovl_iterate.
  pub xino : Bool
  pub impure : Bool
  pub iterates : Bool

-- struct ovl_readdir_data. `front` is what stands before `middle`, while that is in the list.
pub record Rdd : Type 0 where
  pub tree : Tree
  pub front : List CacheEntry
  pub list : List CacheEntry
  pub is_lowest : Bool
  pub is_upper : Bool
  pub maybe_whiteout : List (List ℕ)
  pub error : ℕ

abbrev pub dot : List ℕ
dot = b'.' ∷ []

abbrev pub dot_dot : List ℕ
dot_dot = b'.' ∷ b'.' ∷ []

-- The entry of a name taken out of a list.
abbrev pub kept_before :
    CacheEntry → Option (CacheEntry × List CacheEntry) → Option (CacheEntry × List CacheEntry)
kept_before e none = none
kept_before e (some (p, es)) = some (p, e ∷ es)

unfoldable pub extract : List ℕ → List CacheEntry → Option (CacheEntry × List CacheEntry)
extract n [] = none
extract n (e ∷ es) =
    let rest = kept_before e (extract n es) in if bytes_eq n e.name then some (e, es) else rest

-- list_move_tail of the entry of a name to the place before `middle`.
abbrev pub moved_in_front : Rdd → Option (CacheEntry × List CacheEntry) → Rdd
moved_in_front r none = r
moved_in_front r (some (p, es)) = record r { front = es ++ (p ∷ []) }

abbrev pub moved : List ℕ → Rdd → Option (CacheEntry × List CacheEntry) → Rdd
moved n r (some (p, es)) = record r { front = r.front ++ (p ∷ []); list = es }
moved n r none = moved_in_front r (extract n r.front)

-- ovl_check_whiteouts on one entry.
abbrev pub mark_as : List ℕ → Bool → List CacheEntry → List CacheEntry
mark_as n w [] = []
mark_as n w (e ∷ es) =
    (if bytes_eq n e.name then record e { is_whiteout = w } else e) ∷ mark_as n w es

abbrev pub mark : List ℕ → Res Bool → Rdd → Rdd
mark n (err e) r = r
mark n (ok w) r = record r { front = mark_as n w r.front; list = mark_as n w r.list }

module _ {D : Type 0} (k : Reader D) where
  unfoldable pub calc_d_ino : Bool → List ℕ → Bool
  calc_d_ino is_upper n =
      if not k.iterates
      then false
      else if k.xino || bytes_eq n dot_dot
      then true
      else if not is_upper
      then false
      else bytes_eq n dot || k.impure

  -- ovl_cache_entry_new, where there is memory.
  unfoldable pub entry_new : Bool → Dirent → CacheEntry
  entry_new is_upper x = record {
    name = x.name;
    kind = x.kind;
    real_ino = x.ino;
    ino = if calc_d_ino is_upper x.name then 0 else x.ino;
    is_upper = is_upper;
    is_whiteout = false;
  }

  abbrev pub maybe_more : Rdd → Dirent → List (List ℕ)
  maybe_more r x = if x.kind == dt_chr then x.name ∷ r.maybe_whiteout else r.maybe_whiteout

  abbrev pub add_linked : Rdd → Dirent → Option Tree → Rdd
  add_linked r x none = r
  add_linked r x (some t) =
      if not (k.allocated x.name) then record r { error = enomem } else record r {
        tree = k.rebalanced t;
        list = r.list ++ (entry_new r.is_upper x ∷ []);
        maybe_whiteout = maybe_more r x;
      }

  -- ovl_cache_entry_add_rb
  unfoldable pub add_rb : Rdd → Dirent → Rdd
  add_rb r x = add_linked r x (link r.tree x.name)

  -- ovl_fill_lowest
  unfoldable pub fill_lowest : Rdd → Dirent → Rdd
  fill_lowest r x =
      if find r.tree x.name
      then moved x.name r (extract x.name r.list)
      else if not (k.allocated x.name)
      then record r { error = enomem }
      else record r {
        front = r.front ++ (entry_new r.is_upper x ∷ []);
        maybe_whiteout = maybe_more r x;
      }

  -- ovl_fill_merge
  abbrev pub fill_merge : Rdd → Dirent → Rdd
  fill_merge r x = if not r.is_lowest then add_rb r x else fill_lowest r x

  -- One call of iterate_dir, which stops where the actor returns an error.
  unfoldable pub fill_all : Rdd → List Dirent → Rdd
  fill_all r [] = r
  fill_all r (x ∷ xs) =
      let q = fill_merge r x in let rest = fill_all q xs in if q.error == 0 then rest else q

  -- The loop of ovl_dir_read: until nothing more is delivered.
  unfoldable pub read_batches : Rdd → List (Res (List Dirent)) → Res Rdd
  read_batches r [] = ok r
  read_batches r (err e ∷ bs) = err e
  read_batches r (ok [] ∷ bs) = ok r
  read_batches r (ok (x ∷ xs) ∷ bs) =
      let q = fill_all r (x ∷ xs) in
      let rest = read_batches q bs in if q.error == 0 then rest else err q.error

  -- The loop of ovl_check_whiteouts.
  unfoldable pub mark_whiteouts : D → List (List ℕ) → Rdd → Rdd
  mark_whiteouts d [] r = r
  mark_whiteouts d (n ∷ ns) r = mark_whiteouts d ns (mark n (k.whiteout d n) r)

  abbrev pub if_locked : D → Rdd → Res (Unit {0}) → Res Rdd
  if_locked d r (err e) = err e
  if_locked d r (ok _) = ok (mark_whiteouts d r.maybe_whiteout r)

  abbrev pub any {ℓ} : {A : Type ℓ} → List A → Bool
  any [] = false
  any (_ ∷ _) = true

  abbrev pub check_whiteouts : D → Res Rdd → Res Rdd
  check_whiteouts d (err e) = err e
  check_whiteouts d (ok r) =
      if any r.maybe_whiteout && k.iterates then if_locked d r (k.locked d) else ok r

  abbrev pub if_open : D → Rdd → Res (Unit {0}) → Res Rdd
  if_open d r (err e) = err e
  if_open d r (ok _) =
      check_whiteouts d (read_batches (record r { maybe_whiteout = []; error = 0 }) (k.batches d))

  -- ovl_dir_read
  unfoldable pub dir_read : D → Rdd → Res Rdd
  dir_read d r = if_open d r (k.opens d)

  abbrev pub listed : Res Rdd → Res (List CacheEntry)
  listed (err e) = err e
  listed (ok r) = ok (r.front ++ r.list)

  abbrev pub then_read : Res Rdd → (Rdd → Res (List CacheEntry)) → Res (List CacheEntry)
  then_read (err e) go = err e
  then_read (ok r) go = go r

  -- The loop of ovl_dir_read_merged over the directories that ovl_path_next gives, each with
  -- whether it is the upper one. The last is read with `middle` at the head of the list.
  unfoldable pub read_layers : Rdd → List (Bool × D) → Res (List CacheEntry)
  read_layers r [] = listed (ok r)
  read_layers r ((u, d) ∷ []) = listed (dir_read d (record r { is_upper = u; is_lowest = true }))
  read_layers r ((u, d) ∷ p ∷ ps) =
      then_read (dir_read d (record r { is_upper = u })) (λ q. read_layers q (p ∷ ps))

  -- ovl_dir_read_merged
  unfoldable pub dir_read_merged : List (Bool × D) → Res (List CacheEntry)
  dir_read_merged paths =
      read_layers
        record {
          tree = leaf;
          front = [];
          list = [];
          is_lowest = false;
          is_upper = false;
          maybe_whiteout = [];
          error = 0;
        }
        paths
