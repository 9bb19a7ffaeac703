-- ===== src/Examples/Table.antt =====
-- Directories as a table of names: a kernel that makes, moves and removes entries, and stores
-- attributes, as the laws say.
use fzz_overlay.Base.{
  ℕ, ◌+◌, ◌*◌, ◌%◌, ◌≤◌, ◌≡◌, ◌≢◌, refl, sym, ap, ◌∙◌, Bool, Bool-cases, true, false, ◌&&◌, List,
  [], ◌∷◌, Option, none, some, ◌==◌, if◌then◌else◌, inl, inr, arith, max,
}
use mathlib.Core.Path.{subst}
use fzz_overlay.Vfs.{Res, ok, err}
use fzz_overlay.Handle.Store.{bytes_eq}
use fzz_overlay.Handle.RoundTrip.{bytes_eq_refl, bytes_eq→eq}
use fzz_overlay.Dentry.{Mode}
use fzz_overlay.Dir.{
  Dirs, Laws, Place, Ent, Kind, whiteout, typed, Attribute, opaque_xattr, redirect_xattr,
  impure_xattr, Flag, plain, exchange, whiteout_source, Make, create, mkdir, symlink, mknod, link,
  Changes, Moves, IsFresh, MadeAs, same_inode,
}

pub record Slot : Type 0 where
  pub place : Place
  pub ino : Option ℕ

pub record Table : Type 0 where
  pub slots : List Slot
  pub attrs : ℕ → Attribute → Option (List ℕ)

abbrev same_place : Place → Place → Bool
same_place p q = p.dir == q.dir && bytes_eq p.name q.name

same_place_refl : (p : Place) → same_place p p ≡ true
same_place_refl p = ground (arith, bytes_eq_refl p.name)

same_place_ne : (p q : Place) → q ≢ p → same_place q p ≡ false
same_place_ne p q n = elim (Bool-cases (same_place q p)) [
  | inr h ↦ h
  | inl h ↦
      let d : q.dir ≡ p.dir = ground (arith, h) in
      let m : q.name ≡ p.name = bytes_eq→eq q.name p.name (ground (arith, h)) in
      absurd (
        n (
          ap (λ x. record { dir = x; name = q.name }) d
          ∙ ap (λ y. record { dir = p.dir; name = y }) m))
]

-- The kind of an inode goes with its number.
abbrev kind_of : ℕ → Kind
kind_of i = if i % 3 == 0 then whiteout else if i % 3 == 1 then typed Mode.dir else typed Mode.reg

abbrev ent : ℕ → Ent
ent i = record { ino = i; kind = kind_of i }

abbrev ent_of : Option ℕ → Option Ent
ent_of none = none
ent_of (some i) = some (ent i)

abbrev find : List Slot → Place → Option ℕ
find [] q = none
find (x ∷ xs) q = if same_place q x.place then x.ino else find xs q

abbrev ino_or : Option ℕ → ℕ
ino_or none = 0
ino_or (some i) = i

abbrev highest : List Slot → ℕ
highest [] = 0
highest (x ∷ xs) = max (ino_or x.ino) (highest xs)

-- A number that no entry has, of the kind.
abbrev unused : List Slot → ℕ → ℕ
unused xs k = 3 * (highest xs + 1) + k

abbrev put : Place → Option ℕ → List Slot → List Slot
put p o xs = record { place = p; ino = o } ∷ xs

abbrev with_slots : Table → List Slot → Table
with_slots t xs = record t { slots = xs }

abbrev swap : Place → Place → Option ℕ → Option ℕ → Table → Res Table
swap p q (some i) (some j) t = ok (with_slots t (put p (some j) (put q (some i) t.slots)))
swap p q _ _ t = err 2

abbrev move : Place → Place → Option ℕ → Option ℕ → Table → Res Table
move p q left none t = err 2
move p q left (some i) t = ok (with_slots t (put p left (put q (some i) t.slots)))

abbrev rename_by : Table → Place → Place → Flag → Res Table
rename_by t p q exchange =
    if same_place q p then err 22 else swap p q (find t.slots p) (find t.slots q) t
rename_by t p q plain = move p q none (find t.slots p) t
rename_by t p q whiteout_source = move p q (some (unused t.slots 0)) (find t.slots p) t

abbrev make_by : Table → Place → Make → Res Table
make_by t p create = ok (with_slots t (put p (some (unused t.slots 2)) t.slots))
make_by t p mkdir = ok (with_slots t (put p (some (unused t.slots 1)) t.slots))
make_by t p _ = err 1

abbrev same_attribute : Attribute → Attribute → Bool
same_attribute opaque_xattr opaque_xattr = true
same_attribute redirect_xattr redirect_xattr = true
same_attribute impure_xattr impure_xattr = true
same_attribute _ _ = false

abbrev set_attr : Table → ℕ → Attribute → List ℕ → Table
set_attr t i x val = record t {
  attrs = λ j y. if j == i && same_attribute y x then some val else t.attrs j y;
}

abbrev pub table : Dirs
table = record {
  Fs = Table;
  at = λ t p. ent_of (find t.slots p);
  xattr = λ t. t.attrs;
  lookup_one_len = λ t p. ok tt;
  rmdir = λ t d p. ok (with_slots t (put p none t.slots));
  unlink = λ t d p. ok (with_slots t (put p none t.slots));
  do_whiteout = λ t d p. ok (with_slots t (put p (some (unused t.slots 0)) t.slots));
  rename = rename_by;
  make = make_by;
  setxattr = λ t i x val. ok (set_attr t i x val);
  unhashed = λ t p. false;
}

find-put : (p : Place) (o : Option ℕ) (xs : List Slot) → find (put p o xs) p ≡ o
find-put p o xs = rw (same_place_refl p) refl

find-put_ne :
    (p q : Place) (o : Option ℕ) (xs : List Slot) → q ≢ p → find (put p o xs) q ≡ find xs q
find-put_ne p q o xs n = rw (same_place_ne p q n) refl

find-highest : (xs : List Slot) (q : Place) → ino_or (find xs q) ≤ highest xs
find-highest [] q = omega arith
find-highest (x ∷ xs) q = elim (Bool-cases (same_place q x.place)) [
  | inl h ↦ rw h (omega arith)
  | inr h ↦ rw h (omega (arith, find-highest xs q))
]

-- Attributes are those of the inodes, and stay.
put_Changes :
    (t : Table) (p : Place) (o : Option ℕ)
    → Changes table t p (ent_of o) (with_slots t (put p o t.slots))
put_Changes t p o = record {
  here = ap ent_of (find-put p o t.slots);
  others = λ q n. ap ent_of (find-put_ne p q o t.slots n);
  kept = λ q z e f a b i x. ap (λ k. t.attrs k x) i;
}

-- The entry under the other name, if it is another one.
put_Moves :
    (t : Table) (p q : Place) (o o' : Option ℕ)
    → q ≢ p
    → Moves table t p q (ent_of o) (ent_of o') (with_slots t (put p o (put q o' t.slots)))
put_Moves t p q o o' n = record {
  old = ap ent_of (find-put p o (put q o' t.slots));
  new = ap ent_of (find-put_ne p q o (put q o' t.slots) n ∙ find-put q o' t.slots);
  others =
      λ z a b. ap ent_of (find-put_ne p z o (put q o' t.slots) a ∙ find-put_ne q z o' t.slots b);
  kept = λ q z e f a b i x. ap (λ k. t.attrs k x) i;
}

ent_kind : (o : Option ℕ) (e : Ent) → ent_of o ≡ some e → e.kind ≡ kind_of e.ino
ent_kind none e h = cc
ent_kind (some i) e h = let same : ent i ≡ e = cc in subst (λ z. z.kind ≡ kind_of z.ino) same refl

ent_ino : (o : Option ℕ) (e : Ent) → ent_of o ≡ some e → ino_or o ≡ e.ino
ent_ino none e h = cc
ent_ino (some i) e h = let same : ent i ≡ e = cc in ap Ent.ino same

kind_whiteout : (n : ℕ) → kind_of (3 * (n + 1) + 0) ≡ whiteout
kind_whiteout n = ground arith

kind_dir : (n : ℕ) → kind_of (3 * (n + 1) + 1) ≡ typed Mode.dir
kind_dir n = ground arith

kind_reg : (n : ℕ) → kind_of (3 * (n + 1) + 2) ≡ typed Mode.reg
kind_reg n = ground arith

unused_IsFresh : (t : Table) (k : ℕ) → IsFresh table t (unused t.slots k)
unused_IsFresh t k q e h i =
    let same = ent_ino (find t.slots q) e h in omega (arith, find-highest t.slots q, same, i)

other_place :
    (t : Table) (p q : Place) (e : Ent)
    → ent_of (find t.slots p) ≡ some e
    → same_inode (some e) (ent_of (find t.slots q)) ≡ false
    → q ≢ p
other_place t p q e a d n =
    let same : same_inode (some e) (some e) ≡ false =
      ap (same_inode (some e)) (sym (ap (λ z. ent_of (find t.slots z)) n ∙ a)) ∙ d in
    ground (arith, same)

moved :
    (t : Table) (p q : Place) (left o : Option ℕ) (e : Ent) (u : Table)
    → ent_of o ≡ some e
    → q ≢ p
    → move p q left o t ≡ ok u
    → Moves table t p q (ent_of left) (some e) u
moved t p q left none e u a n h = cc
moved t p q left (some i) e u a n h =
    let same : with_slots t (put p left (put q (some i) t.slots)) ≡ u = cc in
    subst (λ z. Moves table t p q (ent_of left) (some e) z) same
      (subst
        (λ z.
          Moves table t p q (ent_of left) z (with_slots t (put p left (put q (some i) t.slots))))
        a (put_Moves t p q left (some i) n))

swapped :
    (t : Table) (p q : Place) (o o' : Option ℕ) (u : Table)
    → find t.slots p ≡ o
    → find t.slots q ≡ o'
    → q ≢ p
    → swap p q o o' t ≡ ok u
    → (e f : Ent) × (ent_of (find t.slots p) ≡ some e)
      × (ent_of (find t.slots q) ≡ some f)
      × Moves table t p q (some f) (some e) u
swapped t p q none o' u a b n h = cc
swapped t p q (some i) none u a b n h = cc
swapped t p q (some i) (some j) u a b n h =
    let same : with_slots t (put p (some j) (put q (some i) t.slots)) ≡ u = cc in
    (
      ent i,
      ent j,
      ap ent_of a,
      ap ent_of b,
      subst (λ z. Moves table t p q (some (ent j)) (some (ent i)) z) same
          (put_Moves t p q (some j) (some i) n),
    )

put_by :
    (t : Table) (p : Place) (o : Option ℕ) (u : Table)
    → ok (with_slots t (put p o t.slots)) ≡ ok u
    → Changes table t p (ent_of o) u
put_by t p o u h =
    let same : with_slots t (put p o t.slots) ≡ u = cc in
    subst (λ z. Changes table t p (ent_of o) z) same (put_Changes t p o)

made :
    (t : Table) (p : Place) (m : Make) (u : Table)
    → make_by t p m ≡ ok u
    → (e : Ent) × MadeAs m e × Changes table t p (some e) u
made t p create u h = (ent (unused t.slots 2), kind_reg (highest t.slots), put_by t p _ u h)
made t p mkdir u h = (ent (unused t.slots 1), kind_dir (highest t.slots), put_by t p _ u h)
made t p symlink u h = cc
made t p (mknod c d) u h = cc
made t p (link e) u h = cc

differs_place : (p q : Place) → same_place q p ≡ false → q ≢ p
differs_place p q h e =
    let same : same_place p p ≡ false = ap (λ z. same_place z p) (sym e) ∙ h in
    cc (sym same ∙ same_place_refl p)

exchanged :
    (t : Table) (p q : Place) (b : Bool) (u : Table)
    → same_place q p ≡ b
    → (if b then err 22 else swap p q (find t.slots p) (find t.slots q) t) ≡ ok u
    → (e f : Ent) × (ent_of (find t.slots p) ≡ some e)
      × (ent_of (find t.slots q) ≡ some f)
      × Moves table t p q (some f) (some e) u
exchanged t p q true u h k = cc
exchanged t p q false u h k = swapped t p q _ _ u refl refl (differs_place p q h) k

same_attribute_refl : (x : Attribute) → same_attribute x x ≡ true
same_attribute_refl opaque_xattr = refl
same_attribute_refl redirect_xattr = refl
same_attribute_refl impure_xattr = refl

same_attribute→eq : (x y : Attribute) → same_attribute y x ≡ true → y ≡ x
same_attribute→eq opaque_xattr opaque_xattr h = refl
same_attribute→eq redirect_xattr redirect_xattr h = refl
same_attribute→eq impure_xattr impure_xattr h = refl
same_attribute→eq _ _ h = cc

set_itself :
    (t : Table) (i : ℕ) (x : Attribute) (val : List ℕ) → (set_attr t i x val).attrs i x ≡ some val
set_itself t i x val =
    let same : (i == i && same_attribute x x) ≡ true = ground (arith, same_attribute_refl x) in
    rw same refl

set_others :
    (t : Table) (i j : ℕ) (x y : Attribute) (val : List ℕ)
    → y ≢ x
    → (set_attr t i x val).attrs j y ≡ t.attrs j y
set_others t i j x y val n = elim (Bool-cases (same_attribute y x)) [
  | inl h ↦ absurd (n (same_attribute→eq x y h))
  | inr h ↦ let no : (j == i && same_attribute y x) ≡ false = ground (arith, h) in rw no refl
]

was_set :
    (t : Table) (i : ℕ) (x : Attribute) (val : List ℕ) (u : Table)
    → set_attr t i x val ≡ u
    → ((q : Place) → table.at u q ≡ table.at t q)
      × (u.attrs i x ≡ some val)
      × ((j : ℕ) (y : Attribute) → y ≢ x → u.attrs j y ≡ t.attrs j y)
was_set t i x val u h =
    subst
      (λ z.
        ((q : Place) → table.at z q ≡ table.at t q)
        × (z.attrs i x ≡ some val)
        × ((j : ℕ) (y : Attribute) → y ≢ x → z.attrs j y ≡ t.attrs j y))
      h (λ q. refl, set_itself t i x val, λ j y n. set_others t i j x y val n)

pub table-Laws : Laws table
table-Laws = record {
  one_kind = λ t p q e f a b i.
      ent_kind (find t.slots p) e a ∙ ap kind_of i ∙ sym (ent_kind (find t.slots q) f b);
  rmdir_lem = λ t p u h. put_by t p none u h;
  unlink_lem = λ t p u h. put_by t p none u h;
  do_whiteout_lem = λ t p u h. (
    ent (unused t.slots 0),
    kind_whiteout (highest t.slots),
    unused_IsFresh t 0,
    put_by t p (some (unused t.slots 0)) u h,
  );
  make_lem = λ t p m u n h. made t p m u h;
  plain_lem =
      λ t p q e u a d h. moved t p q none (find t.slots p) e u a (other_place t p q e a d) h;
  whiteout_source_lem = λ t p q e u a d h. (
    ent (unused t.slots 0),
    kind_whiteout (highest t.slots),
    moved t p q (some (unused t.slots 0)) (find t.slots p) e u a (other_place t p q e a d) h,
  );
  exchange_lem = λ t p q u h. exchanged t p q (same_place q p) u refl h;
  setxattr_lem =
      λ t i x val u h. let same : set_attr t i x val ≡ u = cc in was_set t i x val u same;
}
