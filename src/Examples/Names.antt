-- ===== src/Examples/Names.antt =====
-- A file is removed, a directory is made over a whiteout, and a file is renamed, in directories
-- that are a table; and a redirect of two names.
use fzz_overlay.Base.{
  arith, ℕ, ◌≡◌, refl, Bool, true, false, not, ◌&&◌, List, [], ◌∷◌, Option, none, some,
}
use fzz_overlay.Vfs.{ok}
use fzz_overlay.Dentry.{Mode, Node, dentry_is_whiteout}
use fzz_overlay.Lookup.{slash, get_redirect_xattr}
use fzz_overlay.Dir.{Place, Ent, Kind, typed, World}
use fzz_overlay.Dir.Made.{Cattr, Format, ifdir, make_of, Side, St, Two}
use fzz_overlay.Dir.Remove as Remove
use fzz_overlay.Dir.Remove.{do_remove}
use fzz_overlay.Dir.Remove.Gone.{Removed, do_remove-Removed}
use fzz_overlay.Dir.Redirect.{Step, get_redirect, exdev}
use fzz_overlay.Dir.Redirect.Absolute.{get_redirect-path_of}
use fzz_overlay.Dir.Create as Create
use fzz_overlay.Dir.Create.{Acl, create_or_link, is_link, is_ifdir}
use fzz_overlay.Dir.Create.Over.{Shown}
use fzz_overlay.Dir.Create.Shown.{create_or_link-Shown}
use fzz_overlay.Dir.Rename as Rename
use fzz_overlay.Dir.Rename.{way, rename_locked}
use fzz_overlay.Dir.Rename.Moved.{Renamed, rename_locked-Renamed}
use fzz_overlay.Examples.Memory.{memory}
use fzz_overlay.Examples.Copies.{file}
use fzz_overlay.Examples.Table.{Table, table, table-Laws}

abbrev in_upper : List ℕ → Place
in_upper name = record { dir = 1; name = name }

abbrev name_a : List ℕ
name_a = b'a' ∷ []

abbrev name_b : List ℕ
name_b = b'b' ∷ []

-- The upper directory 1 has a file `a`, number 5, and a whiteout `b`, number 3.
abbrev start : Table
start = record {
  slots =
      record { place = in_upper name_a; ino = some 5 }
      ∷ record { place = in_upper name_b; ino = some 3 }
      ∷ [];
  attrs = λ i x. none;
}

abbrev world : World table
world = record { fs = start; temp_id = 0; noxattr = false }

abbrev side : Node memory → List ℕ → Side memory
side n name = record {
  node = n;
  parent = file (some 1) Mode.dir true;
  name = name;
  dir = 1;
  upper_at = in_upper name;
  redirect = none;
  nlink = 1;
  version = 0;
  hashed = true;
}

abbrev absent : Bool → Node memory
absent opaque = let n = file none Mode.reg false in record n { positive = false; opaque = opaque }

abbrev file_a : Side memory
file_a = side (file (some 5) Mode.reg true) name_a

abbrev lower_a : Option Ent
lower_a = some (record { ino = 20; kind = typed Mode.reg })

abbrev removal : Remove.Calls
removal = record {
  workdir = some 2;
  trapped = false;
  getattr = ok ifdir;
  copy_xattr = ok tt;
  set_attr = ok tt;
  check_empty_dir = ok [];
  want_write = ok tt;
  copy_up_parent = ok tt;
  nlink_start = ok tt;
}

abbrev with_a : St memory table
with_a = record { world = world; side = file_a }

do_remove-Removed_example : Removed 2 lower_a with_a (do_remove removal true false with_a)
do_remove-Removed_example =
    do_remove-Removed table-Laws removal true false 2 lower_a with_a refl (λ z. cc)

do_remove_ok : (do_remove removal true false with_a).0 ≡ ok tt
unfolding do_remove Remove.remove_and_whiteout fzz_overlay.Dir.Made.lock_rename_workdir
    fzz_overlay.Dentry.dentry_upper Remove.matches_upper
    fzz_overlay.Dir.Whiteout.cleanup_and_whiteout fzz_overlay.Dir.Whiteout.whiteout_in
    fzz_overlay.Dir.Whiteout.lookup_temp
do_remove_ok = refl

abbrev no_acl : Acl
no_acl = record { given = false; allocated = true; to_xattr = ok 0; stored = ok tt }

abbrev creation : Create.Calls
creation = record {
  workdir = some 2;
  trapped = false;
  is_posixacl = false;
  umasked = λ m. m;
  acl_create = ok 493;
  acl = no_acl;
  default_acl = no_acl;
  mode_differs = false;
  notify_change = ok tt;
  get_inode = ok tt;
  want_write = ok tt;
  new_inode = true;
  owned = λ m. m;
  copy_up_parent = ok tt;
  impure_set = ok tt;
  creds = true;
  security = ok tt;
  copy_up_old = ok tt;
  nlink_start = ok tt;
}

abbrev new_directory : Cattr
new_directory = record { rdev = 0; format = ifdir; perm = 493; hardlink = none }

abbrev over_b : St memory table
over_b = record { world = world; side = side (absent true) name_b }

create_or_link-Shown_example :
    Shown creation 2
      (make_of new_directory)
      (dentry_is_whiteout (absent true)
        && (not (is_link new_directory) && is_ifdir new_directory.format))
      over_b
      (create_or_link creation new_directory false over_b)
unfolding make_of
create_or_link-Shown_example =
    create_or_link-Shown table-Laws creation 2 new_directory false over_b refl refl

create_or_link_ok : (create_or_link creation new_directory false over_b).0 ≡ ok tt
unfolding create_or_link dentry_is_whiteout Create.create_over_whiteout
    fzz_overlay.Dir.Made.lock_rename_workdir fzz_overlay.Dir.Made.create_temp
    fzz_overlay.Dir.Whiteout.lookup_temp fzz_overlay.Dir.Made.create_real make_of
    fzz_overlay.Dir.Made.mkdir_real Create.prepare_new Create.set_upper_acl
    fzz_overlay.Dir.Made.set_opaque fzz_overlay.Dir.Made.set_opaque_xerr fzz_overlay.Dir.check_set
    Create.instantiate
create_or_link_ok = refl

abbrev renaming : Rename.Calls
renaming = record {
  redirect_dir = true;
  redirect_max = 256;
  old_allocated = true;
  new_allocated = true;
  old_path = [];
  new_path = [];
  check_empty_dir = ok [];
  want_write = ok tt;
  copy_up_old = ok tt;
  copy_up_parent = ok tt;
  copy_up_new = ok tt;
  nlink_start = ok tt;
  removal = removal;
  old_impure = creation;
  new_impure = creation;
  trap = none;
}

-- `a`, which the lower layers have too, takes the place of the whiteout.
abbrev a_to_b : Two memory table
a_to_b = record { world = world; old = file_a; new = side (absent true) name_b }

rename_locked-Renamed_example :
    Renamed false lower_a a_to_b (
      rename_locked renaming
        (way false true a_to_b.old.node a_to_b.new.node)
        false
        true
        none
        a_to_b)
rename_locked-Renamed_example =
    rename_locked-Renamed table-Laws renaming false true true none lower_a a_to_b (λ z. cc)

rename_locked_ok :
    (rename_locked renaming
      (way false true a_to_b.old.node a_to_b.new.node)
      false
      true
      none
      a_to_b).0
    ≡ ok tt
unfolding rename_locked Rename.check_places Remove.matches_upper fzz_overlay.Dentry.dentry_upper
    Rename.mark_both Rename.mark_moved fzz_overlay.Dir.Redirect.type_merge_or_lower
    fzz_overlay.Dentry.path_type fzz_overlay.Dentry.has_upperdata
    fzz_overlay.Dentry.should_check_upperdata fzz_overlay.Dir.Redirect.set_redirect get_redirect
    fzz_overlay.Dir.Redirect.need_absolute_redirect fzz_overlay.Dir.check_set Rename.do_rename way
    dentry_is_whiteout
rename_locked_ok = refl

abbrev at_a : Step
at_a = record { name = name_a; redirect = none }

abbrev at_b : Step
at_b = record { name = name_b; redirect = none }

get_redirect-path_of_example :
    (get_redirect 256 true name_b (at_b ∷ at_a ∷ []) true ≡ ok (slash ∷ b'a' ∷ slash ∷ b'b' ∷ []))
    × (get_redirect_xattr (ok (slash ∷ b'a' ∷ slash ∷ b'b' ∷ []))
        ≡ ok (some (slash ∷ b'a' ∷ slash ∷ b'b' ∷ [])))
get_redirect-path_of_example =
    get_redirect-path_of 256 name_b at_b (at_a ∷ [])
      (refl, (omega arith, tt), (refl, (omega arith, tt), tt))
