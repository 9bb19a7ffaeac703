-- ===== src/Handle.antt =====
-- Overlay file handles (overlayfs.h, struct ovl_fh; copy_up.c, ovl_encode_real_fh; namei.c). A
-- handle is its bytes: five bytes of header, a uuid of 16, and the file identifier.
pub mod Store
pub mod RoundTrip
pub mod Refusal
use fzz_overlay.Base.{
  ℕ, ◌+◌, ◌*◌, ◌/◌, ◌%◌, ◌^◌, Bool, true, false, not, ◌&&◌, ◌||◌, List, [], ◌∷◌, ◌++◌, Option, none,
  some, ltb, ◌==◌, if◌then◌else◌, length, get_or, drop, take,
}
use fzz_overlay.Vfs.{Res, ok, err}

abbrev pub Fh : Type 0
Fh = List ℕ

-- sizeof(struct ovl_fh), which is also the offset of `fid`.
abbrev pub header_size : ℕ
header_size = 21

abbrev pub uuid_size : ℕ
uuid_size = 16

abbrev pub max_handle_size : ℕ
max_handle_size = 128

abbrev pub fh_version : Fh → ℕ
fh_version fh = get_or fh 0 0

abbrev pub fh_magic : Fh → ℕ
fh_magic fh = get_or fh 1 0

abbrev pub fh_len : Fh → ℕ
fh_len fh = get_or fh 2 0

abbrev pub fh_flags : Fh → ℕ
fh_flags fh = get_or fh 3 0

abbrev pub fh_type : Fh → ℕ
fh_type fh = get_or fh 4 0

abbrev pub fh_uuid : Fh → List ℕ
fh_uuid fh = take uuid_size (drop 5 fh)

abbrev pub fh_fid : Fh → List ℕ
fh_fid fh = drop header_size fh

abbrev pub magic : ℕ
magic = 0xfb

abbrev pub fileid_invalid : ℕ
fileid_invalid = 0xff

-- The flags: bit 0 is big endian, bit 1 any endian, bit 2 an upper path.
abbrev pub flag_bit : ℕ → ℕ → Bool
flag_bit flags k = flags / 2 ^ k % 2 == 1

abbrev pub einval : ℕ
einval = 22

abbrev pub enodata : ℕ
enodata = 61

abbrev pub eio : ℕ
eio = 5

abbrev pub enomem : ℕ
enomem = 12

-- `(flags & BIG_ENDIAN) != CPU_ENDIAN`, on a machine that is big endian or not.
abbrev pub bool_eq : Bool → Bool → Bool
bool_eq true b = b
bool_eq false b = not b

unfoldable pub check_fh_len : Bool → Fh → ℕ → Res (Unit {0})
check_fh_len big fh size =
    if ltb size header_size || ltb size (fh_len fh)
    then err einval
    else if not (fh_magic fh == magic)
    then err einval
    else if ltb 0 (fh_version fh) || not (fh_flags fh / 8 == 0)
    then err enodata
    else if not (flag_bit (fh_flags fh) 1) && not (bool_eq (flag_bit (fh_flags fh) 0) big)
    then err enodata
    else ok tt

-- What exportfs_encode_fh gives for a real dentry: a type, or a negative one, and the identifier.
pub record Real : Type 0 where
  pub uuid : List ℕ
  pub encoded_type : Option ℕ
  pub encoded_fid : List ℕ

-- kmalloc, called twice.
pub record Alloc : Type 0 where
  pub first : Bool
  pub second : Bool

abbrev pub cpu_flags : Bool → Bool → ℕ
cpu_flags big is_upper = (if big then 1 else 0) + (if is_upper then 4 else 0)

abbrev pub valid_type : Option ℕ → Bool
valid_type none = false
valid_type (some t) = not (t == fileid_invalid)

abbrev pub type_byte : Option ℕ → ℕ
type_byte none = 0
type_byte (some t) = t % 256

unfoldable pub encode_real_fh : Bool → Alloc → Real → Bool → Res Fh
encode_real_fh big alloc real is_upper =
    let size = header_size + length real.encoded_fid in
    if not alloc.first
    then err enomem
    else if not (valid_type real.encoded_type) || ltb max_handle_size (length real.encoded_fid)
    then err eio
    else if not alloc.second
    then err enomem
    else ok (
        0
        ∷ magic
        ∷ (size % 256)
        ∷ cpu_flags big is_upper
        ∷ type_byte real.encoded_type
        ∷ (real.uuid ++ real.encoded_fid))
