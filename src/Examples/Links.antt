-- ===== src/Examples/Links.antt =====
-- Link counts, where a number is written as a sign and one digit.
use fzz_overlay.Base.{ℕ, ◌+◌, false, ◌≡◌, refl, List, [], ◌∷◌, some, arith}
use fzz_overlay.Vfs.{Res, ok, err}
use fzz_overlay.Dentry.Numbers.{
  Stat, Devices, map_dev_ino, remap_lower_ino, map_dev_ino-remap_lower_ino,
}
use fzz_overlay.Dentry.Nlink.{Decimal, Reads, nlink_text, get_nlink, get_nlink-nlink_text}

abbrev digit : List ℕ → Res ℕ
digit (sign ∷ n ∷ []) = ok n
digit _ = err 22

abbrev one_digit : Decimal
one_digit = record { text = λ n. b'+' ∷ n ∷ []; parse = digit }

one_digit-Reads : Reads one_digit
one_digit-Reads = record {
  back = λ n b. refl;
  signed = λ n. (b'+', n ∷ [], refl, refl);
  short = λ n. omega arith;
}

get_nlink-nlink_text_example :
    (nlink_text one_digit b'U' 3 1 ≡ ok (b'U' ∷ b'+' ∷ 2 ∷ []))
    × (get_nlink one_digit (some 2) (some 3) 1 (ok (b'U' ∷ b'+' ∷ 2 ∷ [])) ≡ 5)
get_nlink-nlink_text_example =
    get_nlink-nlink_text one_digit 3 1 2 2 1 one_digit-Reads (omega arith) (omega arith)
      (omega arith) (omega arith) (omega arith)

-- Two bits for the file system; the upper layer's device is 50.
abbrev devices : Devices
devices = record { samefs = false; xinobits = 2; s_dev = 100; pseudo_dev = λ f. 200 + f }

abbrev file_9 : ℕ → Stat
file_9 dev = record { dev = dev; ino = 9 }

map_dev_ino-remap_lower_ino_example :
    (map_dev_ino devices false 3 (some 1) (file_9 7)).ino ≡ remap_lower_ino 9 2 1
map_dev_ino-remap_lower_ino_example = map_dev_ino-remap_lower_ino devices 1 (file_9 7) 3 refl refl
