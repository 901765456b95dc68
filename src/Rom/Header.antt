-- ===== src/Rom/Header.antt =====
-- The header of a cartridge image, `readHeader` of runner/src/snes/snes_other.c. A shift that C
-- leaves undefined is `none`.
use snesrecomp.Base.{
  ℕ, ◌+◌, ◌-◌, ◌*◌, ◌/◌, ◌%◌, ◌^◌, Bool, true, false, ◌&&◌, ◌||◌, List, [], ◌∷◌, ◌++◌, map, Option,
  some, none, take, drop, get_or, length, ltb, leb, ◌==◌, if◌then◌else◌, word, ℤ, pos, negsuc, ◌+ℤ◌,
}

pub record CartHeader : Type 0 where
  pub header_version : ℕ
  pub name : List ℕ
  pub speed : ℕ
  pub type : ℕ
  pub coprocessor : ℕ
  pub chips : ℕ
  pub rom_size : Option ℕ
  pub ram_size : Option ℕ
  pub region : ℕ
  pub maker : ℕ
  pub version : ℕ
  pub checksum_complement : ℕ
  pub checksum : ℕ
  pub maker_code : List ℕ
  pub game_code : List ℕ
  pub flash_size : Option ℕ
  pub ex_ram_size : Option ℕ
  pub special_version : ℕ
  pub ex_coprocessor : ℕ
  pub score : ℤ
  pub pal : Bool
  pub cart_type : ℕ

-- `memset(headers, 0, sizeof(headers)); headers[i].score = -50;`
abbrev pub blank_header : CartHeader
blank_header = record {
  header_version = 0;
  name = [];
  speed = 0;
  type = 0;
  coprocessor = 0;
  chips = 0;
  rom_size = some 0;
  ram_size = some 0;
  region = 0;
  maker = 0;
  version = 0;
  checksum_complement = 0;
  checksum = 0;
  maker_code = [];
  game_code = [];
  flash_size = some 0;
  ex_ram_size = some 0;
  special_version = 0;
  ex_coprocessor = 0;
  score = negsuc 49;
  pal = false;
  cart_type = 0;
}

-- A character of a name, or `.`.
abbrev pub printable : ℕ → ℕ
printable ch = if leb 0x20 ch && ltb ch 0x7f then ch else 46

-- `n` characters at `location` and the zero behind them.
unfoldable pub text : List ℕ → ℕ → ℕ → List ℕ
text bytes location n = map printable (take n (drop location bytes)) ++ (0 ∷ [])

-- `0x400 << x`, an `int`.
unfoldable pub kilobytes : ℕ → Option ℕ
kilobytes x = if ltb x 21 then some (0x400 * 2 ^ x) else none

-- The fields that every version has.
unfoldable pub read_common : List ℕ → ℕ → CartHeader → CartHeader
unfolding text kilobytes
read_common bytes location h = record h {
  name = text bytes location 21;
  speed = get_or bytes (location + 0x15) 0 / 16;
  type = get_or bytes (location + 0x15) 0 % 16;
  coprocessor = get_or bytes (location + 0x16) 0 / 16;
  chips = get_or bytes (location + 0x16) 0 % 16;
  rom_size = kilobytes (get_or bytes (location + 0x17) 0);
  ram_size = kilobytes (get_or bytes (location + 0x18) 0);
  region = get_or bytes (location + 0x19) 0;
  maker = get_or bytes (location + 0x1a) 0;
  version = get_or bytes (location + 0x1b) 0;
  checksum_complement = word (get_or bytes (location + 0x1c) 0) (get_or bytes (location + 0x1d) 0);
  checksum = word (get_or bytes (location + 0x1e) 0) (get_or bytes (location + 0x1f) 0);
}

-- The fields in front of the header, which versions 2 and 3 have.
unfoldable pub read_extended : List ℕ → ℕ → CartHeader → CartHeader
unfolding text kilobytes
read_extended bytes location h =
    if h.maker == 0x33
    then (record h {
      header_version = 3;
      maker_code = text bytes (location - 0x10) 2;
      game_code = text bytes (location - 0xe) 4;
      flash_size = kilobytes (get_or bytes (location - 4) 0);
      ex_ram_size = kilobytes (get_or bytes (location - 3) 0);
      special_version = get_or bytes (location - 2) 0;
      ex_coprocessor = get_or bytes (location - 1) 0;
    })
    else if get_or bytes (location + 0x14) 0 == 0
    then (record h { header_version = 2; ex_coprocessor = get_or bytes (location - 1) 0 })
    else record h { header_version = 1 }

-- `resetVector`
abbrev pub reset_vector : List ℕ → ℕ → ℕ
reset_vector bytes location =
    word (get_or bytes (location + 0x3c) 0) (get_or bytes (location + 0x3d) 0)

abbrev pub is_defined : Option ℕ → Bool
is_defined none = false
is_defined (some n) = true

-- No shift of the header was undefined.
abbrev pub sizes_defined : CartHeader → Bool
sizes_defined h =
    is_defined h.rom_size
    && is_defined h.ram_size
    && is_defined h.flash_size
    && is_defined h.ex_ram_size

-- The terms for the fields.
unfoldable pub field_score : CartHeader → ℤ
field_score h =
    (if h.speed == 2 || h.speed == 3 then pos 5 else negsuc 3)
    +ℤ (if leb h.type 3 || h.type == 5 then pos 5 else negsuc 1)
    +ℤ (if leb h.coprocessor 5 || leb 0xe h.coprocessor then pos 5 else negsuc 1)
    +ℤ (if leb h.chips 6 || (h.chips == 9 || h.chips == 0xa) then pos 5 else negsuc 1)
    +ℤ (if leb h.region 0x14 then pos 5 else negsuc 1)
    +ℤ (if h.checksum + h.checksum_complement == 0xffff then pos 8 else negsuc 5)

-- The terms for the first instruction; behind the image it counts as 0xff.
unfoldable pub opcode_score : List ℕ → ℕ → ℤ
opcode_score bytes location =
    let at = location + 0x40 - 0x8000 + reset_vector bytes location % 2 ^ 15 in
    let inside = ltb at (length bytes) in
    let opcode = if inside then get_or bytes at 0 else 0xff in
    (if inside then pos 0 else negsuc 13)
    +ℤ (if opcode == 0x78 || opcode == 0x18 then pos 6 else pos 0)
    +ℤ (if opcode == 0x4c || (opcode == 0x5c || opcode == 0x9c) then pos 3 else pos 0)
    +ℤ (if opcode == 0x00 || (opcode == 0xff || opcode == 0xdb) then negsuc 5 else pos 0)

-- `readHeader`
unfoldable pub read_header : List ℕ → ℕ → CartHeader → CartHeader
unfolding read_common read_extended field_score opcode_score
read_header bytes location blank =
    let h = read_extended bytes location (read_common bytes location blank) in
    let vector = if leb 0x8000 (reset_vector bytes location) then pos 8 else negsuc 19 in
    record h {
      pal = (leb 2 h.region && leb h.region 0xc) || h.region == 0x11;
      cart_type = if ltb location 0x9000 then 1 else 2;
      score = field_score h +ℤ vector +ℤ opcode_score bytes location;
    }
