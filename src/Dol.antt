-- ===== src/Dol.antt =====
-- decompiler/src/dol.c, decompiler/include/dol.h: the loader of DOL executables.
-- The pointer `bytes` with its `size` is the list of the bytes of the file; a pointer into it is an
-- offset. The array of sections with `section_count` is the list of its populated part. The checks
-- for null arguments have no counterpart.
mod Sections
mod Sound
mod Accepts
mod Tests
use calynda_for_wii.Base.{
  false, ℕ, zero, suc, ◌+◌, ◌-◌, ◌*◌, ◌%◌, ◌^◌, Bool, true, not, ◌&&◌, ◌||◌, Option, some, none,
  List, [], ◌∷◌, ◌++◌, ◌==◌, ltb, leb, if◌then◌else◌, Bytes, length, get_or,
}

pub data DolStatus : Type 0 where
  dol_ok dol_err_null_arg dol_err_too_small dol_err_bad_section : DolStatus
  dol_err_overflow dol_err_misaligned dol_err_no_entrypoint : DolStatus

pub data DolSectionKind : Type 0 where
  dol_section_text dol_section_data : DolSectionKind

pub record DolSection : Type 0 where
  pub kind : DolSectionKind
  pub index : ℕ
  pub file_offset : ℕ
  pub virtual_addr : ℕ
  pub size : ℕ

pub record DolImage : Type 0 where
  pub bytes : Bytes
  pub size : ℕ
  pub entrypoint : ℕ
  pub bss_addr : ℕ
  pub bss_size : ℕ
  pub sections : List DolSection

abbrev pub dol_header_size : ℕ
dol_header_size = 0x100

abbrev pub dol_max_text_sections : ℕ
dol_max_text_sections = 7

abbrev pub dol_max_data_sections : ℕ
dol_max_data_sections = 11

-- `memset(out, 0, sizeof(*out))`
abbrev pub zero_image : DolImage
zero_image = record {
  bytes = [];
  size = 0;
  entrypoint = 0;
  bss_addr = 0;
  bss_size = 0;
  sections = [];
}

-- A step of the parse: the image, or the status with which it stops.
pub data Parsed (A : Type 0) : Type 0 where
  parsed : A → Parsed A
  failed : DolStatus → Parsed A

infixl 5 ◌>>=◌
abbrev pub ◌>>=◌ : {A B : Type 0} → Parsed A → (A → Parsed B) → Parsed B
parsed a >>= f = f a
failed st >>= f = failed st

-- `read_u32_be(bytes + at)`
unfoldable pub read_u32_be : Bytes → ℕ → ℕ
read_u32_be bytes at =
    get_or bytes at 0 * 2 ^ 24
    + get_or bytes (at + 1) 0 * 2 ^ 16
    + get_or bytes (at + 2) 0 * 2 ^ 8
    + get_or bytes (at + 3) 0

-- `none` says that the sum of two words is no word.
abbrev pub add_overflow_u32 : ℕ → ℕ → Option ℕ
add_overflow_u32 a b = if ltb (2 ^ 32 - 1 - b) a then none else some ((a + b) % 2 ^ 32)

-- The checks of a section that is not empty, in the order of the source.
unfoldable pub check_section : DolSection → ℕ → Option DolStatus
check_section s file_size =
    if not (s.file_offset % 4 == 0) || not (s.virtual_addr % 4 == 0) || not (s.size % 4 == 0)
    then some dol_err_misaligned
    else elim (add_overflow_u32 s.file_offset s.size) [
      | none ↦ some dol_err_overflow
      | some end ↦
          if ltb file_size end
          then some dol_err_bad_section
          else elim (add_overflow_u32 s.virtual_addr s.size) [
            | none ↦ some dol_err_overflow
            | some _ ↦ none
          ]
    ]

unfoldable pub push_section : DolImage → DolSection → ℕ → Parsed DolImage
push_section img s file_size =
    if s.size == 0 then parsed img else elim (check_section s file_size) [
      | none ↦ parsed (record img { sections = img.sections ++ s ∷ [] })
      | some st ↦ failed st
    ]

-- Where the header has the tables of offsets, addresses and sizes of a kind of section.
abbrev offsets_at : DolSectionKind → ℕ
offsets_at dol_section_text = 0x00
offsets_at dol_section_data = 0x1C

abbrev addrs_at : DolSectionKind → ℕ
addrs_at dol_section_text = 0x48
addrs_at dol_section_data = 0x64

abbrev sizes_at : DolSectionKind → ℕ
sizes_at dol_section_text = 0x90
sizes_at dol_section_data = 0xAC

-- The slot number `i` of the header.
unfoldable pub header_slot : Bytes → DolSectionKind → ℕ → DolSection
header_slot bytes kind i = record {
  kind = kind;
  index = i;
  file_offset = read_u32_be bytes (offsets_at kind + 4 * i);
  virtual_addr = read_u32_be bytes (addrs_at kind + 4 * i);
  size = read_u32_be bytes (sizes_at kind + 4 * i);
}

-- A loop over the slots of one kind: `rounds` are left, and `i` is the next.
unfoldable pub push_slots : Bytes → DolSectionKind → ℕ → ℕ → DolImage → Parsed DolImage
push_slots bytes kind zero i img = parsed img
push_slots bytes kind (suc rounds) i img =
    push_section img (header_slot bytes kind i) (length bytes)
    >>= push_slots bytes kind rounds (i + 1)

abbrev pub covers : DolSection → ℕ → Bool
covers s vaddr = leb s.virtual_addr vaddr && ltb vaddr ((s.virtual_addr + s.size) % 2 ^ 32)

unfoldable pub section_among : List DolSection → ℕ → Option DolSection
section_among [] vaddr = none
section_among (s ∷ rest) vaddr = if covers s vaddr then some s else section_among rest vaddr

abbrev pub dol_section_for_vaddr : DolImage → ℕ → Option DolSection
dol_section_for_vaddr img vaddr = section_among img.sections vaddr

-- `ep_sec && ep_sec->kind == DOL_SECTION_TEXT`
abbrev pub is_text : Option DolSection → Bool
is_text none = false
is_text (some s) = elim s.kind [ dol_section_text ↦ true | dol_section_data ↦ false ]

unfoldable pub check_entrypoint : DolImage → Parsed DolImage
check_entrypoint img =
    if is_text (dol_section_for_vaddr img img.entrypoint)
    then parsed img
    else failed dol_err_no_entrypoint

-- The image behind the loops over the sections.
abbrev pub read_tail : Bytes → DolImage → DolImage
read_tail bytes img = record img {
  bss_addr = read_u32_be bytes 0xD8;
  bss_size = read_u32_be bytes 0xDC;
  entrypoint = read_u32_be bytes 0xE0;
}

-- `dol_parse` up to its result.
unfoldable pub parse_image : Bytes → Parsed DolImage
parse_image bytes =
    if ltb (length bytes) dol_header_size
    then failed dol_err_too_small
    else push_slots bytes dol_section_text dol_max_text_sections 0
        (record zero_image { bytes = bytes; size = length bytes })
      >>= push_slots bytes dol_section_data dol_max_data_sections 0
      >>= (λ img. check_entrypoint (read_tail bytes img))

-- On an error the image is zeroed.
abbrev pub out_of : Parsed DolImage → DolStatus × DolImage
out_of (parsed img) = (dol_ok, img)
out_of (failed st) = (st, zero_image)

unfoldable pub dol_parse : Bytes → DolStatus × DolImage
dol_parse bytes = out_of (parse_image bytes)

-- The offset of the byte at a virtual address, with the bytes from there to the end of its section.
unfoldable pub dol_vaddr_to_ptr : DolImage → ℕ → Option (ℕ × ℕ)
dol_vaddr_to_ptr img vaddr = elim (dol_section_for_vaddr img vaddr) [
  | none ↦ none
  | some s ↦
      let delta = (vaddr + 2 ^ 32 - s.virtual_addr) % 2 ^ 32 in
      some (s.file_offset + delta, (s.size + 2 ^ 32 - delta) % 2 ^ 32)
]
