-- ===== src/Dol/Tests.antt =====
-- A small image, and the theorems at it.
use calynda_for_wii.Base.{
  ◌↔◌, Bool, true, ltb, ◌&&◌, some, ◌+◌, ◌-◌, ◌≤◌, some, ◌<◌, [], ◌∷◌, ◌++◌, ◌≡◌, refl, Bytes,
  length, replicate, arith,
}
use calynda_for_wii.Dol.Sections.{IsBytes}
use calynda_for_wii.Dol.{DolSection}
use calynda_for_wii.Dol.Accepts.{IsExecutable, dol_parse_iff}
use calynda_for_wii.Dol.Sound.{Holds, IsImage, dol_parse-IsImage, dol_vaddr_to_ptr_bounds}
use calynda_for_wii.Dol.{
  check_entrypoint, section_among, read_u32_be, header_slot, check_section, push_section,
  push_slots, parse_image, DolImage, dol_parse, dol_ok, dol_vaddr_to_ptr,
}

-- One text section of 8 bytes at offset 0x100, at address 0x80004000, and the entry point there.
abbrev file : Bytes
file =
    0
    ∷ 0
    ∷ 1
    ∷ 0
    ∷ (replicate 0x44 0
        ++ (0x80
            ∷ 0
            ∷ 0x40
            ∷ 0
            ∷ (replicate 0x44 0
                ++ (0
                    ∷ 0
                    ∷ 0
                    ∷ 8
                    ∷ (replicate 0x4C 0 ++ (0x80 ∷ 0 ∷ 0x40 ∷ 4 ∷ replicate 0x24 0))))))

abbrev image : DolImage
image = (dol_parse file).1

parse-file : dol_parse file ≡ (dol_ok, image)
unfolding dol_parse parse_image push_slots push_section check_section header_slot read_u32_be
    section_among check_entrypoint
parse-file = refl

abbrev all_bytes : Bytes → Bool
all_bytes [] = true
all_bytes (b ∷ bytes) = ltb b 256 && all_bytes bytes

all_bytes-IsBytes : (bytes : Bytes) → all_bytes bytes ≡ true → IsBytes bytes
all_bytes-IsBytes [] h = tt
all_bytes-IsBytes (b ∷ bytes) h = (ground arith, all_bytes-IsBytes bytes (ground arith))

file-IsBytes : IsBytes file
file-IsBytes = all_bytes-IsBytes file refl

dol_parse-IsImage_example : IsImage file image
dol_parse-IsImage_example = dol_parse-IsImage file image file-IsBytes parse-file

file-IsImage : IsImage file image
file-IsImage = dol_parse-IsImage file image file-IsBytes parse-file

resolve_entry : dol_vaddr_to_ptr image 0x80004004 ≡ some (0x104, 4)
unfolding dol_vaddr_to_ptr dol_parse parse_image push_slots push_section check_section header_slot
    read_u32_be section_among check_entrypoint
resolve_entry = refl

dol_vaddr_to_ptr_bounds_example :
    (s : DolSection) × Holds image.sections (length file) 0x80004004 s
    × (0x104 ≡ s.file_offset + (0x80004004 - s.virtual_addr))
    × (0x104 + 4 ≡ s.file_offset + s.size)
    × (0 < 4)
    × (0x104 + 4 ≤ length file)
dol_vaddr_to_ptr_bounds_example =
    dol_vaddr_to_ptr_bounds file image 0x80004004 0x104 4 file-IsImage (omega arith) resolve_entry

dol_parse_iff_example : ((img : DolImage) × (dol_parse file ≡ (dol_ok, img))) ↔ IsExecutable file
dol_parse_iff_example = dol_parse_iff file file-IsBytes
