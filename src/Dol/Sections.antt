-- ===== src/Dol/Sections.antt =====
-- What the checks of a section establish, and which slots of the header become sections.
use mathlib.Core.List.{append-nil, append_assoc}
use calynda_for_wii.Base.{
  ℕ, zero, suc, ◌+◌, ◌%◌, ◌^◌, ◌≤◌, ◌<◌, false, none, List, [], ◌∷◌, ◌++◌, ◌==◌, if◌then◌else◌,
  Bytes, length, get_or, All, arith, ◌≡◌, refl, ◌∙◌,
}
use calynda_for_wii.Dol.{
  ◌>>=◌, DolSectionKind, DolSection, DolImage, Parsed, parsed, failed, read_u32_be, check_section,
  push_section, header_slot, push_slots,
}

abbrev pub IsBytes : Bytes → Type 0
IsBytes bytes = All (λ b. b < 256) bytes

-- A section that lies in a file of this size, in whole words, and in the address space.
pub record IsSection (file_size : ℕ) (s : DolSection) : Type 0 where
  pub offset_aligned : s.file_offset % 4 ≡ 0
  pub addr_aligned : s.virtual_addr % 4 ≡ 0
  pub size_aligned : s.size % 4 ≡ 0
  pub nonempty : 0 < s.size
  pub offset_fits : s.file_offset + s.size < 2 ^ 32
  pub in_file : s.file_offset + s.size ≤ file_size
  pub in_space : s.virtual_addr + s.size < 2 ^ 32

get_or-lt : (bytes : Bytes) (i : ℕ) → IsBytes bytes → get_or bytes i 0 < 256
get_or-lt [] i h = omega arith
get_or-lt (b ∷ bytes) zero h = h.0
get_or-lt (b ∷ bytes) (suc i) h = get_or-lt bytes i h.1

read_u32_be-lt : (bytes : Bytes) (at : ℕ) → IsBytes bytes → read_u32_be bytes at < 2 ^ 32
unfolding read_u32_be
read_u32_be-lt bytes at h = omega (
  arith,
  get_or-lt bytes at h,
  get_or-lt bytes (at + 1) h,
  get_or-lt bytes (at + 2) h,
  get_or-lt bytes (at + 3) h,
)

-- The fields of a slot are words.
abbrev IsSlot : DolSection → Type 0
IsSlot s = (s.file_offset < 2 ^ 32) × (s.virtual_addr < 2 ^ 32) × (s.size < 2 ^ 32)

header_slot-IsSlot :
    (bytes : Bytes) (kind : DolSectionKind) (i : ℕ)
    → IsBytes bytes
    → IsSlot (header_slot bytes kind i)
unfolding header_slot
header_slot-IsSlot bytes kind i h =
    (read_u32_be-lt bytes _ h, read_u32_be-lt bytes _ h, read_u32_be-lt bytes _ h)

check_section-IsSection :
    (s : DolSection) (n : ℕ)
    → IsSlot s
    → check_section s n ≡ none
    → (s.size == 0) ≡ false
    → IsSection n s
unfolding check_section
check_section-IsSection s n w h k = ground arith

pub IsSection-check_section : (s : DolSection) (n : ℕ) → IsSection n s → check_section s n ≡ none
unfolding check_section
IsSection-check_section s n h =
    ground (
      arith, h.offset_aligned, h.addr_aligned, h.size_aligned, h.offset_fits, h.in_file, h.in_space,
    )

-- The slots number `i` and on that are not empty.
unfoldable pub nonempty_slots : Bytes → DolSectionKind → ℕ → ℕ → List DolSection
nonempty_slots bytes kind zero i = []
nonempty_slots bytes kind (suc rounds) i =
    if (header_slot bytes kind i).size == 0
    then nonempty_slots bytes kind rounds (i + 1)
    else header_slot bytes kind i ∷ nonempty_slots bytes kind rounds (i + 1)

-- An image that differs from another one by sections that are added.
pub record Grown (file_size : ℕ) (added : List DolSection) (old new : DolImage) : Type 0 where
  pub sections_are : new.sections ≡ old.sections ++ added
  pub added_ok : All (IsSection file_size) added
  pub bytes_are : new.bytes ≡ old.bytes
  pub size_is : new.size ≡ old.size

push_section_lem :
    (img new : DolImage) (s : DolSection) (n : ℕ)
    → IsSlot s
    → push_section img s n ≡ parsed new
    → Grown n (if s.size == 0 then [] else s ∷ []) img new
unfolding push_section
push_section_lem img new s n w h =
    ground (arith, check_section-IsSection s n w, append-nil img.sections)

All-append {ℓ} :
    {A : Type ℓ} (P : A → Type 0) (xs ys : List A) → All P xs → All P ys → All P (xs ++ ys)
All-append P [] ys h k = k
All-append P (x ∷ xs) ys h k = (h.0, All-append P xs ys h.1 k)

pub Grown-trans :
    (n : ℕ) (xs ys : List DolSection) (a b c : DolImage)
    → Grown n xs a b
    → Grown n ys b c
    → Grown n (xs ++ ys) a c
Grown-trans n xs ys a b c g h = record {
  sections_are = h.sections_are ∙ rw g.sections_are (append_assoc a.sections xs ys);
  added_ok = All-append (IsSection n) xs ys g.added_ok h.added_ok;
  bytes_are = h.bytes_are ∙ g.bytes_are;
  size_is = h.size_is ∙ g.size_is;
}

pub bind-eq-parsed :
    {A B : Type 0} (m : Parsed A) (f : A → Parsed B) {b : B}
    → m >>= f ≡ parsed b
    → (a : A) × (m ≡ parsed a) × (f a ≡ parsed b)
bind-eq-parsed (parsed a) f h = (a, refl, h)
bind-eq-parsed (failed st) f h = cc

nonempty_slots-suc :
    (bytes : Bytes) (kind : DolSectionKind) (rounds i : ℕ)
    → (if (header_slot bytes kind i).size == 0 then [] else header_slot bytes kind i ∷ [])
        ++ nonempty_slots bytes kind rounds (i + 1)
      ≡ nonempty_slots bytes kind (suc rounds) i
unfolding nonempty_slots
nonempty_slots-suc bytes kind rounds i = ground arith

pub push_slots-Grown :
    (bytes : Bytes) (kind : DolSectionKind) (rounds i : ℕ) (img new : DolImage)
    → IsBytes bytes
    → push_slots bytes kind rounds i img ≡ parsed new
    → Grown (length bytes) (nonempty_slots bytes kind rounds i) img new
unfolding push_slots
push_slots-Grown bytes kind zero i img new b h =
    unfold nonempty_slots in ground (arith, append-nil img.sections)
push_slots-Grown bytes kind (suc rounds) i img new b h =
    let s = header_slot bytes kind i in
    let (mid, first, rest) =
      bind-eq-parsed (push_section img s (length bytes)) (push_slots bytes kind rounds (i + 1)) h in
    rw (← nonempty_slots-suc bytes kind rounds i) (
      Grown-trans (length bytes) _ _ img mid new
        (push_section_lem img mid s (length bytes) (header_slot-IsSlot bytes kind i b) first)
        (push_slots-Grown bytes kind rounds (i + 1) mid new b rest))
