-- ===== src/Dol/Sound.antt =====
-- What holds of an image that `dol_parse` accepts, and of the addresses that it resolves.
use calynda_for_wii.Base.{
  ◌≢◌, Option-cases, Bool-cases, inl, inr, ℕ, zero, suc, ◌+◌, ◌-◌, ◌^◌, ◌≤◌, ◌<◌, true, Option,
  some, none, List, [], ◌∷◌, ◌++◌, ltb, Bytes, length, All, arith, ◌≡◌, refl, ap,
}
use calynda_for_wii.Dol.Sections.{
  Grown-trans, IsBytes, IsSection, nonempty_slots, Grown, bind-eq-parsed, push_slots-Grown,
}
use calynda_for_wii.Dol.{
  push_section, check_section, DolSectionKind, DolStatus, header_slot, out_of, ◌>>=◌, dol_ok,
  dol_section_text, dol_section_data, DolSection, DolImage, zero_image, Parsed, parsed, failed,
  section_among, dol_section_for_vaddr, is_text, check_entrypoint, read_tail, parse_image,
  dol_parse, dol_vaddr_to_ptr, push_slots, dol_header_size, dol_max_text_sections,
  dol_max_data_sections, read_u32_be,
}

-- The sections that the header describes: first those of text, then those of data.
unfoldable pub header_sections : Bytes → List DolSection
header_sections bytes =
    nonempty_slots bytes dol_section_text dol_max_text_sections 0
    ++ nonempty_slots bytes dol_section_data dol_max_data_sections 0

-- The section lies at this address, and it is the first of the list that does.
pub record Holds (sections : List DolSection) (file_size vaddr : ℕ) (s : DolSection) : Type 0 where
  pub found : section_among sections vaddr ≡ some s
  pub ok : IsSection file_size s
  pub above : s.virtual_addr ≤ vaddr
  pub below : vaddr < s.virtual_addr + s.size

pub record IsImage (bytes : Bytes) (img : DolImage) : Type 0 where
  pub has_header : dol_header_size ≤ length bytes
  pub bytes_are : img.bytes ≡ bytes
  pub size_is : img.size ≡ length bytes
  pub sections_are : img.sections ≡ header_sections bytes
  pub sections_ok : All (IsSection (length bytes)) img.sections
  pub entrypoint_is : img.entrypoint ≡ read_u32_be bytes 0xE0
  pub entry : DolSection
  pub entry_holds : Holds img.sections (length bytes) img.entrypoint entry
  pub entry_text : entry.kind ≡ dol_section_text

section_among_lem :
    (n : ℕ) (sections : List DolSection) (vaddr : ℕ) (s : DolSection)
    → All (IsSection n) sections
    → section_among sections vaddr ≡ some s
    → IsSection n s × (s.virtual_addr ≤ vaddr) × (vaddr < s.virtual_addr + s.size)
unfolding section_among
section_among_lem n [] vaddr s h e = cc
section_among_lem n (x ∷ sections) vaddr s h e =
    ground (arith, section_among_lem n sections vaddr s h.1)

section_among-Holds :
    (n : ℕ) (sections : List DolSection) (vaddr : ℕ) (s : DolSection)
    → All (IsSection n) sections
    → section_among sections vaddr ≡ some s
    → Holds sections n vaddr s
section_among-Holds n sections vaddr s h e =
    let (ok, above, below) = section_among_lem n sections vaddr s h e in
    record { found = e; ok = ok; above = above; below = below }

is_text-some :
    (o : Option DolSection)
    → is_text o ≡ true
    → (s : DolSection) × (o ≡ some s) × (s.kind ≡ dol_section_text)
is_text-some none h = cc
is_text-some (some s) h = (s, refl, ground arith)

check_entrypoint_lem :
    (img new : DolImage)
    → check_entrypoint img ≡ parsed new
    → (new ≡ img) × (is_text (dol_section_for_vaddr img img.entrypoint) ≡ true)
unfolding check_entrypoint
check_entrypoint_lem img new h = (ground arith, ground arith)

abbrev pub start_image : Bytes → DolImage
start_image bytes = record zero_image { bytes = bytes; size = length bytes }

assemble :
    (bytes : Bytes) (grown : DolImage) (s : DolSection)
    → dol_header_size ≤ length bytes
    → Grown (length bytes) (header_sections bytes) (start_image bytes) grown
    → section_among grown.sections (read_u32_be bytes 0xE0) ≡ some s
    → s.kind ≡ dol_section_text
    → IsImage bytes (read_tail bytes grown)
assemble bytes grown s big g found kind =
    let ok = rw (← g.sections_are) at g.added_ok in
    record {
      has_header = big;
      bytes_are = g.bytes_are;
      size_is = g.size_is;
      sections_are = g.sections_are;
      sections_ok = ok;
      entrypoint_is = refl;
      entry = s;
      entry_holds =
          section_among-Holds (length bytes) grown.sections (read_u32_be bytes 0xE0) s ok found;
      entry_text = kind;
    }

not_small :
    (bytes : Bytes) (img : DolImage)
    → parse_image bytes ≡ parsed img
    → (dol_header_size ≤ length bytes)
      × ((push_slots bytes dol_section_text dol_max_text_sections 0 (start_image bytes)
            >>= push_slots bytes dol_section_data dol_max_data_sections 0
            >>= (λ img. check_entrypoint (read_tail bytes img)))
          ≡ parsed img)
unfolding parse_image
not_small bytes img e = elim (Bool-cases (ltb (length bytes) dol_header_size)) [
  | inl small ↦ absurd (cc (rw small at e))
  | inr large ↦ (ground arith, rw large at e)
]

parse_image-IsImage :
    (bytes : Bytes) (img : DolImage)
    → IsBytes bytes
    → parse_image bytes ≡ parsed img
    → IsImage bytes img
unfolding parse_image header_sections
parse_image-IsImage bytes img b e =
    let first = push_slots bytes dol_section_text dol_max_text_sections 0 (start_image bytes) in
    let rest = λ (i : DolImage). push_slots bytes dol_section_data dol_max_data_sections 0 i in
    let last = λ (i : DolImage). check_entrypoint (read_tail bytes i) in
    let chain = not_small bytes img e in
    let (with_data, e1, e2) = bind-eq-parsed (first >>= rest) last chain.1 in
    let (with_text, e3, e4) = bind-eq-parsed first rest e1 in
    let g = push_slots-Grown bytes dol_section_text dol_max_text_sections 0 _ with_text b e3 in
    let h =
      push_slots-Grown bytes dol_section_data dol_max_data_sections 0 with_text with_data b e4 in
    let (same, text) = check_entrypoint_lem (read_tail bytes with_data) img e2 in
    let (s, found, kind) = is_text-some _ text in
    let grown =
      Grown-trans (length bytes) (nonempty_slots bytes dol_section_text dol_max_text_sections 0)
        (nonempty_slots bytes dol_section_data dol_max_data_sections 0) (start_image bytes)
        with_text with_data g h in
    rw same (assemble bytes with_data s chain.0 grown found kind)

-- A step that stops does so with an error.
abbrev Refuses : {A : Type 0} → Parsed A → Type 0
Refuses (parsed a) = Unit
Refuses (failed st) = st ≢ dol_ok

push_section-Refuses : (img : DolImage) (s : DolSection) (n : ℕ) → Refuses (push_section img s n)
unfolding push_section check_section
push_section-Refuses img s n = ground arith

bind-Refuses :
    {A B : Type 0} (m : Parsed A) (f : A → Parsed B)
    → Refuses m
    → ((a : A) → Refuses (f a))
    → Refuses (m >>= f)
bind-Refuses (parsed a) f h k = k a
bind-Refuses (failed st) f h k = h

push_slots-Refuses :
    (bytes : Bytes) (kind : DolSectionKind) (rounds i : ℕ) (img : DolImage)
    → Refuses (push_slots bytes kind rounds i img)
unfolding push_slots
push_slots-Refuses bytes kind zero i img = tt
push_slots-Refuses bytes kind (suc rounds) i img =
    bind-Refuses (push_section img (header_slot bytes kind i) (length bytes))
      (push_slots bytes kind rounds (i + 1)) (push_section-Refuses img _ _)
      (push_slots-Refuses bytes kind rounds (i + 1))

check_entrypoint-Refuses : (img : DolImage) → Refuses (check_entrypoint img)
unfolding check_entrypoint
check_entrypoint-Refuses img = ground arith

parse_image-Refuses : (bytes : Bytes) → Refuses (parse_image bytes)
unfolding parse_image
parse_image-Refuses bytes = elim (Bool-cases (ltb (length bytes) dol_header_size)) [
  | inl small ↦ rw small (λ e. cc)
  | inr large ↦ rw large (
      bind-Refuses _ (λ i. check_entrypoint (read_tail bytes i))
        (bind-Refuses
          (push_slots bytes dol_section_text dol_max_text_sections 0 (start_image bytes))
          (push_slots bytes dol_section_data dol_max_data_sections 0) (push_slots-Refuses _ _ _ _ _)
          (push_slots-Refuses bytes dol_section_data dol_max_data_sections 0))
        (λ i. check_entrypoint-Refuses (read_tail bytes i)))
]

out_of-ok :
    (r : Parsed DolImage) (img : DolImage) → Refuses r → out_of r ≡ (dol_ok, img) → r ≡ parsed img
out_of-ok (parsed i) img h e = ap (λ (x : DolStatus × DolImage). parsed x.1) e
out_of-ok (failed st) img h e = absurd (h (ap (λ (x : DolStatus × DolImage). x.0) e))

-- An image that `dol_parse` accepts is the file with its header read: its sections are the slots of
-- the header that are not empty, in order, each of them aligned, inside the file and inside the
-- address space, and its entry point lies in a text section.
pub dol_parse-IsImage :
    (bytes : Bytes) (img : DolImage)
    → IsBytes bytes
    → dol_parse bytes ≡ (dol_ok, img)
    → IsImage bytes img
unfolding dol_parse
dol_parse-IsImage bytes img b e =
    parse_image-IsImage bytes img b
      (out_of-ok (parse_image bytes) img (parse_image-Refuses bytes) e)

-- In an image with all that `IsImage` asks for, a pointer for a virtual address points into the file,
-- at the place of that address in the first section that holds it, and the bytes said to remain are
-- there: at least one, and all of them up to the end of that section.
pub dol_vaddr_to_ptr_bounds :
    (bytes : Bytes) (img : DolImage) (vaddr at remaining : ℕ)
    → IsImage bytes img
    → vaddr < 2 ^ 32
    → dol_vaddr_to_ptr img vaddr ≡ some (at, remaining)
    → (s : DolSection) × Holds img.sections (length bytes) vaddr s
      × (at ≡ s.file_offset + (vaddr - s.virtual_addr))
      × (at + remaining ≡ s.file_offset + s.size)
      × (0 < remaining)
      × (at + remaining ≤ length bytes)
unfolding dol_vaddr_to_ptr
dol_vaddr_to_ptr_bounds bytes img vaddr at remaining i small e =
    elim (Option-cases (section_among img.sections vaddr)) [
      | inl missing ↦ absurd (cc (rw (missing, dol_vaddr_to_ptr) at e))
      | inr (s, found) ↦
          let h = section_among-Holds (length bytes) img.sections vaddr s i.sections_ok found in
          let e' = rw (found, dol_vaddr_to_ptr) at e in
          (s, h, ground arith, ground arith, ground arith, ground arith)
    ]
