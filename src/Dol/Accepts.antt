-- ===== src/Dol/Accepts.antt =====
-- Which files `dol_parse` accepts.
use calynda_for_wii.Base.{
  ◌↔◌, [], ◌∷◌, ◌+◌, arith, inr, ◌∷◌, inl, true, ◌==◌, ◌++◌, false, ltb, Bool-cases, some,
  Bool-cases, length, ◌≤◌, none, All, ◌≡◌, List, Bytes, ℕ, zero, suc, refl,
}
use calynda_for_wii.Dol.Sections.{
  Grown-trans, IsBytes, IsSection, IsSection-check_section, nonempty_slots, push_slots-Grown,
}
use calynda_for_wii.Dol.Sound.{header_sections, start_image, IsImage, dol_parse-IsImage}
use calynda_for_wii.Dol.{
  read_tail, dol_max_data_sections, header_slot, dol_section_data, parse_image, DolSectionKind,
  dol_max_text_sections, check_entrypoint, dol_section_text, read_u32_be, section_among, parsed,
  check_section, dol_header_size, push_section, push_slots, DolSection, DolImage, dol_parse, dol_ok,
}

-- A file with a whole header, whose slots that are not empty are sections of the file, and whose
-- entry point lies in a text section.
pub record IsExecutable (bytes : Bytes) : Type 0 where
  pub has_header : dol_header_size ≤ length bytes
  pub sections_ok : All (IsSection (length bytes)) (header_sections bytes)
  pub entry : DolSection
  pub entry_found : section_among (header_sections bytes) (read_u32_be bytes 0xE0) ≡ some entry
  pub entry_text : entry.kind ≡ dol_section_text

push_section-parsed :
    (img : DolImage) (s : DolSection) (n : ℕ)
    → check_section s n ≡ none
    → (new : DolImage) × (push_section img s n ≡ parsed new)
unfolding push_section
push_section-parsed img s n h = elim (Bool-cases (s.size == 0)) [
  | inl e ↦ (img, rw e refl)
  | inr e ↦ (record img { sections = img.sections ++ s ∷ [] }, rw (e, h) refl)
]

push_section_empty :
    (img : DolImage) (s : DolSection) (n : ℕ)
    → (s.size == 0) ≡ true
    → push_section img s n ≡ parsed img
unfolding push_section
push_section_empty img s n h = rw h refl

All-append-split {ℓ} :
    {A : Type ℓ} (P : A → Type 0) (xs ys : List A) → All P (xs ++ ys) → All P xs × All P ys
All-append-split P [] ys h = (tt, h)
All-append-split P (x ∷ xs) ys h = let (a, b) = All-append-split P xs ys h.1 in ((h.0, a), b)

-- A loop over slots that are sections of the file ends with an image.
push_slots-parsed :
    (bytes : Bytes) (kind : DolSectionKind) (rounds i : ℕ) (img : DolImage)
    → All (IsSection (length bytes)) (nonempty_slots bytes kind rounds i)
    → (new : DolImage) × (push_slots bytes kind rounds i img ≡ parsed new)
unfolding push_slots nonempty_slots
push_slots-parsed bytes kind zero i img h = (img, refl)
push_slots-parsed bytes kind (suc rounds) i img h =
    let s = header_slot bytes kind i in
    elim (Bool-cases (s.size == 0)) [
      | inl e ↦
          let (new, r) = push_slots-parsed bytes kind rounds (i + 1) img (rw e at h) in
          (new, rw (push_section_empty img s (length bytes) e) r)
      | inr e ↦
          let h' = rw e at h in
          let (mid, m) =
            push_section-parsed img s (length bytes)
              (IsSection-check_section s (length bytes) h'.0) in
          let (new, r) = push_slots-parsed bytes kind rounds (i + 1) mid h'.1 in (new, rw m r)
    ]

check_entrypoint-parsed :
    (img : DolImage) (s : DolSection)
    → section_among img.sections img.entrypoint ≡ some s
    → s.kind ≡ dol_section_text
    → check_entrypoint img ≡ parsed img
unfolding check_entrypoint
check_entrypoint-parsed img s found kind = rw found (ground arith)

parse_image-parsed :
    (bytes : Bytes) (with_text with_data : DolImage)
    → dol_header_size ≤ length bytes
    → push_slots bytes dol_section_text dol_max_text_sections 0 (start_image bytes)
      ≡ parsed with_text
    → push_slots bytes dol_section_data dol_max_data_sections 0 with_text ≡ parsed with_data
    → check_entrypoint (read_tail bytes with_data) ≡ parsed (read_tail bytes with_data)
    → dol_parse bytes ≡ (dol_ok, read_tail bytes with_data)
unfolding dol_parse parse_image
parse_image-parsed bytes with_text with_data big e1 e2 e3 =
    let large : ltb (length bytes) dol_header_size ≡ false = ground arith in
    rw (large, e1, e2, e3) refl

-- The slots of both loops together, for a file whose sections are in order.
sections_found :
    (bytes : Bytes) (with_text with_data : DolImage)
    → IsBytes bytes
    → push_slots bytes dol_section_text dol_max_text_sections 0 (start_image bytes)
      ≡ parsed with_text
    → push_slots bytes dol_section_data dol_max_data_sections 0 with_text ≡ parsed with_data
    → with_data.sections ≡ header_sections bytes
unfolding header_sections
sections_found bytes with_text with_data b e1 e2 =
    let g = push_slots-Grown bytes dol_section_text dol_max_text_sections 0 _ with_text b e1 in
    let h =
      push_slots-Grown bytes dol_section_data dol_max_data_sections 0 with_text with_data b e2 in
    (Grown-trans (length bytes) _ _ (start_image bytes) with_text with_data g h).sections_are

dol_parse-IsExecutable :
    (bytes : Bytes)
    → IsBytes bytes
    → IsExecutable bytes
    → (img : DolImage) × (dol_parse bytes ≡ (dol_ok, img)) × IsImage bytes img
unfolding header_sections
dol_parse-IsExecutable bytes b x =
    let (texts, datas) =
      All-append-split (IsSection (length bytes))
        (nonempty_slots bytes dol_section_text dol_max_text_sections 0)
        (nonempty_slots bytes dol_section_data dol_max_data_sections 0) x.sections_ok in
    let (with_text, e1) =
      push_slots-parsed bytes dol_section_text dol_max_text_sections 0 (start_image bytes) texts in
    let (with_data, e2) =
      push_slots-parsed bytes dol_section_data dol_max_data_sections 0 with_text datas in
    let s = sections_found bytes with_text with_data b e1 e2 in
    let entry : section_among with_data.sections (read_u32_be bytes 0xE0) ≡ some x.entry =
      rw s x.entry_found in
    let ok = check_entrypoint-parsed (read_tail bytes with_data) x.entry entry x.entry_text in
    let accepted = parse_image-parsed bytes with_text with_data x.has_header e1 e2 ok in
    (read_tail bytes with_data, accepted, dol_parse-IsImage bytes _ b accepted)

IsImage-IsExecutable : (bytes : Bytes) (img : DolImage) → IsImage bytes img → IsExecutable bytes
IsImage-IsExecutable bytes img i =
    let found : section_among img.sections img.entrypoint ≡ some i.entry = i.entry_holds.found in
    record {
      has_header = i.has_header;
      sections_ok = rw i.sections_are at i.sections_ok;
      entry = i.entry;
      entry_found = rw (i.sections_are, i.entrypoint_is) at found;
      entry_text = i.entry_text;
    }

-- The files that `dol_parse` accepts are just the executables: those with a whole header, whose
-- slots that are not empty are aligned sections inside the file and inside the address space, and
-- whose entry point lies in a text section.
pub dol_parse_iff :
    (bytes : Bytes)
    → IsBytes bytes
    → ((img : DolImage) × (dol_parse bytes ≡ (dol_ok, img))) ↔ IsExecutable bytes
dol_parse_iff bytes b = (
  λ (img, e). IsImage-IsExecutable bytes img (dol_parse-IsImage bytes img b e),
  λ x. let (img, e, i) = dol_parse-IsExecutable bytes b x in (img, e),
)
