-- ===== src/Cfg/Scan.antt =====
-- What the scan for leaders collects.
use calynda_for_wii.Cfg.Begins.{splits_at, Begins, push_leaders-mem}
use calynda_for_wii.Base.{
  or-right, or-cases, sym, ◌∙◌, Option-cases, ◌*◌, ◌↔◌, ℕ, zero, suc, ◌+◌, ◌%◌, ◌^◌, ◌≤◌, ◌<◌, true,
  none, some, List, ltb, ◌==◌, mem, ◌≡◌, ◌⊎◌, inl, inr, refl, arith, Bool-cases,
}
use calynda_for_wii.Dol.{DolImage}
use calynda_for_wii.Ppc.Decode.{ppc_decode}
use calynda_for_wii.Cfg.Graph.{cfg_read_word}
use calynda_for_wii.Cfg.Leaders.{push_leaders, scan}

-- Some word of the range, from `low` on, is not in the image.
pub record Unreadable (img : DolImage) (low end : ℕ) : Type 0 where
  pub va : ℕ
  pub from_low : low ≤ va
  pub in_range : va < end
  pub aligned : va % 4 ≡ 0
  pub unread : cfg_read_word img va ≡ none

Unreadable-lower :
    (img : DolImage) (low low' end : ℕ)
    → low' ≤ low
    → Unreadable img low end
    → Unreadable img low' end
Unreadable-lower img low low' end h u = record {
  va = u.va;
  from_low = omega (arith, h, u.from_low);
  in_range = u.in_range;
  aligned = u.aligned;
  unread = u.unread;
}

-- What the scan from `va` on makes of the array.
pub record Scanned (img : DolImage) (start end va : ℕ) (arr out : List ℕ) : Type 0 where
  pub all_read : ¬ Unreadable img va end
  pub found : (x : ℕ) → (mem x out ≡ true) ↔ ((mem x arr ≡ true) ⊎ Begins img start end va x)

Scanned-nothing :
    (img : DolImage) (start end va : ℕ) (arr : List ℕ) → end ≤ va → Scanned img start end va arr arr
Scanned-nothing img start end va arr done = record {
  all_read = λ u. omega (arith, done, u.from_low, u.in_range);
  found = λ x. (
    inl,
    λ h. elim h [ inl m ↦ m | inr b ↦ absurd (omega (arith, done, b.from_low, b.in_range)) ],
  );
}

Begins-lower :
    (img : DolImage) (start end low low' x : ℕ)
    → low' ≤ low
    → Begins img start end low x
    → Begins img start end low' x
Begins-lower img start end low low' x h b = record {
  va = b.va;
  word = b.word;
  from_low = omega (arith, h, b.from_low);
  in_range = b.in_range;
  aligned = b.aligned;
  read = b.read;
  splits = b.splits;
}

-- The instruction is the one at `va`, or a later one.
Begins-cases :
    (img : DolImage) (start end va w x : ℕ)
    → va % 4 ≡ 0
    → cfg_read_word img va ≡ some w
    → Begins img start end va x
    → (splits_at start end (ppc_decode w va) va x ≡ true) ⊎ Begins img start end (va + 4) x
Begins-cases img start end va w x aligned read b = elim (Bool-cases (b.va == va)) [
  | inl same ↦
      let here : b.va ≡ va = ground (arith, same) in
      let word : b.word ≡ w = cc (rw here at b.read) in inl (rw (here, word) at b.splits)
  | inr other ↦ inr (record {
    va = b.va;
    word = b.word;
    from_low = ground (arith, other, b.from_low, b.aligned, aligned);
    in_range = b.in_range;
    aligned = b.aligned;
    read = b.read;
    splits = b.splits;
  })
]

Scanned-word :
    (img : DolImage) (start end va w : ℕ) (arr out : List ℕ)
    → va + 4 < 2 ^ 32
    → start ≤ va
    → va < end
    → va % 4 ≡ 0
    → cfg_read_word img va ≡ some w
    → Scanned img start end
        (va + 4)
        (push_leaders (ppc_decode w va).op start end va (ppc_decode w va).target arr)
        out
    → Scanned img start end va arr out
Scanned-word img start end va w arr out small above below aligned read rest =
    let insn = ppc_decode w va in
    let one = λ (x : ℕ). push_leaders-mem start end va x insn arr small above in
    record {
      all_read = λ u. elim (Bool-cases (u.va == va)) [
        | inl same ↦
            let here : u.va ≡ va = ground (arith, same) in absurd (cc (rw here at u.unread))
        | inr other ↦ rest.all_read (record {
          va = u.va;
          from_low = ground (arith, other, u.from_low, u.aligned);
          in_range = u.in_range;
          aligned = u.aligned;
          unread = u.unread;
        })
      ];
      found = λ x. (
        λ m. elim ((rest.found x).0 m) [
          | inl m ↦ elim (or-cases (mem x arr) (splits_at start end insn va x) (sym (one x) ∙ m)) [
            | inl m ↦ inl m
            | inr splits ↦ inr (record {
              va = va;
              word = w;
              from_low = omega arith;
              in_range = below;
              aligned = aligned;
              read = read;
              splits = splits;
            })
          ]
          | inr b ↦ inr (Begins-lower img start end (va + 4) va x (omega arith) b)
        ],
        λ h. (rest.found x).1 (elim h [
          | inl m ↦ inl (rw one (rw m refl))
          | inr b ↦ elim (Begins-cases img start end va w x aligned read b) [
            | inl splits ↦ inl (one x ∙ or-right (mem x arr) _ splits)
            | inr later ↦ inr later
          ]
        ]),
      );
    }

scan_word :
    (fuel : ℕ) (img : DolImage) (start end va w : ℕ) (arr : List ℕ)
    → va + 4 < 2 ^ 32
    → ltb va end ≡ true
    → cfg_read_word img va ≡ some w
    → scan (suc fuel) img start end va arr
      ≡ scan fuel img start end
          (va + 4)
          (push_leaders (ppc_decode w va).op start end va (ppc_decode w va).target arr)
unfolding scan
scan_word fuel img start end va w arr small more read =
    let next : (va + 4) % 2 ^ 32 ≡ va + 4 = omega (arith, small) in rw (more, read, next) refl

pub scan-cases :
    (fuel : ℕ) (img : DolImage) (start end va : ℕ) (arr : List ℕ)
    → end < 2 ^ 32
    → end % 4 ≡ 0
    → start ≤ va
    → va ≤ end
    → va % 4 ≡ 0
    → end < va + 4 * fuel
    → (Unreadable img va end × (scan fuel img start end va arr ≡ none))
      ⊎ ((out : List ℕ) × (scan fuel img start end va arr ≡ some out)
          × Scanned img start end va arr out)
unfolding scan
scan-cases zero img start end va arr small whole above below aligned enough =
    absurd (omega (arith, below, enough))
scan-cases (suc fuel) img start end va arr small whole above below aligned enough =
    elim (Bool-cases (ltb va end)) [
      | inr done ↦
          inr (arr, rw done refl, Scanned-nothing img start end va arr (ground (arith, done)))
      | inl more ↦ elim (Option-cases (cfg_read_word img va)) [
        | inl unread ↦ inl (
          record {
            va = va;
            from_low = omega arith;
            in_range = ground (arith, more);
            aligned = aligned;
            unread = unread;
          },
          rw (more, unread) refl,
        )
        | inr (w, read) ↦
            let room : va + 4 < 2 ^ 32 = ground (arith, more, whole, small, aligned) in
            let insn = ppc_decode w va in
            let pushed = push_leaders insn.op start end va insn.target arr in
            let step = scan_word fuel img start end va w arr room more read in
            elim (scan-cases fuel img start end (va + 4) pushed small whole (omega (arith, above))
              (ground (arith, more, whole, aligned)) (omega (arith, aligned))
              (omega (arith, enough))) [
                | inl (u, c) ↦ inl (Unreadable-lower img (va + 4) va end (omega arith) u, step ∙ c)
                | inr (out, c, rest) ↦ inr (
                  out,
                  step ∙ c,
                  Scanned-word img start end va w arr out room above (ground (arith, more)) aligned
                      read rest,
                )
              ]
      ]
    ]
