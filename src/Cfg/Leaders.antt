-- ===== src/Cfg/Leaders.antt =====
-- decompiler/src/cli/cfg/cfg_build.c: `collect_leaders`. The array `arr` with its count is a list. The
-- scan runs on fuel, one unit for an instruction; `none` says that a word could not be read, or that
-- the fuel ran out.
use calynda_for_wii.Base.{
  ℕ, zero, suc, ◌+◌, ◌-◌, ◌/◌, ◌%◌, ◌^◌, Bool, false, ◌&&◌, Option, none, some, List, [], ◌∷◌, ◌++◌,
  ltb, leb, ◌==◌, if◌then◌else◌, ◌>>=◌,
}
use calynda_for_wii.Dol.{DolImage}
use calynda_for_wii.Ppc.Op.{PpcOp, op_b, op_ba, op_bc, op_blr, op_bctr}
use calynda_for_wii.Ppc.Decode.{ppc_decode}
use calynda_for_wii.Cfg.Graph.{cfg_read_word}

-- `if (va + 4 < end) PUSH(va + 4)`
abbrev pub push_after : ℕ → ℕ → List ℕ → List ℕ
push_after end va arr =
    let next = (va + 4) % 2 ^ 32 in if ltb next end then arr ++ next ∷ [] else arr

-- `if (in.target >= start && in.target < end) PUSH(in.target)`
abbrev pub push_target : ℕ → ℕ → ℕ → List ℕ → List ℕ
push_target start end target arr =
    if leb start target && ltb target end then arr ++ target ∷ [] else arr

abbrev pub push_leaders : PpcOp → ℕ → ℕ → ℕ → ℕ → List ℕ → List ℕ
push_leaders op_b start end va target arr = push_after end va (push_target start end target arr)
push_leaders op_ba start end va target arr = push_after end va (push_target start end target arr)
push_leaders op_bc start end va target arr = push_after end va (push_target start end target arr)
push_leaders op_blr start end va target arr = push_after end va arr
push_leaders op_bctr start end va target arr = push_after end va arr
push_leaders _ start end va target arr = arr

-- The scan from `va` on.
unfoldable pub scan : ℕ → DolImage → ℕ → ℕ → ℕ → List ℕ → Option (List ℕ)
scan zero img start end va arr = none
scan (suc fuel) img start end va arr =
    if ltb va end
    then (cfg_read_word img va >>= λ w.
        let in_ = ppc_decode w va in
        scan fuel img start end ((va + 4) % 2 ^ 32)
          (push_leaders in_.op start end va in_.target arr))
    else some arr

-- The inner loop of the sort: `before` is the part of the array before the key, its last element
-- first.
unfoldable pub shift_in : ℕ → List ℕ → List ℕ
shift_in key [] = key ∷ []
shift_in key (x ∷ before) = if ltb key x then x ∷ shift_in key before else key ∷ x ∷ before

-- The outer loop: the part before `i`, its last element first, and the part from `i` on.
unfoldable pub sort_from : List ℕ → List ℕ → List ℕ
sort_from before [] = before
sort_from before (key ∷ rest) = sort_from (shift_in key before) rest

-- A part of an array, its last element first, in front of another part.
abbrev pub rev_onto {ℓ} : {A : Type ℓ} → List A → List A → List A
rev_onto [] acc = acc
rev_onto (x ∷ l) acc = rev_onto l (x ∷ acc)

-- The sorted array.
unfoldable pub sort : List ℕ → List ℕ
sort arr = rev_onto (sort_from [] arr) []

-- `w == 0 || arr[w-1] != arr[i]`, for the part before `w`, its last element first.
abbrev pub repeats : ℕ → List ℕ → Bool
repeats x [] = false
repeats x (y ∷ kept) = y == x

unfoldable pub dedupe_from : List ℕ → List ℕ → List ℕ
dedupe_from kept [] = kept
dedupe_from kept (x ∷ rest) = dedupe_from (if repeats x kept then kept else x ∷ kept) rest

unfoldable pub dedupe : List ℕ → List ℕ
dedupe arr = rev_onto (dedupe_from [] arr) []

-- The range has (end - start) / 4 instructions, and the loop one test more.
unfoldable pub collect_leaders : DolImage → ℕ → ℕ → Option (List ℕ)
collect_leaders img start end =
    scan (suc ((end - start) / 4)) img start end start (start ∷ []) >>= λ arr.
    some (dedupe (sort arr))
