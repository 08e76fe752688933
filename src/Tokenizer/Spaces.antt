-- ===== src/Tokenizer/Spaces.antt =====
-- compiler/src/tokenizer/tokenizer.c: where `skip_whitespace` stops.
use calynda_for_wii.Base.{some, Bytes, ◌≡◌}
use calynda_for_wii.Base.Returns.{Returns-value}
use calynda_for_wii.Tokenizer.Ahead.{Ahead, here}
use calynda_for_wii.Tokenizer.Next.{skip_whitespace}
use calynda_for_wii.Tokenizer.Position.{Position}
use calynda_for_wii.Tokenizer.Scanned.Whole.{IsBare, skip_whitespace-Ahead}
use calynda_for_wii.Tokenizer.Slices.{Behind, Ahead-Behind}

-- The white space skipper always ends, behind a part of the text, with line and column counted along
-- it, and in front of something that is neither a white space character nor the start of a comment.
pub skip_whitespace-IsBare :
    (p : Position)
    → (q : Position) × (w : Bytes) × (skip_whitespace p ≡ some q) × Behind w p q × IsBare q
skip_whitespace-IsBare p =
    let (q, e, a) =
      Returns-value (λ q. Ahead q p × IsBare q) (skip_whitespace p)
        (skip_whitespace-Ahead p p here) in
    let (w, b) = Ahead-Behind a.0 in (q, w, e, b, a.1)
