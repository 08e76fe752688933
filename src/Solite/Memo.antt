-- ===== src/Solite/Memo.antt =====
-- solite_runtime/src/solite_effect.c: memos.
use calynda_for_wii.Base.{ℕ, true, Option, none, some, ◌>>=◌}
use calynda_for_wii.Solite.State.{SoliteState, SoliteMemo, Callbacks, memo_recompute_fn, set_memo}
use calynda_for_wii.Solite.Effect.{solite_create_effect, solite_effect_dispose}

-- `address` and `effect_address` are what the allocator returned for the memo and for its effect.
unfoldable pub solid_create_memo :
    Callbacks → Option ℕ → Option ℕ → ℕ → ℕ → SoliteState → Option (SoliteState × Option ℕ)
solid_create_memo callbacks none effect_address fn context s = some (s, none)
solid_create_memo callbacks (some m) effect_address fn context s =
    let memo : SoliteMemo = record {
      fn = fn;
      context = context;
      cached_value = 0;
      tracking_effect = none;
      dirty = true;
    } in
    solite_create_effect callbacks effect_address memo_recompute_fn m (set_memo m memo s)
    >>= λ (t, effect). some (set_memo m (record (t.memos m) { tracking_effect = effect }) t, some m)

unfoldable pub solite_memo_get : ℕ → SoliteState → ℕ
solite_memo_get m s = (s.memos m).cached_value

abbrev pub dispose_tracking : Option ℕ → SoliteState → SoliteState
dispose_tracking none s = s
dispose_tracking (some e) s = solite_effect_dispose e s

unfoldable pub solite_memo_dispose : ℕ → SoliteState → SoliteState
solite_memo_dispose m s = dispose_tracking (s.memos m).tracking_effect s
