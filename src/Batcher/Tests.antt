-- ===== src/Batcher/Tests.antt =====
-- Runs of digital_fte/batcher.py.
use digital_fte_agent.Prelude.{ℕ, ◌≡◌, refl, some, List, [], ◌∷◌, arith}
use digital_fte_agent.Prelude.Int.{pos}
use digital_fte_agent.Prelude.Values.{Value, null, int, value_error, ok, raise}
use digital_fte_agent.Batcher.{chunk, batch}
use digital_fte_agent.Batcher.Chunks.{flatten, AllFit, chunk_lem}

abbrev value_of : ℕ → Value
value_of n = int (pos n)

batches_by_size :
    batch (3 ∷ 4 ∷ 9 ∷ 1 ∷ 1 ∷ 1 ∷ []) (int (pos 2)) (int (pos 8)) (some value_of)
    ≡ ok ((3 ∷ 4 ∷ []) ∷ (9 ∷ []) ∷ (1 ∷ 1 ∷ []) ∷ (1 ∷ []) ∷ [])
unfolding batch
batches_by_size = refl

no_limit : batch (3 ∷ []) null null (some value_of) ≡ raise value_error
unfolding batch
no_limit = refl

chunk_lem_example :
    (out : List (List ℕ)) × (chunk (some 2) (some 8) value_of (3 ∷ 4 ∷ 9 ∷ []) [] [] 0 ≡ ok out)
    × (flatten out ≡ 3 ∷ 4 ∷ 9 ∷ [])
    × AllFit (some 2) (some 8) (λ n. n) out
chunk_lem_example =
    chunk_lem (some 2) (some 8) (λ n. n) value_of (λ n e. ground arith) (λ a. ground arith)
      (3 ∷ 4 ∷ 9 ∷ [])
