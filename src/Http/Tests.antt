-- ===== src/Http/Tests.antt =====
-- Bodies that are read, and the theorems applied to them.
use mathlib.Core.Path.{subst}
use ai_agent_platform.Base.{ℕ, ◌≡◌, ◌≢◌, none, some, Option, List, [], ◌∷◌, ◌+◌, ◌≤◌, arith, length}
use ai_agent_platform.Http.Body.{Read, chunk, parsed, unfinished, read_bounded_json, declares_over}
use ai_agent_platform.Http.Bounds.{NeverEmpty, read_bounded_json-ends}
use ai_agent_platform.Http.Chunks.{reads_of, read_bounded_json-eq}

abbrev decode : List ℕ → Option (List ℕ)
decode bytes = some bytes

-- A body that never ends.
abbrev endless : ℕ → Read
endless i = chunk (7 ∷ [])

one_byte : NeverEmpty endless
one_byte i bytes h =
    let e : ◌≡◌ {A = List ℕ} (7 ∷ []) bytes = cc in subst (λ b. 1 ≤ length b) e (omega arith)

read_bounded_json-ends_example : read_bounded_json decode (4 + 1) none (some endless) 4 ≢ unfinished
read_bounded_json-ends_example = read_bounded_json-ends decode none endless 4 one_byte

read_bounded_json-eq_example :
    read_bounded_json decode 3 (some "3") (some (reads_of ((1 ∷ 2 ∷ []) ∷ (3 ∷ []) ∷ []))) 3
    ≡ parsed (1 ∷ 2 ∷ 3 ∷ [])
unfolding declares_over
read_bounded_json-eq_example =
    read_bounded_json-eq decode (some "3") ((1 ∷ 2 ∷ []) ∷ (3 ∷ []) ∷ []) 3 3 (omega arith)
