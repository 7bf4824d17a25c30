-- ===== src/Http/Bounds.antt =====
-- The loop ends, and reads no more than the maximum.
use ai_agent_platform.Base.{
  String, ℕ, zero, suc, ◌+◌, ◌≤◌, ◌<◌, ◌≡◌, ◌≢◌, refl, Bool, true, false, Option, none, some, List,
  [], ◌∷◌, ◌++◌, length, ltb, if◌then◌else◌, arith,
}
use ai_agent_platform.Http.Body.{
  Read, done, failed, chunk, Outcome, finished, rejected, running, read_loop, on_chunk, not_ok,
  unfinished, read_bounded_json, read_body, parse_outcome, decoded, declares_over, assemble, zeros,
}

-- No read gives an empty chunk.
abbrev pub NeverEmpty : (ℕ → Read) → Type 0
NeverEmpty reads = (i : ℕ) (bytes : List ℕ) → reads i ≡ chunk bytes → 1 ≤ length bytes

on_chunk-running :
    (b : Bool) (rest : Outcome) → on_chunk b rest ≡ running → (b ≡ false) × (rest ≡ running)
on_chunk-running true rest h = cc
on_chunk-running false rest h = (refl, h)

read_loop-ends :
    (fuel : ℕ) (reads : ℕ → Read) (maximum i size : ℕ) (chunks : List (List ℕ))
    → NeverEmpty reads
    → size ≤ maximum
    → maximum < size + fuel
    → read_loop fuel reads maximum i size chunks ≢ running
unfolding read_loop
read_loop-ends zero reads maximum i size chunks full within enough = λ h. omega arith
read_loop-ends (suc fuel) reads maximum i size chunks full within enough =
    split (reads i) refl (λ bytes.
      read_loop-ends fuel reads maximum (i + 1) (size + length bytes) (chunks ++ bytes ∷ []) full)
  where
    split :
        (r : Read)
        → reads i ≡ r
        → ((bytes : List ℕ)
            → size + length bytes ≤ maximum
            → maximum < (size + length bytes) + fuel
            → read_loop fuel reads maximum (i + 1) (size + length bytes) (chunks ++ bytes ∷ [])
              ≢ running)
        → (elim r [
          | done ↦ finished chunks size
          | failed ↦ rejected
          | chunk bytes ↦
              on_chunk
                (ltb maximum (size + length bytes))
                (read_loop fuel reads maximum (i + 1) (size + length bytes) (chunks ++ bytes ∷ []))
        ])
          ≢ running
    split done e again h = cc
    split failed e again h = cc
    split (chunk bytes) e again h =
        let (inside, rest) = on_chunk-running (ltb maximum (size + length bytes)) _ h in
        let some_bytes = full i bytes e in again bytes (ground arith) (omega arith) rest

parse_outcome-running :
    {A : Type 0} (decode : List ℕ → Option A) (o : Outcome)
    → parse_outcome decode o ≡ unfinished
    → o ≡ running
unfolding parse_outcome
parse_outcome-running {A} decode (finished chunks size) h =
    split (decode (assemble chunks 0 (zeros size))) h
  where
    split : (r : Option A) → decoded decode r ≡ unfinished → finished chunks size ≡ running
    split none e = cc
    split (some v) e = cc
parse_outcome-running decode rejected h = cc
parse_outcome-running decode running h = refl

-- Reading a body ends: when no read gives an empty chunk, `maximum + 1` reads are enough.
pub read_bounded_json-ends :
    {A : Type 0} (decode : List ℕ → Option A) (content_length : Option String) (reads : ℕ → Read)
    (maximum : ℕ)
    → NeverEmpty reads
    → read_bounded_json decode (maximum + 1) content_length (some reads) maximum ≢ unfinished
unfolding read_bounded_json read_body
read_bounded_json-ends decode content_length reads maximum full =
    split (declares_over maximum content_length)
  where
    split :
        (b : Bool)
        → (if b
            then not_ok
            else parse_outcome decode (read_loop (maximum + 1) reads maximum 0 0 []))
          ≢ unfinished
    split true h = cc
    split false h =
        read_loop-ends (maximum + 1) reads maximum 0 0 [] full (omega arith) (omega arith)
          (parse_outcome-running decode _ h)
