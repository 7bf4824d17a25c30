-- ===== src/Http/Chunks.antt =====
-- What is read of a body that comes in chunks.
use ai_agent_platform.Base.{
  ◌||◌, String, ℕ, zero, suc, ◌+◌, ◌≤◌, ◌<◌, ◌≡◌, refl, sym, ap, ◌∙◌, Bool, true, false, Option,
  some, List, [], ◌∷◌, ◌++◌, length, leb, ltb, if◌then◌else◌, arith, Bool-cases, inl, inr,
}
use ai_agent_platform.Http.Body.{
  Read, done, failed, chunk, Outcome, finished, rejected, read_loop, on_chunk, not_ok,
  read_bounded_json, read_body, parse_outcome, decoded, declares_over,
}
use ai_agent_platform.Http.Buffers.{concat, total, assemble-concat}

-- A body that comes in chunks and then ends.
abbrev pub reads_of : List (List ℕ) → ℕ → Read
reads_of [] i = done
reads_of (bytes ∷ rest) zero = chunk bytes
reads_of (bytes ∷ rest) (suc i) = reads_of rest i

-- The loop one read later is the loop on the later reads.
read_loop-shift :
    (fuel : ℕ) (reads : ℕ → Read) (maximum i size : ℕ) (chunks : List (List ℕ))
    → read_loop fuel reads maximum (suc i) size chunks
      ≡ read_loop fuel (λ j. reads (suc j)) maximum i size chunks
unfolding read_loop
read_loop-shift zero reads maximum i size chunks = refl
read_loop-shift (suc fuel) reads maximum i size chunks = split (reads (suc i)) (λ bytes.
    read_loop-shift fuel reads maximum (i + 1) (size + length bytes) (chunks ++ bytes ∷ []))
  where
    split :
        (r : Read)
        → ((bytes : List ℕ)
            → read_loop fuel reads maximum
                (suc (i + 1))
                (size + length bytes)
                (chunks ++ bytes ∷ [])
              ≡ read_loop fuel
                  (λ j. reads (suc j))
                  maximum
                  (i + 1)
                  (size + length bytes)
                  (chunks ++ bytes ∷ []))
        → ◌≡◌ {A = Outcome}
            (elim r [
              | done ↦ finished chunks size
              | failed ↦ rejected
              | chunk bytes ↦ on_chunk (ltb maximum (size + length bytes)) (
                  read_loop fuel reads maximum
                    (suc i + 1)
                    (size + length bytes)
                    (chunks ++ bytes ∷ []))
            ])
            (elim r [
              | done ↦ finished chunks size
              | failed ↦ rejected
              | chunk bytes ↦ on_chunk (ltb maximum (size + length bytes)) (
                  read_loop fuel
                    (λ j. reads (suc j))
                    maximum
                    (i + 1)
                    (size + length bytes)
                    (chunks ++ bytes ∷ []))
            ])
    split done again = refl
    split failed again = refl
    split (chunk bytes) again = ap (on_chunk (ltb maximum (size + length bytes))) (
        let e : suc i + 1 ≡ suc (i + 1) = omega arith in
        ap (λ k. read_loop fuel reads maximum k (size + length bytes) (chunks ++ bytes ∷ [])) e
        ∙ again bytes)

append_nil : (xs : List (List ℕ)) → xs ++ [] ≡ xs
append_nil [] = refl
append_nil (x ∷ xs) = ap (λ l. x ∷ l) (append_nil xs)

append_cons :
    (xs : List (List ℕ)) (y : List ℕ) (ys : List (List ℕ)) → (xs ++ y ∷ []) ++ ys ≡ xs ++ y ∷ ys
append_cons [] y ys = refl
append_cons (x ∷ xs) y ys = ap (λ l. x ∷ l) (append_cons xs y ys)

abbrev ends_with : ℕ → ℕ → List (List ℕ) → Outcome
ends_with maximum size chunks = if leb size maximum then finished chunks size else rejected

ends_over :
    (maximum size : ℕ) (chunks : List (List ℕ))
    → maximum < size
    → ends_with maximum size chunks ≡ rejected
ends_over maximum size chunks h = ground arith

read_loop-reads_of :
    (rest : List (List ℕ)) (fuel maximum size : ℕ) (chunks : List (List ℕ))
    → length rest < fuel
    → size ≤ maximum
    → read_loop fuel (reads_of rest) maximum 0 size chunks
      ≡ ends_with maximum (size + total rest) (chunks ++ rest)
unfolding read_loop
read_loop-reads_of rest zero maximum size chunks enough within = ground arith
read_loop-reads_of [] (suc fuel) maximum size chunks enough within =
    let e : size + 0 ≡ size = omega arith in rw (e, append_nil chunks) (ground arith)
read_loop-reads_of (bytes ∷ rest) (suc fuel) maximum size chunks enough within =
    elim (Bool-cases (ltb maximum (size + length bytes))) [
      | inl over ↦
          ap
            (λ b. on_chunk b (
              read_loop fuel (reads_of (bytes ∷ rest)) maximum (0 + 1) (size + length bytes)
                (chunks ++ bytes ∷ [])))
            over
          ∙ sym (
              ends_over maximum (size + (length bytes + total rest)) (chunks ++ bytes ∷ rest)
                (ground arith))
      | inr inside ↦
          ap
            (λ b. on_chunk b (
              read_loop fuel (reads_of (bytes ∷ rest)) maximum (0 + 1) (size + length bytes)
                (chunks ++ bytes ∷ [])))
            inside
          ∙ read_loop-shift fuel (reads_of (bytes ∷ rest)) maximum 0 (size + length bytes)
              (chunks ++ bytes ∷ [])
          ∙ read_loop-reads_of rest fuel maximum (size + length bytes) (chunks ++ bytes ∷ [])
              (omega arith) (ground arith)
          ∙ (let e : (size + length bytes) + total rest ≡ size + (length bytes + total rest) =
                omega arith in
              λ i. ends_with maximum (e i) (append_cons chunks bytes rest i))
    ]

parse_outcome-ends_with :
    {A : Type 0} (decode : List ℕ → Option A) (maximum : ℕ) (chunks : List (List ℕ))
    → parse_outcome decode (ends_with maximum (total chunks) chunks)
      ≡ (if ltb maximum (total chunks) then not_ok else decoded decode (decode (concat chunks)))
unfolding parse_outcome
parse_outcome-ends_with decode maximum chunks = elim (Bool-cases (ltb maximum (total chunks))) [
  | inl over ↦ let h : leb (total chunks) maximum ≡ false = ground arith in rw (over, h) refl
  | inr inside ↦
      let h : leb (total chunks) maximum ≡ true = ground arith in
      rw (inside, h) (ap (λ bytes. decoded decode (decode bytes)) (assemble-concat chunks))
]

either :
    {A : Type 0} (a b : Bool) (x y : A)
    → (if a then x else (if b then x else y)) ≡ (if a || b then x else y)
either true b x y = refl
either false b x y = refl

-- A body that comes in chunks and then ends is rejected when its header declares more than the
-- maximum or when it has more bytes than that; otherwise the bytes of all its chunks are decoded.
-- One read more than there are chunks is enough.
pub read_bounded_json-eq :
    {A : Type 0} (decode : List ℕ → Option A) (content_length : Option String)
    (chunks : List (List ℕ)) (fuel maximum : ℕ)
    → length chunks < fuel
    → read_bounded_json decode fuel content_length (some (reads_of chunks)) maximum ≡ (
        if declares_over maximum content_length || ltb maximum (total chunks)
        then not_ok
        else decoded decode (decode (concat chunks)))
unfolding read_bounded_json read_body
read_bounded_json-eq decode content_length chunks fuel maximum enough =
    let start : 0 + total chunks ≡ total chunks = omega arith in
    let over = declares_over maximum content_length in
    ap (λ o. if over then not_ok else parse_outcome decode o)
      (read_loop-reads_of chunks fuel maximum 0 [] enough (omega arith)
        ∙ ap (λ n. ends_with maximum n chunks) start)
    ∙ ap (λ r. if over then not_ok else r) (parse_outcome-ends_with decode maximum chunks)
    ∙ either over (ltb maximum (total chunks)) not_ok (decoded decode (decode (concat chunks)))
