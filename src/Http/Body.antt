-- ===== src/Http/Body.antt =====
-- apps/web/src/server/http/read-bounded-json.ts: `readBoundedJson`. A body is the function of its
-- reads; `decode` is the platform's UTF-8 decoder and JSON parser, which may refuse. The loop runs on
-- fuel, one unit a read. Lengths are far below 2 ^ 53, where `Number` is exact.
use Prim.Native.Char.{code}
use ai_agent_platform.Base.{
  ℕ, zero, suc, ◌+◌, ◌-◌, ◌*◌, String, Bool, true, false, ◌&&◌, Option, none, some, List, [], ◌∷◌,
  ◌++◌, length, leb, ltb, if◌then◌else◌,
}

-- `reader.read()`.
pub data Read : Type 0 where
  done : Read
  failed : Read
  chunk : List ℕ → Read

-- What the loop ends with; `running` when the fuel is spent.
pub data Outcome : Type 0 where
  finished : List (List ℕ) → ℕ → Outcome
  rejected : Outcome
  running : Outcome

abbrev pub on_chunk : Bool → Outcome → Outcome
on_chunk true rest = rejected
on_chunk false rest = rest

-- The loop, at the read `i`, with the bytes and the chunks so far.
unfoldable pub read_loop : ℕ → (ℕ → Read) → ℕ → ℕ → ℕ → List (List ℕ) → Outcome
read_loop zero reads maximum i total chunks = running
read_loop (suc fuel) reads maximum i total chunks = elim (reads i) [
  | done ↦ finished chunks total
  | failed ↦ rejected
  | chunk bytes ↦
      on_chunk (ltb maximum (total + length bytes))
        (read_loop fuel reads maximum (i + 1) (total + length bytes) (chunks ++ bytes ∷ []))
]

abbrev pub zeros : ℕ → List ℕ
zeros zero = []
zeros (suc n) = 0 ∷ zeros n

abbrev pub drop : ℕ → List ℕ → List ℕ
drop zero xs = xs
drop (suc n) [] = []
drop (suc n) (x ∷ xs) = drop n xs

-- `bytes.set(chunk, offset)`.
abbrev pub set_at : ℕ → List ℕ → List ℕ → List ℕ
set_at zero bytes buffer = bytes ++ drop (length bytes) buffer
set_at (suc n) bytes [] = []
set_at (suc n) bytes (b ∷ buffer) = b ∷ set_at n bytes buffer

unfoldable pub assemble : List (List ℕ) → ℕ → List ℕ → List ℕ
assemble [] offset buffer = buffer
assemble (bytes ∷ rest) offset buffer =
    assemble rest (offset + length bytes) (set_at offset bytes buffer)

abbrev is_digit : ℕ → Bool
is_digit c = leb 48 c && leb c 57

abbrev all_digits : String → Bool
all_digits String.[] = true
all_digits (String.◌∷◌ c rest) = is_digit (code c) && all_digits rest

-- `/^\d+$/u`.
abbrev is_number : String → Bool
is_number String.[] = false
is_number (String.◌∷◌ c rest) = is_digit (code c) && all_digits rest

abbrev number_from : ℕ → String → ℕ
number_from n String.[] = n
number_from n (String.◌∷◌ c rest) = number_from (n * 10 + (code c - 48)) rest

-- Whether the header `content-length` says more than the maximum.
unfoldable pub declares_over : ℕ → Option String → Bool
declares_over maximum none = false
declares_over maximum (some s) = is_number s && ltb maximum (number_from 0 s)

pub data JsonReadResult (A : Type 0) : Type 0 where
  parsed : A → JsonReadResult A
  not_ok : JsonReadResult A
  unfinished : JsonReadResult A

module _ {A : Type 0} (decode : List ℕ → Option A) where
  abbrev pub decoded : Option A → JsonReadResult A
  decoded none = not_ok
  decoded (some v) = parsed v

  unfoldable pub parse_outcome : Outcome → JsonReadResult A
  unfolding assemble
  parse_outcome (finished chunks total) = decoded (decode (assemble chunks 0 (zeros total)))
  parse_outcome rejected = not_ok
  parse_outcome running = unfinished

  unfoldable pub read_body : ℕ → ℕ → Option (ℕ → Read) → JsonReadResult A
  unfolding parse_outcome read_loop
  read_body fuel maximum none = not_ok
  read_body fuel maximum (some reads) = parse_outcome (read_loop fuel reads maximum 0 0 [])

  unfoldable pub read_bounded_json : ℕ → Option String → Option (ℕ → Read) → ℕ → JsonReadResult A
  unfolding read_body declares_over
  read_bounded_json fuel content_length body maximum =
      if declares_over maximum content_length then not_ok else read_body fuel maximum body
