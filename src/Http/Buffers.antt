-- ===== src/Http/Buffers.antt =====
-- The buffer that the chunks are copied into is their concatenation.
use ai_agent_platform.Base.{
  ℕ, suc, ◌+◌, ◌≡◌, refl, sym, ap, ◌∙◌, List, [], ◌∷◌, ◌++◌, length, arith,
}
use ai_agent_platform.Http.Body.{zeros, drop, set_at, assemble}

abbrev pub concat : List (List ℕ) → List ℕ
concat [] = []
concat (bytes ∷ rest) = bytes ++ concat rest

abbrev pub total : List (List ℕ) → ℕ
total [] = 0
total (bytes ∷ rest) = length bytes + total rest

drop-zeros : (bytes : List ℕ) (n : ℕ) → drop (length bytes) (zeros (length bytes + n)) ≡ zeros n
drop-zeros [] n = ap zeros (omega arith)
drop-zeros (b ∷ bytes) n =
    let e : suc (length bytes) + n ≡ suc (length bytes + n) = omega arith in
    ap (λ k. drop (suc (length bytes)) (zeros k)) e ∙ drop-zeros bytes n

append_assoc : (xs ys zs : List ℕ) → (xs ++ ys) ++ zs ≡ xs ++ (ys ++ zs)
append_assoc [] ys zs = refl
append_assoc (x ∷ xs) ys zs = ap (λ l. x ∷ l) (append_assoc xs ys zs)

length-append : (xs ys : List ℕ) → length (xs ++ ys) ≡ length xs + length ys
length-append [] ys = omega arith
length-append (x ∷ xs) ys = ground (arith, length-append xs ys)

set_at-front :
    (front bytes : List ℕ) (n : ℕ)
    → set_at (length front) bytes (front ++ zeros (length bytes + n)) ≡ (front ++ bytes) ++ zeros n
set_at-front [] bytes n = ap (λ l. bytes ++ l) (drop-zeros bytes n)
set_at-front (x ∷ front) bytes n = ap (λ l. x ∷ l) (set_at-front front bytes n)

assemble-front :
    (chunks : List (List ℕ)) (front : List ℕ)
    → assemble chunks (length front) (front ++ zeros (total chunks)) ≡ front ++ concat chunks
unfolding assemble
assemble-front [] front = refl
assemble-front (bytes ∷ rest) front =
    (λ i.
      assemble rest (sym (length-append front bytes) i) (set_at-front front bytes (total rest) i))
    ∙ assemble-front rest (front ++ bytes)
    ∙ append_assoc front bytes (concat rest)

pub assemble-concat :
    (chunks : List (List ℕ)) → assemble chunks 0 (zeros (total chunks)) ≡ concat chunks
assemble-concat chunks = assemble-front chunks []
