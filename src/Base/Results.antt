-- ===== src/Base/Results.antt =====
-- Errors as values, and database transactions as state passing with rollback.
use mathlib.Core.Path.{ap, ◌≡◌, refl}
use mathlib.Core.Bool.{Bool, true, false}

pub data Result (E : Type 0) (A : Type 0) : Type 0 where
  ok : A → Result E A
  err : E → Result E A

-- Code in a transaction: it reads and writes the tables `S`, and may throw.
abbrev pub Tx : Type 0 → Type 0 → Type 0 → Type 0
Tx S E A = S → Result E (A × S)

infixl 5 ◌>>=◌ ◌>>◌
unfoldable pub ◌>>=◌ : {S E A B : Type 0} → Tx S E A → (A → Tx S E B) → Tx S E B
◌>>=◌ m f s = elim (m s) [ ok (a, t) ↦ f a t | err e ↦ err e ]

abbrev pub ◌>>◌ : {S E B : Type 0} → Tx S E (Unit {0}) → Tx S E B → Tx S E B
m >> k = m >>= λ _. k

abbrev pub return : {S E A : Type 0} → A → Tx S E A
return a s = ok (a, s)

abbrev pub throw : {S E A : Type 0} → E → Tx S E A
throw e s = err e

-- `if (b) throw e`.
abbrev pub throw_if : {S E : Type 0} → Bool → E → Tx S E (Unit {0})
throw_if true e s = err e
throw_if false e s = ok (tt, s)

-- `database.transaction(work)`: a thrown error rolls every write back.
abbrev pub commit : {S E A : Type 0} → S → Result E (A × S) → Result E A × S
commit s (ok (a, t)) = (ok a, t)
commit s (err e) = (err e, s)

abbrev pub transaction : {S E A : Type 0} → Tx S E A → S → Result E A × S
transaction work s = commit s (work s)

module _ {S E A : Type 0} where
  -- What a successful step leaves for the rest.
  pub >>=-eq-ok :
      {B : Type 0} (m : Tx S E A) (f : A → Tx S E B) (s : S) {r : B × S}
      → (m >>= f) s ≡ ok r
      → (a : A) × (t : S) × (m s ≡ ok (a, t)) × (f a t ≡ ok r)
  unfolding ◌>>=◌
  >>=-eq-ok {B} m f s {r} h = split (m s) refl h
    where
      split :
          (x : Result E (A × S))
          → m s ≡ x
          → (elim x [ ok (a, t) ↦ f a t | err e ↦ err e ]) ≡ ok r
          → (a : A) × (t : S) × (m s ≡ ok (a, t)) × (f a t ≡ ok r)
      split (ok (a, t)) e k = (a, t, e, k)
      split (err x) e k = cc

  -- What the rest makes of a successful step.
  pub >>=-ok :
      {B : Type 0} (m : Tx S E A) (f : A → Tx S E B) (s : S) {a : A} {t : S}
      → m s ≡ ok (a, t)
      → (m >>= f) s ≡ f a t
  unfolding ◌>>=◌
  >>=-ok {B} m f s h =
      ap
        (λ (x : Result E (A × S)).
          let y : Result E (B × S) = elim x [ ok (a, t) ↦ f a t | err e ↦ err e ] in y)
        h

  -- The same, to go on with.
  pub >>=-elim {κ} :
      {B : Type 0} {P : Type κ} (m : Tx S E A) (f : A → Tx S E B) (s : S) {r : B × S}
      → (m >>= f) s ≡ ok r
      → ((a : A) (t : S) → m s ≡ ok (a, t) → f a t ≡ ok r → P)
      → P
  >>=-elim m f s h k = let (a, t, p, q) = >>=-eq-ok m f s h in k a t p q

  -- What is committed is what the code returned.
  pub transaction-eq-ok :
      (work : Tx S E A) (s : S) {a : A} {t : S}
      → transaction work s ≡ (ok a, t)
      → work s ≡ ok (a, t)
  transaction-eq-ok work s {a} {t} h = split (work s) h
    where
      split : (x : Result E (A × S)) → commit s x ≡ (ok a, t) → x ≡ ok (a, t)
      split (ok (b, u)) k = cc
      split (err e) k = cc

  -- A failure leaves the tables as they were.
  pub transaction-eq-err :
      (work : Tx S E A) (s : S) {e : E} {t : S} → transaction work s ≡ (err e, t) → t ≡ s
  transaction-eq-err work s {e} {t} h = split (work s) h
    where
      split : (x : Result E (A × S)) → commit s x ≡ (err e, t) → t ≡ s
      split (ok (b, u)) k = cc
      split (err e) k = cc

-- A test that was passed, and the rest.
module _ {S E A : Type 0} where
  pub throw_if-then :
      (b : Bool) (e : E) (k : Tx S E A) (s : S) {r : A × S}
      → (throw_if b e >> k) s ≡ ok r
      → (b ≡ false) × (k s ≡ ok r)
  unfolding ◌>>=◌
  throw_if-then true e k s h = cc
  throw_if-then false e k s h = (refl, h)
