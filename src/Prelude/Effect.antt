-- ===== src/Prelude/Effect.antt =====
-- Calls of a broker: a state that each call may change, and an exception that ends the chain.
use portfolio_copilot.Prelude.{inr, arith, inl, Error, Result-cases, ◌≡◌, Result, ok, err, Exec}

infixl 5 ◌>>=◌ ◌>>◌
unfoldable pub ◌>>=◌ : {S A B : Type 0} → Exec S A → (A → Exec S B) → Exec S B
◌>>=◌ m f s = let (r, s') = m s in elim r [ ok a ↦ f a s' | err e ↦ (err e, s') ]

abbrev pub ◌>>◌ : {S B : Type 0} → Exec S (Unit {0}) → Exec S B → Exec S B
check >> next = check >>= λ _. next

abbrev pub lift : {S A : Type 0} → Result A → Exec S A
lift r s = (r, s)

abbrev pub pure : {S A : Type 0} → A → Exec S A
pure a s = (ok a, s)

-- A chain that returned went through its first call.
pub >>=-eq-ok :
    {S A B : Type 0} (m : Exec S A) (f : A → Exec S B) (s : S) {b : B}
    → ((m >>= f) s).0 ≡ ok b
    → (a : A) × ((m s).0 ≡ ok a) × ((f a (m s).1).0 ≡ ok b) × (((m >>= f) s).1 ≡ (f a (m s).1).1)
unfolding ◌>>=◌
>>=-eq-ok {S} {A} {B} m f s {b} h = elim (Result-cases (m s).0) [
  | inl (a, e) ↦ (a, e, ground (arith, e), ground (arith, e))
  | inr (x, e) ↦ absurd (ground (arith, e))
]

-- A chain whose first call raises ends there.
pub >>=-err :
    {S A B : Type 0} (m : Exec S A) (f : A → Exec S B) (s : S) {x : Error}
    → (m s).0 ≡ err x
    → (m >>= f) s ≡ (err x, (m s).1)
unfolding ◌>>=◌
>>=-err m f s e = ground (arith, e)

>>=-ok :
    {S A B : Type 0} (m : Exec S A) (f : A → Exec S B) (s : S) {a : A}
    → (m s).0 ≡ ok a
    → (m >>= f) s ≡ f a (m s).1
unfolding ◌>>=◌
>>=-ok m f s e = ground (arith, e)

-- What both parts of a chain leave alone, the chain leaves alone.
pub >>=-keeps :
    {S A B T : Type 0} (view : S → T) (m : Exec S A) (f : A → Exec S B)
    → ((s : S) → view (m s).1 ≡ view s)
    → ((a : A) (s : S) → view (f a s).1 ≡ view s)
    → (s : S) → view ((m >>= f) s).1 ≡ view s
>>=-keeps view m f first rest s = elim (Result-cases (m s).0) [
  | inl (a, e) ↦ rw (>>=-ok m f s e, rest a (m s).1) (first s)
  | inr (x, e) ↦ rw (>>=-err m f s e) (first s)
]
