-- ===== src/Base/Exec.antt =====
-- Methods that mutate a state and may fail: what was done before a failure stays done, so the state
-- comes back beside the error too.
use mathlib.Core.Path.{◌≡◌, refl}
use rdmalib.Base.Io.{IoResult, ok, err, ErrorKind}

abbrev pub Exec : Type 0 → Type 0 → Type 0
Exec S A = S → IoResult A × S

abbrev pub continue : {S A B : Type 0} → IoResult A → (A → Exec S B) → Exec S B
continue (ok a) f s = f a s
continue (err e) f s = (err e, s)

infixl 5 ◌>>=◌ ◌>>◌
-- The `?` operator after a call that changes the state.
abbrev pub ◌>>=◌ : {S A B : Type 0} → Exec S A → (A → Exec S B) → Exec S B
◌>>=◌ m f s = let (r, s') = m s in continue r f s'

abbrev pub ◌>>◌ : {S A B : Type 0} → Exec S A → Exec S B → Exec S B
m >> k = m >>= λ _. k

abbrev pub pure : {S A : Type 0} → A → Exec S A
pure a s = (ok a, s)

abbrev pub raise : {S A : Type 0} → ErrorKind → Exec S A
raise e s = (err e, s)

abbrev pub lift : {S A : Type 0} → IoResult A → Exec S A
lift r s = (r, s)

-- A successful first step is run away by its equation.
pub >>=-step :
    {S A B : Type 0} (m : Exec S A) (f : A → Exec S B) {s s' : S} {a : A}
    → m s ≡ (ok a, s')
    → (m >>= f) s ≡ f a s'
>>=-step m f {s'} {a} e = λ i. let (r, t) = e i in continue r f t

pub >>=-eq-ok :
    {S A B : Type 0} (m : Exec S A) (f : A → Exec S B) (s : S) {s' : S} {b : B}
    → (m >>= f) s ≡ (ok b, s')
    → (a : A) × (s₁ : S) × (m s ≡ (ok a, s₁)) × (f a s₁ ≡ (ok b, s'))
>>=-eq-ok {S} {A} {B} m f s {s'} {b} e = go (m s) refl e
  where
    go :
        (p : IoResult A × S)
        → m s ≡ p
        → continue p.0 f p.1 ≡ (ok b, s')
        → (a : A) × (s₁ : S) × (m s ≡ (ok a, s₁)) × (f a s₁ ≡ (ok b, s'))
    go (ok a, s₁) p k = (a, s₁, p, k)
    go (err x, s₁) p k = cc
