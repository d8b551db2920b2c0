-- ===== src/Files/Effects.antt =====
-- What a call of the file system comes to: `err_handler` (src/kernel.c) halts the machine with its
-- error code and never returns.
use sky_net_os.Base.{done, fault, Returns, Outcome, ℕ}

pub data Effect (A : Type 0) : Type 0 where
  ok : A → Effect A
  halted : ℕ → Effect A
  undefined : Effect A

infixl 5 ◌>>=◌
abbrev pub ◌>>=◌ : {A B : Type 0} → Effect A → (A → Effect B) → Effect B
ok a >>= f = f a
halted code >>= f = halted code
undefined >>= f = undefined

abbrev pub lift : {A : Type 0} → Outcome A → Effect A
lift (done a) = ok a
lift fault = undefined

-- The call returns a value with `P`, or halts with a code with `H`; it is never undefined.
abbrev pub Ends : {A : Type 0} → (ℕ → Type 0) → (A → Type 0) → Effect A → Type 0
Ends H P (ok a) = P a
Ends H P (halted code) = H code
Ends H P undefined = ⊥

pub Ends-bind :
    {A B : Type 0} (H : ℕ → Type 0) (P : A → Type 0) (Q : B → Type 0) (m : Effect A)
    (f : A → Effect B)
    → Ends H P m
    → ((a : A) → P a → Ends H Q (f a))
    → Ends H Q (m >>= f)
Ends-bind H P Q (ok a) f p next = next a p
Ends-bind H P Q (halted code) f p next = p
Ends-bind H P Q undefined f p next = p

pub Ends-lift :
    {A : Type 0} (H : ℕ → Type 0) (P : A → Type 0) (m : Outcome A) → Returns P m → Ends H P (lift m)
Ends-lift H P (done a) p = p
Ends-lift H P fault p = p
