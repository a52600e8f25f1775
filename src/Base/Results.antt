-- ===== src/Base/Results.antt =====
-- Code that may raise: a value or an error, with Python's `raise` and `except` as functions.
use mathlib.Core.Path.{◌≡◌, refl, ap}
use mathlib.Core.Logic.{◌⊎◌, inl, inr}
use mathlib.Core.Bool.{Bool, true, false}
use mathlib.Core.Option.{Option, none, some}
use mathlib.Core.List.{List, [], ◌∷◌, ◌++◌}
use native.Mathlib.Omega.{arith}

pub data Result (E : Type 0) (A : Type 0) : Type 0 where
  ok : A → Result E A
  err : E → Result E A

infixl 5 ◌>>=◌ ◌>>◌
unfoldable pub ◌>>=◌ : {E A B : Type 0} → Result E A → (A → Result E B) → Result E B
ok a >>= f = f a
err e >>= f = err e

abbrev pub ◌>>◌ : {E A B : Type 0} → Result E A → Result E B → Result E B
m >> k = m >>= λ _. k

-- `if not test: raise error`
abbrev pub require : {E : Type 0} → Bool → E → Result E (Unit {0})
require true e = ok tt
require false e = err e

-- `if test: raise error`
abbrev pub refuse_if : {E : Type 0} → Bool → E → Result E (Unit {0})
refuse_if true e = err e
refuse_if false e = ok tt

-- `if o is None: raise error`, and the value otherwise
abbrev pub require_some : {E A : Type 0} → Option A → E → Result E A
require_some none e = err e
require_some (some a) e = ok a

-- `except E as exc: raise F(exc)`
abbrev pub map_err : {E F A : Type 0} → (E → F) → Result E A → Result F A
map_err f (ok a) = ok a
map_err f (err e) = err (f e)

abbrev pub is_ok : {E A : Type 0} → Result E A → Bool
is_ok (ok a) = true
is_ok (err e) = false

-- A check of every item, which stops at the first that fails.
unfoldable pub each : {E A : Type 0} → (A → Result E (Unit {0})) → List A → Result E (Unit {0})
each f [] = ok tt
each f (x ∷ xs) = do f x; each f xs

-- Inversion of a chain that returned.
pub >>=-eq-ok :
    {E A B : Type 0} (m : Result E A) (f : A → Result E B) {b : B}
    → (m >>= f) ≡ ok b
    → (a : A) × (m ≡ ok a) × (f a ≡ ok b)
unfolding ◌>>=◌
>>=-eq-ok (ok a) f h = (a, refl, h)
>>=-eq-ok (err e) f h = cc

pub Result-cases :
    {E A : Type 0} (r : Result E A) → ((a : A) × (r ≡ ok a)) ⊎ ((e : E) × (r ≡ err e))
Result-cases (ok a) = inl (a, refl)
Result-cases (err e) = inr (e, refl)

pub require-ok : {E : Type 0} (b : Bool) (e : E) {u : Unit {0}} → require b e ≡ ok u → b ≡ true
require-ok true e h = refl
require-ok false e h = cc

pub refuse_if-ok : {E : Type 0} (b : Bool) (e : E) {u : Unit {0}} → refuse_if b e ≡ ok u → b ≡ false
refuse_if-ok false e h = refl
refuse_if-ok true e h = cc

pub map_err-ok :
    {E F A : Type 0} (f : E → F) (r : Result E A) {a : A} → map_err f r ≡ ok a → r ≡ ok a
map_err-ok f (ok x) h = ground arith
map_err-ok f (err e) h = cc

pub ok-injective : {E A : Type 0} (a b : A) → ◌≡◌ {A = Result E A} (ok a) (ok b) → a ≡ b
ok-injective a b h = cc

pub ok-pair :
    {E A B : Type 0} (a c : A) (b d : B)
    → ◌≡◌ {A = Result E (A × B)} (ok (a, b)) (ok (c, d))
    → (a ≡ c) × (b ≡ d)
ok-pair a c b d h = let e = ok-injective _ _ h in (ap (λ p. p.0) e, ap (λ p. p.1) e)

-- Inversion of a chain that raised: either the first part did, or the rest did after it.
pub >>=-eq-err :
    {E A B : Type 0} (m : Result E A) (f : A → Result E B) {e : E}
    → (m >>= f) ≡ err e
    → (m ≡ err e) ⊎ ((a : A) × (m ≡ ok a) × (f a ≡ err e))
unfolding ◌>>=◌
>>=-eq-err (ok a) f h = inr (a, refl, h)
>>=-eq-err (err x) f h = inl (ground arith)

pub map_err-err :
    {E F A : Type 0} (f : E → F) (r : Result E A) {x : F}
    → map_err f r ≡ err x
    → (e : E) × (r ≡ err e) × (x ≡ f e)
map_err-err f (ok a) h = absurd (cc)
map_err-err f (err e) h = (e, refl, ground arith)

pub require-err :
    {E : Type 0} (b : Bool) (e : E) {x : E} → require b e ≡ err x → (b ≡ false) × (x ≡ e)
require-err true e h = absurd (cc)
require-err false e h = (refl, ground arith)

pub each-append :
    {E A : Type 0} (f : A → Result E (Unit {0})) (xs ys : List A)
    → each f xs ≡ ok tt
    → each f ys ≡ ok tt
    → each f (xs ++ ys) ≡ ok tt
unfolding each ◌>>=◌
each-append f [] ys h k = k
each-append f (x ∷ xs) ys h k =
    let (u, p, q) = >>=-eq-ok (f x) (λ _. each f xs) h in rw p (each-append f xs ys q k)

pub err-injective : {E A : Type 0} (a b : E) → ◌≡◌ {A = Result E A} (err a) (err b) → a ≡ b
err-injective a b h = cc

pub require_of : {E : Type 0} (b : Bool) (e : E) → b ≡ true → require b e ≡ ok tt
require_of b e h = rw h

pub require_some-ok :
    {E A : Type 0} (o : Option A) (e : E) {a : A} → require_some o e ≡ ok a → o ≡ some a
require_some-ok none e h = absurd (cc)
require_some-ok (some a) e h = ground arith

pub require_some-err :
    {E A : Type 0} (o : Option A) (e : E) {x : E} → require_some o e ≡ err x → x ≡ e
require_some-err none e h = ground arith
require_some-err (some a) e h = absurd (cc)

pub require_some_of :
    {E A : Type 0} (o : Option A) (e : E) {a : A} → o ≡ some a → require_some o e ≡ ok a
require_some_of o e h = rw h refl

pub >>=-ok :
    {E A B : Type 0} (m : Result E A) (f : A → Result E B) {a : A} → m ≡ ok a → (m >>= f) ≡ f a
unfolding ◌>>=◌
>>=-ok m f h = rw h refl
