-- ===== src/Prelude/Outcome.antt =====
-- A fallible call: Rust's `Result`, with a third outcome for a panic.
use mathlib.Core.Path.{◌≡◌, refl}
use mathlib.Core.Option.{Option, none, some}
use mathlib.Core.Bool.{Bool, true, false}

pub data Result {ℓ κ} (E : Type ℓ) (A : Type κ) : Type (ℓ ⊔ κ) where
  ok : A → Result E A
  err : E → Result E A
  panicked : Result E A

module _ {ℓ κ μ} {E : Type ℓ} {A : Type κ} {B : Type μ} where
  -- `call?`, with what follows it.
  infixl 5 ◌>>=◌
  abbrev pub ◌>>=◌ : Result E A → (A → Result E B) → Result E B
  panicked >>= next = panicked
  (err failure) >>= next = err failure
  (ok value) >>= next = next value

  -- What a successful chain has been through.
  pub >>=-eq-ok :
      (call : Result E A) (next : A → Result E B) {last : B}
      → (call >>= next) ≡ ok last
      → (value : A) × (call ≡ ok value) × (next value ≡ ok last)
  >>=-eq-ok panicked next chain = cc
  >>=-eq-ok (err failure) next chain = cc
  >>=-eq-ok (ok value) next chain = (value, refl, chain)

infixl 5 ◌>>◌
abbrev pub ◌>>◌ {ℓ μ} : {E : Type ℓ} {B : Type μ} → Result E (Unit {0}) → Result E B → Result E B
call >> following = call >>= λ _. following

-- `if c { return Err(e) }`
abbrev pub fail_if {ℓ} : {E : Type ℓ} → Bool → E → Result E (Unit {0})
fail_if true e = err e
fail_if false e = ok tt

abbrev pub ok_or {ℓ κ} : {E : Type ℓ} {A : Type κ} → Option A → E → Result E A
ok_or none e = err e
ok_or (some a) e = ok a

-- `map_err`
abbrev pub map_err {ℓ κ μ} :
    {E : Type ℓ} {F : Type μ} {A : Type κ} → (E → F) → Result E A → Result F A
map_err f (ok a) = ok a
map_err f (err e) = err (f e)
map_err f panicked = panicked

pub fail_if-eq-ok {ℓ} :
    {E : Type ℓ} (c : Bool) (e : E) {u : Unit {0}} → fail_if c e ≡ ok u → c ≡ false
fail_if-eq-ok true e h = cc
fail_if-eq-ok false e h = refl

pub ok_or-eq-ok {ℓ κ} :
    {E : Type ℓ} {A : Type κ} (o : Option A) (e : E) {a : A} → ok_or o e ≡ ok a → o ≡ some a
ok_or-eq-ok none e h = cc
ok_or-eq-ok (some b) e h = cc

pub map_err-eq-ok {ℓ κ μ} :
    {E : Type ℓ} {F : Type μ} {A : Type κ} (f : E → F) (m : Result E A) {a : A}
    → map_err f m ≡ ok a
    → m ≡ ok a
map_err-eq-ok f (ok b) h = cc
map_err-eq-ok f (err e) h = cc
map_err-eq-ok f panicked h = cc

pub >>-eq-ok {ℓ μ} :
    {E : Type ℓ} {B : Type μ} (c : Bool) (e : E) (k : Result E B) {b : B}
    → (fail_if c e >> k) ≡ ok b
    → (c ≡ false) × (k ≡ ok b)
>>-eq-ok true e k h = cc
>>-eq-ok false e k h = (refl, h)

pub then-eq-ok {ℓ μ} :
    {E : Type ℓ} {B : Type μ} (m : Result E (Unit {0})) (k : Result E B) {b : B}
    → (m >> k) ≡ ok b
    → (m ≡ ok tt) × (k ≡ ok b)
then-eq-ok (ok u) k h = (refl, h)
then-eq-ok (err e) k h = cc
then-eq-ok panicked k h = cc
