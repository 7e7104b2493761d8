-- ===== src/Prelude/Results.antt =====
-- The outcome of code that may throw, and of code whose behaviour the language leaves undefined.
use mathlib.Core.Path.{◌≡◌, refl, subst}
use mathlib.Core.Bool.{Bool, true, false}

-- The exceptions of audioneex.h, std::runtime_error and std::logic_error; `decode_failed` is the
-- return code -1 of BlockEncoder::Decode, `output_full` the early `return 0` of VByteCODEC::decode.
pub data Error : Type 0 where
  invalid_indexer_state invalid_parameter invalid_audio_codes : Error
  invalid_fingerprint invalid_index_data runtime_error logic_error : Error
  invalid_argument decode_failed output_full invalid_match_sequence : Error

-- `fault` is undefined behaviour: an access out of bounds or a shift that is too wide.
-- `stuck` is no outcome of the program: a loop of the model ran out of fuel.
pub data Outcome {ℓ} (A : Type ℓ) : Type ℓ where
  ok : A → Outcome A
  err : Error → Outcome A
  fault : Outcome A
  stuck : Outcome A

infixl 5 ◌>>=◌
abbrev pub ◌>>=◌ {ℓ κ} : {A : Type ℓ} {B : Type κ} → Outcome A → (A → Outcome B) → Outcome B
ok a >>= f = f a
err e >>= f = err e
fault >>= f = fault
stuck >>= f = stuck

pub >>=-ok {ℓ} : {A : Type ℓ} (m : Outcome A) → (m >>= ok) ≡ m
>>=-ok (ok a) = refl
>>=-ok (err e) = refl
>>=-ok fault = refl
>>=-ok stuck = refl

pub ok-injective {ℓ} : {A : Type ℓ} {a b : A} → ok a ≡ ok b → a ≡ b
ok-injective e = cc

pub >>=-ne-stuck {ℓ κ} :
    {A : Type ℓ} {B : Type κ} (m : Outcome A) (f : A → Outcome B)
    → ¬ (m ≡ stuck)
    → ((a : A) → m ≡ ok a → ¬ (f a ≡ stuck))
    → ¬ ((m >>= f) ≡ stuck)
>>=-ne-stuck (ok a) f h k e = k a refl e
>>=-ne-stuck (err x) f h k e = cc
>>=-ne-stuck fault f h k e = cc
>>=-ne-stuck stuck f h k e = h refl

-- A property of the result, if there is one.
abbrev pub IfOk {ℓ κ} : {A : Type ℓ} → (A → Type κ) → Outcome A → Type κ
IfOk P (ok a) = P a
IfOk P (err e) = Unit
IfOk P fault = Unit
IfOk P stuck = Unit

pub >>=-IfOk {ℓ κ μ} :
    {A : Type ℓ} {B : Type κ} (P : B → Type μ) (m : Outcome A) (f : A → Outcome B)
    → ((a : A) → m ≡ ok a → IfOk P (f a))
    → IfOk P (m >>= f)
>>=-IfOk P (ok a) f h = h a refl
>>=-IfOk P (err e) f h = tt
>>=-IfOk P fault f h = tt
>>=-IfOk P stuck f h = tt

pub IfOk-ok {ℓ κ} :
    {A : Type ℓ} (P : A → Type κ) (m : Outcome A) {a : A} → m ≡ ok a → IfOk P m → P a
IfOk-ok P (ok a) e h = subst P (ok-injective e) h
IfOk-ok P (err x) e h = cc
IfOk-ok P fault e h = cc
IfOk-ok P stuck e h = cc

pub IfOk-map {ℓ κ μ} :
    {A : Type ℓ} (P : A → Type κ) (Q : A → Type μ) (m : Outcome A)
    → ((a : A) → P a → Q a)
    → IfOk P m
    → IfOk Q m
IfOk-map P Q (ok a) h k = h a k
IfOk-map P Q (err e) h k = tt
IfOk-map P Q fault h k = tt
IfOk-map P Q stuck h k = tt

-- What holds where a loop has run out of fuel.
abbrev pub IfStuck {ℓ κ} : {A : Type ℓ} → Type κ → Outcome A → Type κ
IfStuck P (ok a) = Unit
IfStuck P (err e) = Unit
IfStuck P fault = Unit
IfStuck P stuck = P

pub >>=-IfStuck {ℓ κ μ} :
    {A : Type ℓ} {B : Type κ} (P : Type μ) (m : Outcome A) (f : A → Outcome B)
    → IfStuck P m
    → ((a : A) → m ≡ ok a → IfStuck P (f a))
    → IfStuck P (m >>= f)
>>=-IfStuck P (ok a) f h k = k a refl
>>=-IfStuck P (err e) f h k = tt
>>=-IfStuck P fault f h k = tt
>>=-IfStuck P stuck f h k = h

pub IfStuck-stuck {ℓ κ} : {A : Type ℓ} (P : Type κ) (m : Outcome A) → m ≡ stuck → IfStuck P m → P
IfStuck-stuck P (ok a) e h = cc
IfStuck-stuck P (err x) e h = cc
IfStuck-stuck P fault e h = cc
IfStuck-stuck P stuck e h = h

pub IfStuck-self {ℓ} : {A : Type ℓ} (m : Outcome A) → IfStuck (m ≡ stuck) m
IfStuck-self (ok a) = tt
IfStuck-self (err e) = tt
IfStuck-self fault = tt
IfStuck-self stuck = refl

pub IfStuck-map {ℓ κ μ} :
    {A : Type ℓ} {P : Type κ} {Q : Type μ} (m : Outcome A) → (P → Q) → IfStuck P m → IfStuck Q m
IfStuck-map (ok a) h k = tt
IfStuck-map (err e) h k = tt
IfStuck-map fault h k = tt
IfStuck-map stuck h k = h k

-- Where there is no result: a failure of total correctness, and none of partial correctness.
abbrev pub Otherwise : Bool → Type 0
Otherwise true = ⊥
Otherwise false = Unit

-- The result has the property; for `true`, there is one.
abbrev pub Holds {ℓ} : {A : Type ℓ} → Bool → (A → Type 0) → Outcome A → Type 0
Holds total P (ok a) = P a
Holds total P (err e) = Otherwise total
Holds total P fault = Otherwise total
Holds total P stuck = Otherwise total

pub >>=-Holds {ℓ κ} :
    {A : Type ℓ} {B : Type κ} (total : Bool) (P : A → Type 0) (Q : B → Type 0) (m : Outcome A)
    (f : A → Outcome B)
    → Holds total P m
    → ((a : A) → P a → Holds total Q (f a))
    → Holds total Q (m >>= f)
>>=-Holds total P Q (ok a) f h k = k a h
>>=-Holds total P Q (err e) f h k = h
>>=-Holds total P Q fault f h k = h
>>=-Holds total P Q stuck f h k = h

pub Holds-map {ℓ} :
    {A : Type ℓ} (total : Bool) (P Q : A → Type 0) (m : Outcome A)
    → ((a : A) → P a → Q a)
    → Holds total P m
    → Holds total Q m
Holds-map total P Q (ok a) h k = h a k
Holds-map total P Q (err e) h k = k
Holds-map total P Q fault h k = k
Holds-map total P Q stuck h k = k

pub Holds-ok {ℓ} :
    {A : Type ℓ} (P : A → Type 0) (m : Outcome A) → Holds true P m → (a : A) × (m ≡ ok a) × P a
Holds-ok P (ok a) h = (a, refl, h)
Holds-ok P (err e) h = absurd h
Holds-ok P fault h = absurd h
Holds-ok P stuck h = absurd h

-- Code that returns shows its property in both readings.
pub Holds-known {ℓ} :
    {A : Type ℓ} (total : Bool) (P : A → Type 0) (m : Outcome A) {a : A}
    → m ≡ ok a
    → Holds total P m
    → P a
Holds-known total P (ok a) e h = subst P (ok-injective e) h
Holds-known total P (err x) e h = cc
Holds-known total P fault e h = cc
Holds-known total P stuck e h = cc

-- Nothing is asked of the result.
pub Holds-any {ℓ} : {A : Type ℓ} (m : Outcome A) → Holds false (λ (_ : A). Unit {0}) m
Holds-any (ok a) = tt
Holds-any (err e) = tt
Holds-any fault = tt
Holds-any stuck = tt
