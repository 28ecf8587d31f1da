-- ===== src/Base/Errors.antt =====
-- What ends a call early: a thrown exception, a failed assert or an access that is not defined.
-- `out_of_fuel` stands for a loop that goes on for longer than the fuel of its model.
use mathlib.Core.Path.{◌≡◌, refl}
use mathlib.Core.Logic.{◌≢◌}
use mathlib.Core.Bool.{Bool, true, false}
use mathlib.Core.Option.{Option, none, some}

pub data Fault : Type 0 where
  assert_failed invalid_argument logic_error runtime_error : Fault
  bad_variant_access null_pointer out_of_range out_of_fuel invalid_bool : Fault

pub data Result {ℓ} (A : Type ℓ) : Type ℓ where
  ok : A → Result A
  err : Fault → Result A

-- assert(b), or a test that throws.
abbrev pub guard : Bool → Fault → Result (Unit {0})
guard false fault = err fault
guard true fault = ok tt

abbrev pub or_fail {ℓ} : {A : Type ℓ} → Option A → Fault → Result A
or_fail (some a) fault = ok a
or_fail none fault = err fault

-- What follows a call that may end early.
infixl 5 ◌>>=◌ ◌>>◌
abbrev pub ◌>>=◌ {ℓ κ} : {A : Type ℓ} {B : Type κ} → Result A → (A → Result B) → Result B
err fault >>= rest = err fault
ok a >>= rest = rest a

abbrev pub ◌>>◌ {ℓ} : {B : Type ℓ} → Result (Unit {0}) → Result B → Result B
call >> rest = call >>= λ _. rest

pub Result-cases {ℓ} :
    {A : Type ℓ} (r : Result A) → ((e : Fault) → r ≢ err e) → (a : A) × (r ≡ ok a)
Result-cases (ok a) h = (a, refl)
Result-cases (err e) h = absurd (h e refl)

-- Inversion of a successful bind, for proofs where the parts stay shut.
pub >>=-eq-ok {ℓ κ} :
    {A : Type ℓ} {B : Type κ} (call : Result A) (rest : A → Result B) {b : B}
    → (call >>= rest) ≡ ok b
    → (a : A) × (call ≡ ok a) × (rest a ≡ ok b)
>>=-eq-ok (err fault) rest done = cc
>>=-eq-ok (ok a) rest done = (a, refl, done)

-- The same, for a proof that goes on with the value.
pub on_ok {ℓ κ μ} :
    {A : Type ℓ} {B : Type κ} {C : Type μ} (call : Result A) (rest : A → Result B) {b : B}
    → (call >>= rest) ≡ ok b
    → ((a : A) → call ≡ ok a → rest a ≡ ok b → C)
    → C
on_ok (err fault) rest done next = absurd (cc done)
on_ok (ok a) rest done next = next a refl done

pub guard-true : (b : Bool) (fault : Fault) {u : Unit {0}} → guard b fault ≡ ok u → b ≡ true
guard-true true fault h = refl
guard-true false fault h = cc
