-- ===== src/Outcome.antt =====
-- What a call of the Python code comes to: a value, or an exception that leaves the call.
use reckon_k8s.Prelude.{Bool, true, false, Option, none, some, ◌≡◌, refl}

pub data Exception : Type 0 where
  eof_error struct_error unicode_error index_error key_error value_error recursion_error : Exception
  called_process_error system_exit type_error attribute_error assertion_error unbound_local_error
        not_supported no_leader name_error docker_error os_error :
      Exception

pub data Outcome {ℓ} (A : Type ℓ) : Type ℓ where
  ok : A → Outcome A
  raise : Exception → Outcome A

infixl 5 ◌>>=◌ ◌>>◌
abbrev pub ◌>>=◌ {ℓ κ} : {A : Type ℓ} {B : Type κ} → Outcome A → (A → Outcome B) → Outcome B
ok a >>= f = f a
raise e >>= f = raise e

abbrev pub ◌>>◌ {ℓ} : {B : Type ℓ} → Outcome (Unit {0}) → Outcome B → Outcome B
m >> k = m >>= λ _. k

-- `assert c`, and other guards that raise.
abbrev pub check : Bool → Exception → Outcome (Unit {0})
check true e = ok tt
check false e = raise e

abbrev pub or_raise {ℓ} : {A : Type ℓ} → Option A → Exception → Outcome A
or_raise none e = raise e
or_raise (some a) e = ok a

-- A chain that ends well has a value from its first step.
pub first_value {ℓ κ} :
    {X : Type ℓ} {Y : Type κ} {y : Y} (k : X → Outcome Y) (m : Outcome X)
    → (m >>= k) ≡ ok y
    → (x : X) × (k x ≡ ok y) × (m ≡ ok x)
first_value k (ok x) e = (x, e, refl)
first_value k (raise exc) e = cc

pub ok-injective {ℓ} : {A : Type ℓ} {a b : A} → ok a ≡ ok b → a ≡ b
ok-injective e = cc

-- A chain whose later steps raise, whatever the first step returns, raises.
pub >>=-raises {ℓ κ} :
    {X : Type ℓ} {Y : Type κ} (m : Outcome X) (k : X → Outcome Y)
    → ((x : X) → (e : Exception) × (k x ≡ raise e))
    → (e : Exception) × ((m >>= k) ≡ raise e)
>>=-raises (ok x) k h = h x
>>=-raises (raise e) k h = (e, refl)

-- A chain whose first step returns, and whose later ones do, returns.
pub >>=-returns {ℓ κ} :
    {X : Type ℓ} {Y : Type κ} (m : Outcome X) (k : X → Outcome Y) {x : X}
    → m ≡ ok x
    → ((x : X) → (y : Y) × (k x ≡ ok y))
    → (y : Y) × ((m >>= k) ≡ ok y)
>>=-returns (ok x) k e h = h x
>>=-returns (raise exc) k e h = cc
