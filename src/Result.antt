-- ===== src/Result.antt =====
-- What a Go function with an error result does: it returns a value, returns an error, or panics.
use vada_db.Common.{Bool, true, false, ◌≡◌, refl, ap, sym, ◌∙◌}
use mathlib.Core.Path.{subst}

-- The errors, one constructor for each `fmt.Errorf` or `errors.New`; the texts are left out.
pub data Error : Type 0 where
  too_few_sources too_few_buckets no_capacity : Error
  source_out_of_range index_out_of_range is_full is_empty : Error
  survivor_count invalid_survivor survivor_length length_exceeds_fusion : Error
  too_few_shards shard_unavailable failure_active shard_out_of_range : Error
  not_failed wrong_shard io_failed : Error
  invalid_operation invalid_header : Error
  checkpoint_mismatch duplicate_sequence log_mismatch no_source_record : Error
  invalid_length duplicate_key invalid_checkpoint no_directory : Error

pub data Result {ℓ} (A : Type ℓ) : Type ℓ where
  ok : A → Result A
  err : Error → Result A
  panic : Result A

infixl 5 ◌>>=◌ ◌>>◌
abbrev pub ◌>>=◌ {ℓ κ} : {A : Type ℓ} {B : Type κ} → Result A → (A → Result B) → Result B
ok a >>= f = f a
err e >>= f = err e
panic >>= f = panic

abbrev pub ◌>>◌ {ℓ} : {B : Type ℓ} → Result (Unit {0}) → Result B → Result B
m >> k = m >>= λ _. k

-- `if b { return e }`
abbrev pub fail_if : Bool → Error → Result (Unit {0})
fail_if true e = err e
fail_if false e = ok tt

-- A call that returned: the value, and that it is the result.
abbrev pub Returns {ℓ κ} : {A : Type ℓ} → Result A → (A → Type κ) → Type (ℓ ⊔ κ)
Returns {A} m P = (a : A) × (m ≡ ok a) × P a

pub bind-ok {ℓ} : {A : Type ℓ} (m : Result A) → (m >>= λ a. ok a) ≡ m
bind-ok (ok a) = refl
bind-ok (err e) = refl
bind-ok panic = refl

pub bind_assoc {ℓ κ μ} :
    {A : Type ℓ} {B : Type κ} {C : Type μ} (m : Result A) (f : A → Result B) (g : B → Result C)
    → (m >>= f >>= g) ≡ (m >>= λ a. f a >>= g)
bind_assoc (ok a) f g = refl
bind_assoc (err e) f g = refl
bind_assoc panic f g = refl

abbrev value_or {ℓ} : {A : Type ℓ} → A → Result A → A
value_or a (ok b) = b
value_or a (err e) = a
value_or a panic = a

-- A call that computes to a result returned that result.
pub Returns-value {ℓ κ} :
    {A : Type ℓ} {P : A → Type κ} {m : Result A} {a : A} → Returns m P → m ≡ ok a → P a
Returns-value {P = P} {a = a} (b, run, p) e = subst P (ap (λ r. value_or b r) (sym run ∙ e)) p
