-- ===== src/Tenant.antt =====
-- The tenant state of src/db.rs that role and policy administration reads and writes: the tables of
-- roles, users, memberships and policies (src/role.rs, src/user.rs, src/policy.rs) and the policy
-- cache in memory. A table is the list of its rows; a query answers from it and does not fail.
use janux.Common.{
  Bool, List, Option, Text, [], any, false, find, if◌then◌else◌, inl, inr, none, refl, retain, some,
  text_eq, true, ℤ, ◌++◌, ◌↔◌, ◌∷◌, ◌≡◌, ◌⊎◌,
}
use janux.Policy.{Policy, JwtData}
use janux.Engine.{PolicyCache}

pub record Role : Type 0 where
  pub id : Text
  pub level : ℤ
  pub builtin : Bool

pub record User : Type 0 where
  pub id : Text
  pub name : Text
  pub active : Bool

pub record UserRole : Type 0 where
  pub user_id : Text
  pub role_id : Text

pub record Tenant : Type 0 where
  pub roles : List Role
  pub users : List User
  pub user_roles : List UserRole
  pub policy_rows : List Policy
  pub policies : PolicyCache

-- The principal of an administration call.
pub data Caller : Type 0 where
  bootstrap : Caller
  jwt : JwtData → Caller

pub data Error : Type 0 where
  forbidden conflict not_found negative_level duplicate invalid_name database_failed : Error

pub data Result {ℓ} (A : Type ℓ) : Type ℓ where
  ok : A → Result A
  err : Error → Result A

infixl 5 ◌>>=◌
abbrev pub ◌>>=◌ {ℓ κ} : {A : Type ℓ} {B : Type κ} → Result A → (A → Result B) → Result B
err refusal >>= next = err refusal
ok value >>= next = next value

-- A check whose result is nothing but its success.
infixl 5 ◌>>◌
abbrev pub ◌>>◌ {κ} : {B : Type κ} → Result (Unit {0}) → Result B → Result B
err refusal >> next = err refusal
ok _ >> next = next

abbrev pub or_err {ℓ} : {A : Type ℓ} → Option A → Error → Result A
or_err none e = err e
or_err (some a) e = ok a

-- `Role::get_by_id`
unfoldable pub role : Tenant → Text → Result Role
role t name = or_err (find (λ r. text_eq r.id name) t.roles) not_found

-- The insert of a role: its name is the table's primary key.
unfoldable pub insert_role : Tenant → Role → Result (Tenant × Role)
insert_role t r =
    if any (λ q. text_eq q.id r.id) t.roles
    then err duplicate
    else ok (record t { roles = r ∷ t.roles }, r)

-- `user_roles`: the roles that the user's memberships name.
unfoldable pub roles_of_user : List UserRole → List Role → Text → List Role
roles_of_user [] roles user = []
roles_of_user (m ∷ ms) roles user =
    let rest = roles_of_user ms roles user in
    if text_eq m.user_id user then retain (λ r. text_eq r.id m.role_id) roles ++ rest else rest

-- What a chain of calls that succeeds has gone through.
pub >>=-eq-ok {ℓ κ} :
    {A : Type ℓ} {B : Type κ} {done : B} (x : Result A) (next : A → Result B)
    → (x >>= next) ≡ ok done
    → (value : A) × (x ≡ ok value) × (next value ≡ ok done)
>>=-eq-ok (err refusal) next e = cc
>>=-eq-ok (ok value) next e = (value, refl, e)

pub ok-injective {ℓ} : {A : Type ℓ} {a b : A} → ◌≡◌ {A = Result A} (ok a) (ok b) → a ≡ b
ok-injective h = cc

pub or_refused_iff {ℓ} :
    {A : Type ℓ} (b : Bool) (e : Error) (x : Result A) (a : A)
    → (if◌then◌else◌ {A = Result A} b (err e) x ≡ ok a) ↔ ((b ≡ false) × (x ≡ ok a))
or_refused_iff true e x a = (λ h. cc, λ h. cc (h.0))
or_refused_iff false e x a = (λ h. (refl, h), λ h. h.1)

pub >>_iff {ℓ} :
    {A : Type ℓ} (m : Result (Unit {0})) (x : Result A) (a : A)
    → ((m >> x) ≡ ok a) ↔ ((m ≡ ok tt) × (x ≡ ok a))
>>_iff (ok _) x a = (λ h. (refl, h), λ h. h.1)
>>_iff (err e) x a = (λ h. cc, λ h. cc (h.0))

-- The same for a lookup, a gate on what it found, and the rest.
pub guarded {ℓ κ} :
    {A : Type ℓ} {B : Type κ} {done : B} (x : Result A) (gate : A → Result (Unit {0}))
    (next : A → Result B)
    → (x >>= λ value. gate value >> next value) ≡ ok done
    → (value : A) × (x ≡ ok value) × (gate value ≡ ok tt) × (next value ≡ ok done)
guarded {done = done} x gate next e =
    let (value, found, rest) = >>=-eq-ok x (λ value. gate value >> next value) e in
    let (passed, last) = (>>_iff (gate value) (next value) done).0 rest in
    (value, found, passed, last)

pub Result-cases {ℓ} :
    {A : Type ℓ} (x : Result A) → ((a : A) × (x ≡ ok a)) ⊎ ((e : Error) × (x ≡ err e))
Result-cases (ok a) = inl (a, refl)
Result-cases (err e) = inr (e, refl)
