-- ===== src/Store/Rows.antt =====
-- The tables of internal/store/migrations and the rows of store.go. A table is the list of its rows,
-- the newest first. `faults` is what the database does to the next statements: `true` is an error,
-- after the list every statement succeeds; a statement that fails changes no table.
use logfort.Prelude.{
  ◌≡◌, refl, ◌⊎◌, inl, inr, ℕ, String, Bool, false, Option, none, some, List, [], ◌∷◌, ◌==◌, eqb,
  if◌then◌else◌, ℤ,
}

pub data StoreError : Type 0 where
  db_error duplicate : StoreError

-- The columns of `events`; NULL is `none`.
pub record EventRow : Type 0 where
  pub id : ℕ
  pub ts : ℕ
  pub ip : String
  pub event_type : String
  pub username : Option String
  pub user_valid : Option Bool
  pub auth_method : Option String
  pub port : Option ℕ
  pub source : String
  pub country : Option String
  pub city : Option String
  pub lat : Option ℤ
  pub lon : Option ℤ
  pub asn : Option String
  pub detail : Option String
  pub threat : Option String
  pub raw : Option String

-- The columns of `bans`; `expires_at` is NULL for a permanent ban.
pub record BanRow : Type 0 where
  pub id : ℕ
  pub ip : String
  pub jail : Option String
  pub banned_at : ℕ
  pub unbanned_at : Option ℕ
  pub expires_at : Option ℕ
  pub active : Bool
  pub source : String
  pub reason : Option String

pub record SqliteStore : Type 0 where
  pub events : List EventRow
  pub bans : List BanRow
  pub settings : List (String × String)
  pub faults : List Bool

abbrev pub fails : List Bool → Bool
fails [] = false
fails (f ∷ fs) = f

abbrev pub later : List Bool → List Bool
later [] = []
later (f ∷ fs) = fs

-- The store after one statement was run, before its effect.
abbrev pub spend : SqliteStore → SqliteStore
spend s = record s { faults = later s.faults }

pub data Result {ℓ} (A : Type ℓ) : Type ℓ where
  ok : A → Result A
  err : StoreError → Result A

-- A query: the error of its statement, or the rows.
abbrev pub query {ℓ} : {A : Type ℓ} → (SqliteStore → A) → SqliteStore → Result A × SqliteStore
query f s = (if fails s.faults then err db_error else ok (f s), spend s)

-- A statement that writes.
abbrev pub statement : (SqliteStore → SqliteStore) → SqliteStore → Option StoreError × SqliteStore
statement f s = if fails s.faults then (some db_error, spend s) else (none, f (spend s))

abbrev pub null_str : String → Option String
null_str s = if s == "" then none else some s

abbrev pub null_int : ℕ → Option ℕ
null_int v = if eqb v 0 then none else some v

pub Result-cases {ℓ} :
    {A : Type ℓ} (r : Result A) → ((a : A) × (r ≡ ok a)) ⊎ ((e : StoreError) × (r ≡ err e))
Result-cases (ok a) = inl (a, refl)
Result-cases (err e) = inr (e, refl)
