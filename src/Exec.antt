-- ===== src/Exec.antt =====
-- Service methods: they read and write the world and may raise. What was written before a raise
-- stays written, unless a transaction rolls it back (src/zero/persistence/connection.py).
use zero_agent_dev_telegram.Common.{◌≡◌, refl, arith, ℕ, suc, Bool, true, false, Option, none, some}
use zero_agent_dev_telegram.Domain.Errors.{Error}
use zero_agent_dev_telegram.Database.{Db, World}

pub data Result {ℓ} (A : Type ℓ) : Type ℓ where
  ok : A → Result A
  err : Error → Result A

abbrev pub Exec : Type 0 → Type 0
Exec A = World → Result A × World

module _ {A : Type 0} where
  abbrev pub pure : A → Exec A
  pure a w = (ok a, w)

  abbrev pub raise : Error → Exec A
  raise e w = (err e, w)

  abbrev pub or_raise : Error → Option A → Exec A
  or_raise e none w = (err e, w)
  or_raise e (some a) w = (ok a, w)

module _ {A B : Type 0} where
  abbrev pub continue : (A → Exec B) → Result A × World → Result B × World
  continue f (ok a, w) = f a w
  continue f (err e, w) = (err e, w)

  infixl 10 ◌>>=◌ ◌>>◌
  abbrev pub ◌>>=◌ : Exec A → (A → Exec B) → Exec B
  ◌>>=◌ m f w = continue f (m w)

  abbrev pub ◌>>◌ : Exec A → Exec B → Exec B
  ◌>>◌ m n w = continue (λ _. n) (m w)

abbrev pub guard : Bool → Error → Exec Unit
guard true e w = (ok tt, w)
guard false e w = (err e, w)

-- A read of the tables, and a write that cannot fail.
abbrev pub query {ℓ} : {A : Type ℓ} → (Db → A) → World → Result A × World
query f w = (ok (f w.db), w)

abbrev pub write : (Db → Db) → Exec Unit
write f w = (ok tt, record w { db = f w.db })

-- `secrets.token_urlsafe` behind a prefix: a value that was not drawn before.
unfoldable pub generate_token : Exec ℕ
generate_token w = (ok w.next_token, record w { next_token = suc w.next_token })

module _ {A : Type 0} where
  abbrev settle : Db → Result A × World → Result A × World
  settle before (ok a, w) = (ok a, w)
  settle before (err e, w) = (err e, record w { db = before })

  -- BEGIN IMMEDIATE … COMMIT, with ROLLBACK on any exception.
  unfoldable pub transaction : Exec A → Exec A
  transaction m w = settle w.db (m w)

-- A sequence that returns did so in both of its parts.
module _ {A B : Type 0} where
  pub >>=-eq-ok :
      (m : Exec A) (f : A → Exec B) (w w' : World) {b : B}
      → (m >>= f) w ≡ (ok b, w')
      → (a : A) × (v : World) × (m w ≡ (ok a, v)) × (f a v ≡ (ok b, w'))
  >>=-eq-ok m f w w' {b} e = continued (m w) refl e
    where
      continued :
          (x : Result A × World)
          → m w ≡ x
          → continue f x ≡ (ok b, w')
          → (a : A) × (v : World) × (m w ≡ (ok a, v)) × (f a v ≡ (ok b, w'))
      continued (ok a, v) here e' = (a, v, here, e')
      continued (err x, v) here e' = absurd (ground arith)

-- `datetime.now(UTC)`.
abbrev pub read_clock : Exec ℕ
read_clock w = (ok w.now, w)

module _ {A : Type 0} where
  -- A transaction that returns did what its body did.
  pub transaction-eq-ok :
      (m : Exec A) (w w' : World) {a : A} → transaction m w ≡ (ok a, w') → m w ≡ (ok a, w')
  unfolding transaction
  transaction-eq-ok m w w' {a} e = settled (m w) e
    where
      settled : (x : Result A × World) → settle w.db x ≡ (ok a, w') → x ≡ (ok a, w')
      settled (ok b, v) here = here
      settled (err b, v) here = absurd (ground arith)

  -- A guard that is passed.
  pub guard-eq-ok :
      (b : Bool) (e : Error) (m : Exec A) (w w' : World) {a : A}
      → (guard b e >> m) w ≡ (ok a, w')
      → (b ≡ true) × (m w ≡ (ok a, w'))
  guard-eq-ok true e m w w' h = (refl, h)
  guard-eq-ok false e m w w' h = absurd (ground arith)
