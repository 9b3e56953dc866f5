-- ===== src/Memory.antt =====
-- The free store that the experiments allocate from: objects at addresses, `new` and `delete`.
-- A fault (a delete or an access through a pointer to no live object) is `none`.
pub mod Laws
use market_data_pipeline.Base.{
  ℕ, suc, ◌+◌, Bool, true, false, Option, none, some, ◌==◌, if◌then◌else◌,
}

abbrev pub Ptr : Type 0
Ptr = ℕ

abbrev pub null : Ptr
null = 0

-- Addresses from `next` on were never handed out.
pub record Memory {ℓ} (A : Type ℓ) : Type ℓ where
  pub object : Ptr → Option A
  pub next : Ptr

infixl 5 ◌>>=◌
abbrev pub ◌>>=◌ {ℓ κ} : {A : Type ℓ} {B : Type κ} → Option A → (A → Option B) → Option B
none >>= f = none
some a >>= f = f a

abbrev pub update {ℓ} : {A : Type ℓ} → (ℕ → A) → ℕ → A → ℕ → A
update f i a j = if j == i then a else f j

module _ {ℓ} {A : Type ℓ} where
  abbrev pub empty_memory : Memory A
  empty_memory = record { object = λ _. none; next = 1 }

  -- `new A(a)`
  unfoldable pub allocate : A → Memory A → Ptr × Memory A
  allocate a m = (m.next, record { object = update m.object m.next (some a); next = m.next + 1 })

  -- `delete p`: nothing for a null pointer, a fault for one to no live object.
  unfoldable pub free : Ptr → Memory A → Option (Memory A)
  free p m = if p == null then some m else elim (m.object p) [
    | none ↦ none
    | some _ ↦ some (record m { object = update m.object p none })
  ]

  -- `*p` and `*p = a`
  unfoldable pub load : Ptr → Memory A → Option A
  load p m = if p == null then none else m.object p

  unfoldable pub assign : Ptr → A → Memory A → Option (Memory A)
  assign p a m = if p == null then none else elim (m.object p) [
    | none ↦ none
    | some _ ↦ some (record m { object = update m.object p (some a) })
  ]
