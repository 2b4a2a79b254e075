-- ===== src/Hash.antt =====
-- container/VTHashBase.h and container/THashElement.h: elements, the table and its accessors.
-- One thread uses the table, so the lock guards let it pass; what it would wait for is written
-- out. The array is a function of the index, and `hash_size` is its length.
pub mod Method
pub mod Stepping
pub mod Open
pub mod Chain
pub mod Public
use pwxlib.Base.{
  ℕ, ◌≡◌, ◌↔◌, Bool, true, false, not, ◌&&◌, ◌||◌, List, [], ◌∷◌, Option, none, some, ◌==◌,
  if◌then◌else◌, u32_mod,
}

-- A key type with its `==` and with the hash that `protGetHash` gives for it.
pub record Key (K : Type 0) : Type 0 where
  pub equal : K → K → Bool
  pub equal_iff : (a b : K) → (equal a b ≡ true) ↔ (a ≡ b)
  pub hash : K → ℕ

-- `val` is the address of the data; `linked` says that `isRemoved` is false.
pub record Elem (K V : Type 0) : Type 0 where
  pub key : K
  pub val : V
  pub hops : ℕ
  pub linked : Bool

-- What an array place points to: the `vacated` sentry, or a chain of elements (none: `nullptr`).
pub data Slot (K V : Type 0) : Type 0 where
  vacated : Slot K V
  chain : List (Elem K V) → Slot K V

pub data HashMethod : Type 0 where
  division multiplication : HashMethod

-- `deleted` logs the elements given to `delete`, latest first.
pub record Table (K V : Type 0) : Type 0 where
  pub slots : ℕ → Slot K V
  pub hash_size : ℕ
  pub e_count : ℕ
  pub method : HashMethod
  pub is_destroyed : Bool
  pub clearing : ℕ
  pub growing : ℕ
  pub inserting : ℕ
  pub removing : ℕ
  pub deleted : List (Elem K V)

module _ {K V : Type 0} where
  abbrev pub null : Slot K V
  null = chain []

  unfoldable pub put : ℕ → Slot K V → Table K V → Table K V
  put i x t = record t { slots = λ j. if j == i then x else t.slots j }

  abbrev pub is_null : Slot K V → Bool
  is_null (chain []) = true
  is_null _ = false

  abbrev pub is_vacated : Slot K V → Bool
  is_vacated vacated = true
  is_vacated _ = false

  unfoldable pub prot_is_empty : Table K V → ℕ → Bool
  prot_is_empty t i = not t.is_destroyed && is_null (t.slots i)

  unfoldable pub prot_is_vacated : Table K V → ℕ → Bool
  prot_is_vacated t i = not t.is_destroyed && is_vacated (t.slots i)

  unfoldable pub prot_is_unused : Table K V → ℕ → Bool
  prot_is_unused t i = not t.is_destroyed && (is_null (t.slots i) || is_vacated (t.slots i))

  abbrev pub elems : Slot K V → List (Elem K V)
  elems vacated = []
  elems (chain es) = es

  -- The chain at a place, none for `nullptr` and for the sentry.
  unfoldable pub table_get : Table K V → ℕ → List (Elem K V)
  table_get t i = if t.is_destroyed then [] else elems (t.slots i)

  unfoldable pub table_set : Table K V → ℕ → List (Elem K V) → Table K V
  unfolding put
  table_set t i es = if t.is_destroyed then t else put i (chain es) t

  unfoldable pub table_vacate : Table K V → ℕ → Table K V
  unfolding put
  table_vacate t i = if t.is_destroyed then t else put i vacated t

module _ {K V : Type 0} ⦃key : Key K⦄ where
  abbrev pub head_has : K → List (Elem K V) → Bool
  head_has k [] = false
  head_has k (e ∷ es) = key.equal e.key k

  unfoldable pub table_key_equals : Table K V → ℕ → K → Bool
  table_key_equals t i k = not t.is_destroyed && head_has k (elems (t.slots i))
