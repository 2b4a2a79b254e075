-- ===== src/ElementStore.antt =====
-- container/CThreadElementStore.{h,cpp} and container/VElement.{h,cpp}: the current element of each
-- thread, kept in a hash from thread ids to elements, and elements that know the store of the
-- container they are in. An element is its address; 0 is `nullptr`. One call runs at a time.
use pwxlib.Base.{
  ℕ, zero, suc, ◌+◌, ◌*◌, Bool, true, false, not, ◌&&◌, ◌||◌, List, [], ◌∷◌, Option, none, some,
  ◌==◌, if◌then◌else◌, ◌⊎◌, inl, inr,
}
use pwxlib.Hash.{Key, Elem, Table}
use pwxlib.Hash.Stepping.{Hashing}
use pwxlib.Hash.Open.{◌>>=◌, priv_get, priv_insert, priv_remove_idx, priv_remove_key}
use pwxlib.Hash.Public.{
  Methods, Growth, Thrown, get, del_key, add, clear, get_by_index, wait_for_clear_and_grow,
}
use pwxlib.Hash.Public.Whole.{empty, size_max}

pub record ElementStore : Type 0 where
  pub currs : Table ℕ ℕ
  pub one_curr : ℕ
  pub thread_safe : Bool
  pub invalidating : Bool
  pub is_destroyed : Bool

-- What a deletion throws leaves a method that is `noexcept`, which ends the program.
abbrev pub deleted_in : (Thrown ⊎ ℕ) × Table ℕ ℕ → Option (Table ℕ ℕ)
deleted_in (inl x, t) = none
deleted_in (inr n, t) = some t

-- `currs` is a `TOpenHash`, on which an insertion gets the rounds that are enough for it.
abbrev open_methods : ⦃key : Key ℕ⦄ → Hashing → Methods ℕ ℕ
open_methods H = record {
  priv_get = λ t k. priv_get H t k;
  priv_insert = λ t e. priv_insert H (t.hash_size * t.hash_size + 1) t e;
  priv_remove_idx = priv_remove_idx;
  priv_remove_key = λ t k. priv_remove_key H t k;
}

-- The load that `currs` is made with, 0.6667, and its growth are doubles, hence `g`.
module _ ⦃key : Key ℕ⦄ (H : Hashing) (g : Growth) (fuel : ℕ) where
  abbrev m : Methods ℕ ℕ
  m = open_methods H

  unfoldable pub curr : ℕ → ElementStore → Option ℕ
  curr me s =
      if s.thread_safe
      then (do o ← get m s.currs me; some (elim o [ none ↦ 0 | some e ↦ e.val ]))
      else some s.one_curr

  unfoldable pub set_curr : ℕ → ℕ → ElementStore → Option ElementStore
  set_curr me e s =
      if not s.thread_safe
      then some (record s { one_curr = e })
      else if s.is_destroyed || s.currs.is_destroyed
      then some s
      else (do
        r ← del_key m s.currs me
        t ← deleted_in r
        t' ← (if e == 0 then some t else (do (n, t₁) ← add m g fuel t me e; some t₁))
        some (record s { currs = t' }))

  unfoldable pub clear_currs : ElementStore → Option ElementStore
  clear_currs s = do
    none_stored ← empty s.currs
    let idle = none_stored || s.invalidating
    t ← (if idle then some s.currs else clear fuel s.currs)
    some (record s { currs = t })

  unfoldable pub clear_store : ElementStore → Option ElementStore
  clear_store s = if s.thread_safe then clear_currs s else some (record s { one_curr = 0 })

  unfoldable pub disable_thread_safety : ElementStore → ElementStore
  disable_thread_safety s =
      if s.thread_safe then record s { one_curr = 0; thread_safe = false } else s

  unfoldable pub enable_thread_safety : ElementStore → Option ElementStore
  enable_thread_safety s =
      if s.thread_safe
      then some s
      else (do t ← clear fuel s.currs; some (record s { currs = t; thread_safe = true }))

  -- What is done with the element that `currs[i]` gives, the first of its place.
  unfoldable pub invalidate_head : ℕ → List (Elem ℕ ℕ) → Table ℕ ℕ → Option (Table ℕ ℕ)
  invalidate_head old [] t = some t
  invalidate_head old (e ∷ es) t =
      if e.val == old then (do r ← del_key m t e.key; deleted_in r) else some t

  -- `left` places from `i` on.
  unfoldable pub invalidate_places : ℕ → ℕ → ℕ → Table ℕ ℕ → Option (Table ℕ ℕ)
  invalidate_places old zero i t = some t
  invalidate_places old (suc left) i t = do
    t₁ ← wait_for_clear_and_grow t
    t₂ ← invalidate_head old (get_by_index t₁ i) t₁
    invalidate_places old left (i + 1) t₂

  unfoldable pub invalidate_currs : ℕ → ElementStore → Option ElementStore
  invalidate_currs old s = do
    none_stored ← empty s.currs
    n ← size_max s.currs
    let idle = none_stored || s.invalidating
    t ← (if idle then some s.currs else invalidate_places old n 0 s.currs)
    some (record s { currs = t })

  unfoldable pub invalidate : ℕ → ElementStore → Option ElementStore
  invalidate old s =
      if s.thread_safe
      then invalidate_currs old s
      else if not (s.one_curr == 0) && s.one_curr == old
      then some (record s { one_curr = 0 })
      else some s

  -- `VElement`: `curr_store` is null, or a store among those of `Stores`.
  pub record Element : Type 0 where
    pub address : ℕ
    pub e_nr : ℕ
    pub is_removed : Bool
    pub curr_store : ℕ
    pub locking : Bool

  abbrev pub Stores : Type 0
  Stores = ℕ → ElementStore

  abbrev new_element : ℕ → Element
  new_element a = record {
    address = a;
    e_nr = 0;
    is_removed = true;
    curr_store = 0;
    locking = true;
  }

  -- `if ( currStore ) currStore->invalidate( this );`
  unfoldable pub invalidate_in : Element → Stores → Option Stores
  invalidate_in e σ = if e.curr_store == 0 then some σ else (do
    s ← invalidate e.address (σ e.curr_store)
    some (λ p. if p == e.curr_store then s else σ p))

  unfoldable pub insert : ℕ → Element → Stores → Option (Element × Stores)
  insert new_store e σ = do
    σ' ← invalidate_in e σ
    some (record e { is_removed = false; curr_store = new_store }, σ')

  unfoldable pub remove : Element → Stores → Option (Element × Stores)
  remove e σ = do σ' ← invalidate_in e σ; some (record e { is_removed = true }, σ')

  abbrev pub inserted : Element → Bool
  inserted e = not e.is_removed

  -- The number before, and the element with the new one.
  unfoldable pub set_nr : ℕ → Element → ℕ × Element
  set_nr n e = (e.e_nr, record e { e_nr = n })
