-- ===== src/Hash/Public.antt =====
-- container/VTHashBase.h: the public methods, over the virtual ones that a derived hash gives. One
-- thread calls them; where it would wait for ever, and where a loop runs out of fuel, the result
-- is `none`.
pub mod Clear
pub mod Whole
pub mod Laws
pub mod Chained
pub mod Pop
use pwxlib.Base.{
  ℕ, zero, suc, ◌+◌, ◌-◌, ◌%◌, ◌≡◌, ◌⊎◌, inl, inr, Bool, true, false, not, ◌&&◌, ◌||◌, List, [],
  ◌∷◌, ◌++◌, Option, none, some, ◌==◌, ltb, leb, if◌then◌else◌, u32_mod, succ_u32, pred_u32, length,
}
use pwxlib.Hash.{Key, Elem, Slot, chain, vacated, Table, HashMethod, table_get, null, elems}
use pwxlib.Hash.Method.{priv_set_hash_method}
use pwxlib.Hash.Open.{◌>>=◌, unlinked}

-- The pure virtual methods.
pub record Methods (K V : Type 0) : Type 0 where
  pub priv_get : Table K V → K → Option (Option (Elem K V))
  pub priv_insert : Table K V → Elem K V → Option (Table K V)
  pub priv_remove_idx : Table K V → ℕ → Option (Elem K V) × Table K V
  pub priv_remove_key : Table K V → K → Option (Option (Elem K V) × Table K V)

-- `maxLoadFactor` and `dynGrowFactor` are doubles: the test on the load, and the size to grow to.
pub record Growth : Type 0 where
  pub too_full : ℕ → ℕ → Bool
  pub grown : ℕ → ℕ

pub data Thrown : Type 0 where
  illegal_delete : Thrown

abbrev pub busy : ℕ → Bool
busy n = not (n == 0)

-- `if ( ++pos >= tabSize ) pos = 0;`
abbrev pub wrap_pos : ℕ → ℕ → ℕ
wrap_pos size pos = if leb size (pos + 1) then 0 else pos + 1

module _ {K V : Type 0} where
  -- A loop on a flag that no other thread changes.
  abbrev pub wait_while : Bool → Table K V → Option (Table K V)
  wait_while b t = if b then none else some t

  unfoldable pub wait_for_clear_and_grow : Table K V → Option (Table K V)
  wait_for_clear_and_grow t = wait_while (busy t.growing || busy t.clearing) t

  unfoldable pub start_insert : Table K V → Option (Table K V)
  unfolding wait_for_clear_and_grow
  start_insert t = do
    t' ← wait_for_clear_and_grow t
    some (record t' { inserting = succ_u32 t'.inserting })

  abbrev pub stop_insert : Table K V → Table K V
  stop_insert t = record t { inserting = pred_u32 t.inserting }

  -- Not the `return 0` of a destroyed hash, which stands where the macro is used.
  unfoldable pub start_remove : Table K V → Option (Table K V)
  unfolding wait_for_clear_and_grow
  start_remove t = do
    t' ← wait_for_clear_and_grow t
    some (record t' { removing = succ_u32 t'.removing })

  abbrev pub stop_remove : Table K V → Table K V
  stop_remove t = record t { removing = pred_u32 t.removing }

  unfoldable pub start_grow : Table K V → Option (Table K V)
  start_grow t =
      wait_while (busy t.removing || busy t.inserting || busy t.clearing)
        (record t { growing = succ_u32 t.growing })

  abbrev pub stop_grow : Table K V → Table K V
  stop_grow t = record t { growing = pred_u32 t.growing }

  unfoldable pub start_clear : Table K V → Option (Table K V)
  start_clear t = do
    t' ← wait_while (busy t.removing || busy t.growing || busy t.inserting) t
    some (record t' { clearing = succ_u32 t'.clearing })

  abbrev pub stop_clear : Table K V → Table K V
  stop_clear t = record t { clearing = pred_u32 t.clearing }

  -- `delete` on an element.
  abbrev pub delete_elem : Elem K V → Table K V → Table K V
  delete_elem e t = record t { deleted = e ∷ t.deleted }

  unfoldable pub prot_delete : Option (Elem K V) → Table K V → (Thrown ⊎ ℕ) × Table K V
  prot_delete none t = (inr t.e_count, t)
  prot_delete (some e) t =
      if e.linked then (inl illegal_delete, t) else (inr t.e_count, delete_elem e t)

  -- `--eCount; delete delNext;` for what stands behind the first element of a chain.
  abbrev pub delete_chain : List (Elem K V) → Table K V → Table K V
  delete_chain [] t = t
  delete_chain (e ∷ es) t =
      delete_chain es (delete_elem (unlinked e) (record t { e_count = pred_u32 t.e_count }))

  -- What `clear` does with the chain at one place.
  abbrev pub clear_chain : ℕ → List (Elem K V) → Table K V → Table K V
  clear_chain pos [] t = t
  clear_chain pos (e ∷ es) t =
      let t' = delete_chain es (record t { slots = λ j. if j == pos then null else t.slots j }) in
      delete_elem e (record t' { e_count = pred_u32 t'.e_count })

  abbrev pub clear_place : ℕ → Table K V → Table K V
  clear_place pos t = clear_chain pos (elems (t.slots pos)) t

  unfoldable pub clear_loop : ℕ → ℕ → ℕ → Table K V → Option (Table K V)
  clear_loop zero size pos t = if t.e_count == 0 then some t else none
  clear_loop (suc fuel) size pos t =
      let rest = clear_loop fuel size (wrap_pos size pos) (clear_place pos t) in
      if t.e_count == 0 then some t else rest

  unfoldable pub clear : ℕ → Table K V → Option (Table K V)
  clear fuel t = do
    t₀ ← wait_for_clear_and_grow t
    t' ← start_clear t₀
    t'' ← clear_loop fuel t₀.hash_size 0 t'
    some (stop_clear t'')

  -- The place of `operator[]`, for an index that is not negative, and for `- n`.
  unfoldable pub get_by_index : Table K V → ℕ → List (Elem K V)
  get_by_index t n = table_get t (n % t.hash_size)

  unfoldable pub get_by_negative_index : Table K V → ℕ → List (Elem K V)
  get_by_negative_index t n =
      let i = t.hash_size - n % t.hash_size in
      table_get t (if leb t.hash_size i then i % t.hash_size else i)

module _ {K V : Type 0} (methods : Methods K V) where
  open methods use {priv_get, priv_insert, priv_remove_idx, priv_remove_key}

  unfoldable pub get : Table K V → K → Option (Option (Elem K V))
  get t k = do t' ← wait_for_clear_and_grow t; priv_get t' k

  unfoldable pub exists : Table K V → K → Option Bool
  exists t k = do
    t' ← wait_for_clear_and_grow t
    o ← priv_get t' k
    some (elim o [ none ↦ false | some e ↦ true ])

  unfoldable pub get_hops : Table K V → K → Option ℕ
  get_hops t k = do
    t' ← wait_for_clear_and_grow t
    o ← priv_get t' k
    some (elim o [ none ↦ 0 | some e ↦ e.hops ])

  -- `remElem` passes the key of its element on.
  unfoldable pub rem_key : Table K V → K → Option (Option (Elem K V) × Table K V)
  rem_key t k =
      if t.is_destroyed
      then some (none, t)
      else (do t' ← start_remove t; (o, t'') ← priv_remove_key t' k; some (o, stop_remove t''))

  -- What is thrown leaves the method before `HASH_STOP_REMOVE`. `delElem` passes its key on.
  unfoldable pub del_key : Table K V → K → Option ((Thrown ⊎ ℕ) × Table K V)
  del_key t k = if t.is_destroyed then some (inr 0, t) else (do
    t' ← start_remove t
    (o, t'') ← priv_remove_key t' k
    some (elim (prot_delete o t'').0 [
      | inl x ↦ (inl x, (prot_delete o t'').1)
      | inr n ↦ (inr n, stop_remove (prot_delete o t'').1)
    ]))

  abbrev pub head_inserted : List (Elem K V) → Bool
  head_inserted [] = false
  head_inserted (e ∷ es) = e.linked

  -- The loop of `pop_back`; the return inside it passes over `HASH_STOP_REMOVE`.
  unfoldable pub pop_back_loop : ℕ → Table K V → Option (Elem K V) × Table K V
  pop_back_loop zero t = (none, stop_remove t)
  pop_back_loop (suc pos) t =
      let rest = pop_back_loop pos t in
      if head_inserted (table_get t pos) then priv_remove_idx t pos else rest

  unfoldable pub pop_back : Table K V → Option (Option (Elem K V) × Table K V)
  pop_back t =
      if t.e_count == 0
      then some (none, t)
      else if t.is_destroyed
      then some (none, t)
      else (do t' ← start_remove t; some (pop_back_loop t'.hash_size t'))

  -- `left` places from `pos` on. The index that is removed is the one behind the element seen.
  unfoldable pub pop_front_loop : ℕ → ℕ → Table K V → Option (Elem K V) × Table K V
  pop_front_loop zero pos t = (none, stop_remove t)
  pop_front_loop (suc left) pos t =
      let rest = pop_front_loop left (pos + 1) t in
      if head_inserted (table_get t pos) then priv_remove_idx t (pos + 1) else rest

  unfoldable pub pop_front : Table K V → Option (Option (Elem K V) × Table K V)
  pop_front t =
      if t.e_count == 0
      then some (none, t)
      else if t.is_destroyed
      then some (none, t)
      else (do t' ← start_remove t; some (pop_front_loop t'.hash_size 0 t'))

  -- `privAdd( key, data )`.
  abbrev pub new_elem : K → V → Elem K V
  new_elem k v = record { key = k; val = v; hops = 0; linked = false }

  unfoldable pub priv_add : Table K V → K → V → Option (Table K V)
  priv_add t k v = priv_insert t (new_elem k v)

  -- One chain of the old table: each element is added anew and then deleted.
  unfoldable pub move_chain : List (Elem K V) → Table K V → Option (Table K V)
  move_chain [] t = some t
  move_chain (e ∷ es) t = do t' ← priv_add t e.key e.val; move_chain es (delete_elem e t')

  -- The places of the old table, `left` of them from `pos` on.
  unfoldable pub move_places : (ℕ → Slot K V) → ℕ → ℕ → Table K V → Option (Table K V)
  move_places old zero pos t = some t
  move_places old (suc left) pos t = do
    t' ← move_chain (elems (old pos)) t
    move_places old left (pos + 1) t'

  -- `fuel` is for `privSetHashMethod`. A destroyed hash would leave the new array unset.
  unfoldable pub grow : ℕ → ℕ → Table K V → Option (Table K V)
  grow fuel target t =
      if leb target t.hash_size then some t else if t.is_destroyed then none else (do
        t' ← start_grow t
        m ← priv_set_hash_method fuel target
        let fresh = record t' { slots = λ j. null; hash_size = target; e_count = 0; method = m }
        t'' ← move_places t'.slots t'.hash_size 0 fresh
        some (stop_grow t''))

  -- `add( key, data )`; the result is `size()`.
  unfoldable pub add : Growth → ℕ → Table K V → K → V → Option (ℕ × Table K V)
  add g fuel t k v = do
    o ← priv_get t k
    elim o [
      | some e ↦ some (t.e_count, t)
      | none ↦ do
        t₁ ← start_insert t
        o₁ ← priv_get t₁ k
        elim o₁ [
          | some e ↦ some (t₁.e_count, stop_insert t₁)
          | none ↦ do
            t₂ ← priv_add t₁ k v
            let t₃ = stop_insert t₂
            t₄ ←
                (if g.too_full t₃.e_count t₃.hash_size
                  then grow fuel (g.grown t₃.hash_size) t₃
                  else some t₃)
            some (t₄.e_count, t₄)
        ]
    ]
