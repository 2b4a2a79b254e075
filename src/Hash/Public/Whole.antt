-- ===== src/Hash/Public/Whole.antt =====
-- The parts of container/VTHashBase.h that work on a whole table: constructors, destructor,
-- operators, and the queries for the size.
use pwxlib.Base.{
  true, ℕ, zero, suc, ◌+◌, Bool, false, List, [], ◌∷◌, Option, some, ◌==◌, ltb, if◌then◌else◌, ◌⊎◌,
  inl, inr,
}
use pwxlib.Hash.{Elem, Table, division, null, prot_is_unused, table_get, elems}
use pwxlib.Hash.Open.{◌>>=◌}
use pwxlib.Hash.Public.{
  Methods, Growth, Thrown, busy, wait_while, wait_for_clear_and_grow, prot_delete, clear, grow, add,
  rem_key,
}

module _ {K V : Type 0} where
  unfoldable pub size : Table K V → Option ℕ
  size t = do t' ← wait_for_clear_and_grow t; some t'.e_count

  unfoldable pub size_max : Table K V → Option ℕ
  size_max t = do t' ← wait_for_clear_and_grow t; some t'.hash_size

  unfoldable pub empty : Table K V → Option Bool
  empty t = do t' ← wait_for_clear_and_grow t; some (t'.e_count == 0)

  -- The constructors: the deleter and the hash functions that they take are parameters here.
  unfoldable pub new_table : ℕ → Table K V
  new_table places = record {
    slots = λ j. null;
    hash_size = places;
    e_count = 0;
    method = division;
    is_destroyed = false;
    clearing = 0;
    growing = 0;
    inserting = 0;
    removing = 0;
    deleted = [];
  }

  -- The constructors that take no size.
  abbrev pub default_table : Table K V
  default_table = new_table 100

  -- The copy constructor takes the size, and none of the elements.
  unfoldable pub copy_table : Table K V → Option (Table K V)
  unfolding new_table
  copy_table src = do src' ← wait_while (busy src.growing) src; some (new_table src'.hash_size)

  -- The destructor, with no thread waiting.
  unfoldable pub destroy_table : ℕ → Table K V → Option (Table K V)
  destroy_table fuel t = do
    t' ← clear fuel (record t { is_destroyed = true })
    some (record t' { slots = λ j. null; hash_size = 0 })

module _ {K V : Type 0} (methods : Methods K V) where
  -- `add( src )` stores a copy with the source's key and data.
  unfoldable pub add_elem : Growth → ℕ → Table K V → Elem K V → Option (ℕ × Table K V)
  add_elem g fuel t src = add methods g fuel t src.key src.val

  unfoldable pub merge_chain : Growth → ℕ → List (Elem K V) → Table K V → Option (Table K V)
  merge_chain g fuel [] t = some t
  merge_chain g fuel (e ∷ es) t = do (n, t') ← add_elem g fuel t e; merge_chain g fuel es t'

  -- `left` places of `rhs` from `pos` on.
  unfoldable pub merge_places : Growth → ℕ → Table K V → ℕ → ℕ → Table K V → Option (Table K V)
  merge_places g fuel rhs zero pos t = some t
  merge_places g fuel rhs (suc left) pos t = do
    t' ← (if prot_is_unused rhs pos then some t else merge_chain g fuel (table_get rhs pos) t)
    merge_places g fuel rhs left (pos + 1) t'

  -- `operator+=` on another table; on itself it does nothing.
  unfoldable pub add_assign : Growth → ℕ → Table K V → Table K V → Option (Table K V)
  add_assign g fuel t rhs = do
    t₁ ← wait_for_clear_and_grow t
    rhs_size ← size_max rhs
    lhs_size ← size_max t₁
    t₂ ← (if ltb lhs_size rhs_size then grow methods fuel rhs_size t₁ else some t₁)
    merge_places g fuel rhs rhs_size 0 t₂

  -- What `protDelete` throws ends the operator.
  unfoldable pub drop_chain : List (Elem K V) → Table K V → Option ((Thrown ⊎ ℕ) × Table K V)
  drop_chain [] t = some (inr t.e_count, t)
  drop_chain (e ∷ es) t = do
    (o, t') ← rem_key methods t e.key
    elim (prot_delete o t').0 [
      | inl x ↦ some (inl x, (prot_delete o t').1)
      | inr n ↦ drop_chain es (prot_delete o t').1
    ]

  unfoldable pub drop_places : Table K V → ℕ → ℕ → Table K V → Option ((Thrown ⊎ ℕ) × Table K V)
  drop_places rhs zero pos t = some (inr t.e_count, t)
  drop_places rhs (suc left) pos t = do
    (r, t') ← drop_chain (elems (rhs.slots pos)) t
    elim r [ inl x ↦ some (inl x, t') | inr n ↦ drop_places rhs left (pos + 1) t' ]

  -- `operator-=` on another table; on itself it is `clear`.
  unfoldable pub sub_assign : Table K V → Table K V → Option ((Thrown ⊎ ℕ) × Table K V)
  sub_assign t rhs = do
    t₁ ← wait_for_clear_and_grow t
    rhs_size ← size_max rhs
    drop_places rhs rhs_size 0 t₁

  -- `operator=` on another table. `fuel` is for the loops of `clear` and of the hash method.
  unfoldable pub assign : Growth → ℕ → Table K V → Table K V → Option (Table K V)
  assign g fuel t rhs = do
    t₁ ← wait_for_clear_and_grow t
    t₂ ← clear fuel t₁
    target ← size_max rhs
    old_size ← size_max t₂
    t₃ ←
        (if ltb old_size target
          then (do t' ← grow methods fuel target t₂; grow methods fuel t'.hash_size t')
          else some t₂)
    add_assign g fuel t₃ rhs
