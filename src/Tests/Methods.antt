-- ===== src/Tests/Methods.antt =====
-- The theorems on the chained hash and on the public methods, at small tables of numbers.
use pwxlib.Base.{
  ℕ, ◌*◌, ◌≡◌, inr, true, false, [], ◌∷◌, Option, none, some, refl, arith, ◌==◌, if◌then◌else◌,
  pred_u32, succ_u32,
}
use pwxlib.Hash.{Elem, chain, null, Table, division, table_get}
use pwxlib.Hash.Open.{unlinked}
use pwxlib.Hash.Chain.{priv_get_index, priv_get, priv_insert, priv_remove_key}
use pwxlib.Hash.Chain.Map.{IsMap}
use pwxlib.Hash.Chain.Map.{chained}
use pwxlib.Hash.Chain.Effect.{taken_out, lowered, priv_insert-IsMap, priv_remove_key-IsMap}
use pwxlib.Hash.Public.{Growth, add, del_key, clear, pop_back, head_inserted}
use pwxlib.Hash.Public.Laws.{Added, add-look, del_key-look}
use pwxlib.Hash.Public.Chained.{chain_methods, chain_laws, remove_idx-removing}
use pwxlib.Hash.Public.Clear.{Emptied, elems_from, clear_total}
use pwxlib.Hash.Public.Pop.{KeepsRemoving, pop_back_busy}
use pwxlib.Tests.Tables.{number_key, hashing, five}

-- Two places; the second holds the keys 1 and 3.
abbrev pub first : Elem ℕ ℕ
first = record { key = 1; val = 10; hops = 0; linked = true }

abbrev pub second : Elem ℕ ℕ
second = record { key = 3; val = 30; hops = 1; linked = true }

abbrev pub two : Table ℕ ℕ
two = record {
  slots = λ j. if j == 1 then chain (first ∷ second ∷ []) else null;
  hash_size = 2;
  e_count = 2;
  method = division;
  is_destroyed = false;
  clearing = 0;
  growing = 0;
  inserting = 0;
  removing = 0;
  deleted = [];
}

pub two-IsMap : IsMap hashing two
unfolding table_get
two-IsMap = record { live = refl; once = λ i k. ground arith; inserted = λ i k e h. ground arith }

has_one : priv_get hashing two 1 ≡ some first
unfolding priv_get priv_get_index table_get
has_one = refl

no_five : priv_get hashing two 5 ≡ none
unfolding priv_get priv_get_index table_get
no_five = refl

priv_insert-IsMap_example :
    IsMap hashing (priv_insert hashing two five)
    × (priv_get hashing (priv_insert hashing two five) 1 ≡ (
        if five.key == 1
        then some (chained (table_get two (priv_get_index hashing two five.key)) five)
        else priv_get hashing two 1))
    × ((priv_insert hashing two five).e_count ≡ succ_u32 two.e_count)
priv_insert-IsMap_example = priv_insert-IsMap hashing two two-IsMap five 1 no_five

priv_remove_key-IsMap_example :
    IsMap hashing (priv_remove_key hashing two 1).1
    × ((priv_remove_key hashing two 1).0 ≡ taken_out (priv_get hashing two 1))
    × (priv_get hashing (priv_remove_key hashing two 1).1 1
        ≡ (if number_key.equal 1 1 then none else priv_get hashing two 1))
    × ((priv_remove_key hashing two 1).1.e_count ≡ (lowered (priv_get hashing two 1) two).e_count)
priv_remove_key-IsMap_example = priv_remove_key-IsMap hashing two two-IsMap 1 1

-- No load is too high, and a table grows to twice its size.
abbrev pub growth : Growth
growth = record { too_full = λ n size. false; grown = λ n. n * 2 }

add-look_example :
    (t' : Table ℕ ℕ) × (add (chain_methods hashing) growth 40 two 5 50 ≡ some (t'.e_count, t'))
    × IsMap hashing t'
    × Added (priv_get hashing) two 5 50 t'
unfolding chain_laws
add-look_example =
    add-look (chain_methods hashing) (chain_laws hashing) two two-IsMap refl refl refl growth 40 5
      50 no_five (omega arith) refl

del_key-look_example :
    (t' : Table ℕ ℕ) × (del_key (chain_methods hashing) two 1 ≡ some (inr t'.e_count, t'))
    × IsMap hashing t'
    × (t'.deleted ≡ unlinked first ∷ [])
    × (t'.removing ≡ 0)
    × (t'.e_count ≡ pred_u32 2)
    × ((k' : ℕ) → priv_get hashing t' k' ≡ (if 1 == k' then none else priv_get hashing two k'))
unfolding chain_laws
del_key-look_example =
    del_key-look (chain_methods hashing) (chain_laws hashing) two two-IsMap refl refl refl 1 first
      has_one (omega arith)

elems_two : elems_from two.slots 2 0 ≡ 2
unfolding elems_from
elems_two = refl

clear_total_example : (t' : Table ℕ ℕ) × (clear 2 two ≡ some t') × Emptied 2 two t'
clear_total_example = clear_total 2 two (omega arith) elems_two (omega arith) refl refl refl refl

keeps : KeepsRemoving {K = ℕ} {V = ℕ} (chain_methods hashing)
keeps = remove_idx-removing hashing

head_two : head_inserted (chain_methods hashing) (table_get two 1) ≡ true
unfolding table_get
head_two = refl

pop_back_busy_example :
    (o : Option (Elem ℕ ℕ)) × (t' : Table ℕ ℕ) × (pop_back (chain_methods hashing) two
      ≡ some (o, t'))
    × (t'.removing ≡ 1)
    × (clear 100 t' ≡ none)
pop_back_busy_example =
    pop_back_busy (chain_methods hashing) keeps 100 1 two refl refl refl refl
      (λ h. omega (arith, h)) (omega arith) head_two
