-- ===== src/Tests/Tables.antt =====
-- The theorems on hashes, at small tables of numbers.
use pwxlib.Base.{
  ℕ, ◌+◌, ◌%◌, ◌<◌, ◌≡◌, ◌≢◌, ◌↔◌, inr, true, false, List, [], ◌∷◌, Option, none, some, refl, arith,
  ◌==◌, ==_iff, pred_u32,
}
use pwxlib.Hash.{Key, Elem, chain, null, Table, HashMethod, division, multiplication}
use pwxlib.Hash.Stepping.{Hashing, priv_get_stepping}
use pwxlib.Hash.Stepping.Ends.{priv_get_stepping_ends}
use pwxlib.Hash.Stepping.Tiny.{tiny_never_ends}
use pwxlib.Hash.Method.{priv_set_hash_method, far_from_powers, count_divisors}
use pwxlib.Hash.Method.Picks.{Encloses, set_method_total}
use pwxlib.Hash.Open.{priv_insert, priv_get, priv_remove_key, stepping}
use pwxlib.Hash.Open.Lookup.{IsPlaced}
use pwxlib.Hash.Open.Insert.{Stores}
use pwxlib.Hash.Open.Ensures.{Insertable, Inserted, insert_total}
use pwxlib.Hash.Open.Abstract.{get_Stores, remove_Stores}

instance abbrev pub number_key : Key ℕ
number_key = record { equal = λ a b. a == b; equal_iff = ==_iff; hash = λ n. n }

abbrev pub hashing : Hashing
hashing = record { scale = λ h n. h % n; scale-lt = λ h n p. omega arith; second = λ h. h + 1 }

-- Eleven empty places.
abbrev empty : Table ℕ ℕ
empty = record {
  slots = λ j. null;
  hash_size = 11;
  e_count = 0;
  method = multiplication;
  is_destroyed = false;
  clearing = 0;
  growing = 0;
  inserting = 0;
  removing = 0;
  deleted = [];
}

abbrev pub five : Elem ℕ ℕ
five = record { key = 5; val = 7; hops = 0; linked = false }

not_null : {e : Elem ℕ ℕ} {es : List (Elem ℕ ℕ)} → null ≢ chain (e ∷ es)
not_null h = cc

empty-IsPlaced : IsPlaced hashing empty
empty-IsPlaced = record {
  live = refl;
  sized = omega arith;
  single = λ p e es h. absurd (not_null h);
  reached = λ p e h. absurd (not_null h);
  unique = λ p q e f h. absurd (not_null h);
}

pub steps_of : (k : ℕ) → (r : ℕ) × (priv_get_stepping hashing multiplication 11 11 k ≡ some r)
steps_of k =
    let r = priv_get_stepping_ends hashing multiplication 11 k (omega arith) (omega arith) in
    (r.0, r.1)

empty-Insertable : Insertable hashing empty five
empty-Insertable = record {
  placed = empty-IsPlaced;
  bounded = λ p f h. absurd (not_null h);
  room = λ k. record {
    step = (steps_of k).0;
    steps = (steps_of k).1;
    probes = 0;
    bound = omega arith;
    free = refl;
  };
  count = omega arith;
  absent = λ p f h. absurd (not_null h);
  fresh = refl;
}

insert_total_example :
    (t' : Table ℕ ℕ) × (priv_insert hashing 200 empty five ≡ some t')
    × Inserted hashing empty five t'
insert_total_example = insert_total hashing 200 empty five empty-Insertable (omega arith)

-- The table with the one pair.
one : Table ℕ ℕ
one = (insert_total hashing 200 empty five empty-Insertable (omega arith)).0

one-Inserted : Inserted hashing empty five one
unfolding one
one-Inserted = (insert_total hashing 200 empty five empty-Insertable (omega arith)).2

one_steps : (k : ℕ) → stepping hashing one k ≡ some (steps_of k).0
one_steps k = rw (one-Inserted.size, one-Inserted.method) (steps_of k).1

one-Stores : Stores one 5 7
one-Stores = (one-Inserted.stores 5 7).1 (inr (refl, refl))

get_Stores_example :
    (o : Option (Elem ℕ ℕ)) × (priv_get hashing one 5 ≡ some o)
    × ((v : ℕ) → ((e : Elem ℕ ℕ) × (o ≡ some e) × (e.val ≡ v)) ↔ Stores one 5 v)
get_Stores_example = get_Stores hashing one one-Inserted.placed 5 (steps_of 5).0 (one_steps 5)

remove_Stores_example :
    (e : Elem ℕ ℕ) × (t' : Table ℕ ℕ) × (priv_remove_key hashing one 5 ≡ some (some e, t'))
    × (e.val ≡ 7)
    × (e.linked ≡ false)
    × IsPlaced hashing t'
    × (t'.e_count ≡ pred_u32 one.e_count)
    × ((k' : ℕ) (v' : ℕ) → Stores t' k' v' ↔ (Stores one k' v' × (k' ≢ 5)))
remove_Stores_example = remove_Stores hashing one one-Inserted.placed 5 7 one-Stores

tiny_never_ends_example : priv_get_stepping hashing division 1000 4 5 ≡ none
tiny_never_ends_example = tiny_never_ends hashing division 1000 4 5 (omega arith) (omega arith)

set_method_total_example :
    (m : HashMethod) × (b : ℕ × ℕ) × (priv_set_hash_method 31 97 ≡ some m)
    × Encloses 97 b
    × ((m ≡ division)
        ↔ ((97 % 2 ≡ 1) × (far_from_powers 97 b ≡ true) × (count_divisors 9 3 97 0 < 2)))
set_method_total_example = set_method_total 31 97 (omega arith) (omega arith) (omega arith)
