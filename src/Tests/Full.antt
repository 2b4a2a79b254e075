-- ===== src/Tests/Full.antt =====
-- `privRemoveKey` at a table without empty places.
use pwxlib.Base.{
  ℕ, ◌≡◌, ◌≢◌, true, false, [], ◌∷◌, some, refl, arith, ◌==◌, if◌then◌else◌, pred_u32, sym, ◌∙◌,
  Bool-cases, inl, inr, ==_iff,
}
use pwxlib.Hash.{Elem, chain, vacated, Table, multiplication, is_null}
use pwxlib.Hash.Stepping.{
  priv_get_stepping, adapt, first_step, sec_size, is_fraction, skip_fraction, skip_divisor,
  wrap_step,
}
use pwxlib.Hash.Open.{priv_remove_key, unlinked, stepping, next_place, longer_step}
use pwxlib.Hash.Open.Path.{place_at, path}
use pwxlib.Hash.Open.Lookup.{At, IsPlaced}
use pwxlib.Hash.Open.Change.{changed, written}
use pwxlib.Hash.Open.Remove.{remove_key-full}
use pwxlib.Tests.Tables.{number_key, hashing, steps_of}

-- The key 16 at the place of 5; every other place is vacated.
abbrev sixteen : Elem ℕ ℕ
sixteen = record { key = 16; val = 160; hops = 0; linked = true }

abbrev full : Table ℕ ℕ
full = record {
  slots = λ j. if j == 5 then chain (sixteen ∷ []) else vacated;
  hash_size = 11;
  e_count = 1;
  method = multiplication;
  is_destroyed = false;
  clearing = 0;
  growing = 0;
  inserting = 0;
  removing = 0;
  deleted = [];
}

five_steps : stepping hashing full 5 ≡ some 6
unfolding priv_get_stepping adapt first_step sec_size is_fraction skip_fraction skip_divisor
    wrap_step
five_steps = refl

comes_to : place_at full 5 6 11 ≡ 5
unfolding path next_place longer_step
comes_to = refl

sixteen_steps : stepping hashing full 16 ≡ some (steps_of 16).0
sixteen_steps = (steps_of 16).1

base_place : (step : ℕ) → place_at full 5 step 0 ≡ 5
unfolding path
base_place step = refl

At-place : (p : ℕ) (e : Elem ℕ ℕ) → At full p e → (p ≡ 5) × (e ≡ sixteen)
At-place p e h = elim (Bool-cases (p == 5)) [
  | inl same ↦ ((==_iff _ _).0 same, ground (arith, h))
  | inr ne ↦ absurd (ground (arith, h))
]

full-IsPlaced : IsPlaced hashing full
full-IsPlaced = record {
  live = refl;
  sized = omega arith;
  single = λ p e es h. ground arith;
  reached = λ p e h.
      let (at, same) = At-place p e h in
      rw (at, same)
        (record {
          step = (steps_of 16).0;
          steps = sixteen_steps;
          probes = 0;
          bound = omega arith;
          place = base_place (steps_of 16).0;
          nonnull = λ j l. absurd (omega arith);
        });
  unique = λ p q e f h h' s. (At-place p e h).0 ∙ sym (At-place q f h').0;
}

no_five : (p : ℕ) (f : Elem ℕ ℕ) → At full p f → f.key ≢ 5
no_five p f h e = let same = (At-place p f h).1 in absurd (ground (arith, same))

no_null : (q : ℕ) → is_null (full.slots q) ≡ false
no_null q = ground arith

there : At full (place_at full 5 6 11) sixteen
there = rw comes_to refl

remove_key-full_example :
    (sixteen.key ≢ 5)
    × (priv_remove_key hashing full 5
        ≡ some (
          some (unlinked sixteen),
          changed full (written full (place_at full 5 6 11) vacated) (pred_u32 1),
        ))
remove_key-full_example =
    remove_key-full hashing full full-IsPlaced 5 6 five_steps no_five
      (λ j h. no_null (place_at full 5 6 j)) sixteen there
