-- ===== src/Hash/Open/Remove.antt =====
-- `privRemoveKey`: what it takes out of the table, for stored keys and for others.
use pwxlib.Base.{ℕ, ◌<◌, ◌≡◌, ◌≢◌, true, false, none, some, arith, ap, ◌∙◌, sym, inl, inr, pred_u32}
use native.Mathlib.Decide.{dec_lt}
use mathlib.Core.Bool.{false≢true}
use pwxlib.Hash.{Key, Elem, vacated, Table, is_null, put, table_get, table_vacate}
use pwxlib.Hash.Stepping.{Hashing}
use pwxlib.Hash.Open.{unlinked, priv_remove_idx, priv_remove_key, stepping, idx_base}
use pwxlib.Hash.Open.Path.{place_at, path-lt, Stops}
use pwxlib.Hash.Open.Lookup.{
  At, Reached, IsPlaced, index-At, get_index-Stops, settles-lookup, clear-nonnull, chain-At,
}
use pwxlib.Hash.Open.Change.{changed, written}

module _ {K V : Type 0} ⦃key : Key K⦄ where
  pub remove_idx-At :
      (t : Table K V) (p : ℕ) (e : Elem K V)
      → t.is_destroyed ≡ false
      → p < t.hash_size
      → At t p e
      → priv_remove_idx t p
        ≡ (some (unlinked e), changed t (written t p vacated) (pred_u32 t.e_count))
  unfolding priv_remove_idx table_get table_vacate put
  remove_idx-At t p e live h at = ground arith

  module _ (H : Hashing) (t : Table K V) (placed : IsPlaced H t) where
    open placed use {live, sized, reached}

    pub Reached-lt : (k : K) (p : ℕ) → Reached H t k p → p < t.hash_size
    Reached-lt k p r = rw (← r.place) (path-lt t.hash_size _ r.step r.probes (H.scale-lt _ _ sized))

    -- Removal by the key of a stored element vacates its place, and returns the element unlinked.
    pub remove_key-At :
        (p : ℕ) (e : Elem K V)
        → At t p e
        → priv_remove_key H t e.key
          ≡ some (some (unlinked e), changed t (written t p vacated) (pred_u32 t.e_count))
    unfolding priv_remove_key
    remove_key-At p e at =
        rw (index-At H t placed p e at)
          (ap some (remove_idx-At t p e live (Reached-lt e.key p (reached p e at)) at))

    module _ (k : K) (step : ℕ) (steps : stepping H t k ≡ some step)
        (absent : (p : ℕ) (f : Elem K V) → At t p f → f.key ≢ k) where
      -- A probe for a key that is not stored stops at an empty place only.
      stop_empty :
          (m : ℕ)
          → Stops t k false (idx_base H t k) step none m
          → m < t.hash_size
          → is_null (t.slots (place_at t (idx_base H t k) step m)) ≡ true
      stop_empty m s h = elim (settles-lookup t k none _ live (s.found h)) [
        | inl empty ↦ empty
        | inr has ↦ let (f, at, same) = chain-At H t placed _ k has in absurd (absent _ f at same)
      ]

      -- In a well-placed open hash, `privRemoveKey` of an absent key that has a stepping returns
      -- no element and leaves the table as it was, if one of the places that the key probes is
      -- empty.
      pub remove_key-absent :
          (j : ℕ)
          → j < t.hash_size
          → is_null (t.slots (place_at t (idx_base H t k) step j)) ≡ true
          → priv_remove_key H t k ≡ some (none, t)
      unfolding priv_remove_key priv_remove_idx table_get
      remove_key-absent j h e =
          let (m, s, run) = get_index-Stops H t k false none step steps in
          elim (dec_lt j m) [
            | yes late ↦
                absurd
                  (false≢true (sym (clear-nonnull t k false none _ live (s.before j late)) ∙ e))
            | no early ↦ let empty = stop_empty m s (omega arith) in rw run (ground arith)
          ]

      -- In a well-placed open hash, if none of the places that an absent key probes is empty, and
      -- an element stands where the probing runs out, then `privRemoveKey` of the absent key
      -- removes that element, of another key.
      pub remove_key-full :
          ((j : ℕ)
            → j < t.hash_size
            → is_null (t.slots (place_at t (idx_base H t k) step j)) ≡ false)
          → (f : Elem K V) → At t (place_at t (idx_base H t k) step t.hash_size) f
          → (f.key ≢ k)
            × (priv_remove_key H t k
                ≡ some (
                  some (unlinked f),
                  changed t
                      (written t (place_at t (idx_base H t k) step t.hash_size) vacated)
                      (pred_u32 t.e_count),
                ))
      unfolding priv_remove_key
      remove_key-full full f at =
          let (m, s, run) = get_index-Stops H t k false none step steps in
          let ran_out : m ≡ t.hash_size = elim (dec_lt m t.hash_size) [
            | yes soon ↦ absurd (false≢true (sym (full m soon) ∙ stop_empty m s soon))
            | no late ↦ omega (arith, s.bound)
          ] in
          (
            absent _ f at,
            rw (run, ran_out)
                (ap some (
                  remove_idx-At t _ f live
                    (path-lt t.hash_size _ step t.hash_size (H.scale-lt _ _ sized)) at)),
          )
