-- ===== src/Hash/Open/Round.antt =====
-- One round of `privInsert`: the new element takes the place where its probing stops, and the
-- element that stood there, if any, is handed on.
use pwxlib.Base.{
  ℕ, ◌<◌, ◌≡◌, refl, true, false, ◌||◌, [], ◌∷◌, Option, none, some, ◌==◌, arith, ap, ◌∙◌,
  if◌then◌else◌, pred_u32, succ_u32,
}
use mathlib.Core.Path.{fun_ext}
use pwxlib.Hash.{
  Key, Elem, Slot, vacated, chain, Table, is_null, is_vacated, put, prot_is_unused, table_set,
}
use pwxlib.Hash.Stepping.{Hashing}
use pwxlib.Hash.Open.{unlinked, settle, evict, take_place, priv_get_index}
use pwxlib.Hash.Open.Lookup.{At, IsPlaced}
use pwxlib.Hash.Open.Change.{changed, written}
use pwxlib.Hash.Open.Remove.{remove_idx-At}

module _ {K V : Type 0} where
  -- The element that a place hands on.
  abbrev pub handed : Slot K V → Option (Elem K V)
  handed (chain (f ∷ es)) = some (unlinked f)
  handed _ = none

  -- The count after one more element, and one less where one is handed on.
  abbrev pub recount : Slot K V → ℕ → ℕ
  recount (chain (f ∷ es)) n = succ_u32 (pred_u32 n)
  recount _ n = succ_u32 n

  abbrev pub seated : Elem K V → ℕ → Elem K V
  seated e h = record e { hops = h; linked = true }

  -- The table once `e` sits at `p`, after `h` hops.
  abbrev pub seat : Table K V → ℕ → Elem K V → ℕ → Table K V
  seat t p e h = changed t (written t p (chain (seated e h ∷ []))) (recount (t.slots p) t.e_count)

  written_twice :
      (t : Table K V) (p : ℕ) (x y : Slot K V) (n : ℕ)
      → changed t (λ j. if j == p then y else written t p x j) n ≡ changed t (written t p y) n
  written_twice t p x y n = ap (λ σ. changed t σ n) (fun_ext λ j. ground arith)

  evict-unused :
      (t : Table K V) (p : ℕ)
      → t.is_destroyed ≡ false
      → (is_null (t.slots p) || is_vacated (t.slots p)) ≡ true
      → evict t p ≡ (none, t)
  unfolding evict prot_is_unused
  evict-unused t p live h = ground arith

  take_place_lem :
      (t : Table K V) (p : ℕ) (e : Elem K V)
      → t.is_destroyed ≡ false
      → take_place t p e
        ≡ changed t (written t p (chain (record e { linked = true } ∷ []))) (succ_u32 t.e_count)
  unfolding take_place table_set put
  take_place_lem t p e live = ground arith

module _ {K V : Type 0} ⦃key : Key K⦄ where
  evict-At :
      (t : Table K V) (p : ℕ) (f : Elem K V)
      → t.is_destroyed ≡ false
      → p < t.hash_size
      → At t p f
      → evict t p ≡ (some (unlinked f), changed t (written t p vacated) (pred_u32 t.e_count))
  unfolding evict prot_is_unused
  evict-At t p f live lt at = ground (arith, remove_idx-At t p f live lt at)

module _ {K V : Type 0} ⦃key : Key K⦄ (H : Hashing) (t : Table K V) (placed : IsPlaced H t) where
  open placed use {live, sized}

  seated_at :
      (e : Elem K V) (p h : ℕ) (x : Slot K V)
      → p < t.hash_size
      → t.slots p ≡ x
      → ((evict t p).0 ≡ handed x)
        × (take_place (evict t p).1 p (record e { hops = h })
            ≡ changed t (written t p (chain (seated e h ∷ []))) (recount x t.e_count))
  seated_at e p h vacated lt q =
      let kept : evict t p ≡ (none, t) = evict-unused t p live (ground arith) in
      rw kept (refl, take_place_lem t p _ live)
  seated_at e p h (chain []) lt q =
      let kept : evict t p ≡ (none, t) = evict-unused t p live (ground arith) in
      rw kept (refl, take_place_lem t p _ live)
  seated_at e p h (chain (f ∷ es)) lt q =
      let at : At t p f = q ∙ ap (λ l. chain (f ∷ l)) (placed.single p f es q) in
      rw (evict-At t p f live lt at) (
        refl,
        take_place_lem (changed t (written t p vacated) (pred_u32 t.e_count)) p _ live
            ∙ written_twice t p vacated _ _,
      )

  pub settle-seat :
      (e : Elem K V) (p h : ℕ)
      → priv_get_index H t e.key true (some e.hops) ≡ some (p, some h)
      → p < t.hash_size
      → settle H t e ≡ some (handed (t.slots p), seat t p e h)
  unfolding settle
  settle-seat e p h run lt = let (old, new) = seated_at e p h _ lt refl in rw (run, old, new)
