-- ===== src/Hash/Chain/Map.antt =====
-- The chained hash as a finite map from keys to elements.
use pwxlib.Base.{
  ℕ, ◌≡◌, refl, sym, ap, ◌∙◌, true, false, List, [], ◌∷◌, ◌++◌, length, Option, none, some,
  if◌then◌else◌, ◌==◌, Bool-cases, inl, inr, arith, ==_iff,
}
use mathlib.Core.Bool.{false≢true}
use pwxlib.Hash.{Key, Elem, Table, table_get, table_set, put}
use pwxlib.Hash.Stepping.{Hashing}
use pwxlib.Hash.Chain.{appended, find_in, drop_in, priv_get_index, priv_insert, priv_get}

-- What the map with `e` added last has at a key.
abbrev pub or_new : {K V : Type 0} → Option (Elem K V) → Option (Elem K V) → Option (Elem K V)
or_new (some f) n = some f
or_new none n = n

pub or_new-none : {K V : Type 0} (o : Option (Elem K V)) → o ≡ or_new o none
or_new-none none = refl
or_new-none (some e) = refl

module _ {K V : Type 0} ⦃key : Key K⦄ where
  -- The element as the chain holds it.
  abbrev pub chained : List (Elem K V) → Elem K V → Elem K V
  chained [] e = record e { linked = true }
  chained (f ∷ es) e = record e { hops = length (f ∷ es); linked = true }

  pub find_in-append :
      (k : K) (es : List (Elem K V)) (e : Elem K V)
      → find_in k (es ++ (e ∷ []))
        ≡ or_new (find_in k es) (if key.equal e.key k then some e else none)
  find_in-append k [] e = refl
  find_in-append k (f ∷ es) e = ground (arith, find_in-append k es e)

  pub find_in-appended :
      (k : K) (es : List (Elem K V)) (e : Elem K V)
      → find_in k (appended es e)
        ≡ or_new (find_in k es) (if key.equal e.key k then some (chained es e) else none)
  find_in-appended k [] e = refl
  find_in-appended k (f ∷ es) e = find_in-append k (f ∷ es) (chained (f ∷ es) e)

  pub table_get-set :
      (t : Table K V) (i j : ℕ) (es : List (Elem K V)) (n : ℕ)
      → t.is_destroyed ≡ false
      → table_get (record (table_set t i es) { e_count = n }) j
        ≡ (if j == i then es else table_get t j)
  unfolding table_get table_set put
  table_get-set t i j es n live = ground arith

  module _ (H : Hashing) where
    -- Every chain holds each key once, and elements that are inserted.
    pub record IsMap (t : Table K V) : Type 0 where
      pub live : t.is_destroyed ≡ false
      pub once : (i : ℕ) (k : K) → find_in k (drop_in k (table_get t i)) ≡ none
      pub inserted :
          (i : ℕ) (k : K) (e : Elem K V) → find_in k (table_get t i) ≡ some e → e.linked ≡ true

    -- Two tables that agree on size and method give a key the same place.
    index_same :
        (t t' : Table K V) (k : K)
        → t'.hash_size ≡ t.hash_size
        → t'.method ≡ t.method
        → priv_get_index H t' k ≡ priv_get_index H t k
    unfolding priv_get_index
    index_same t t' k s m = rw (s, m) refl

    pub set_same :
        (t : Table K V) (i n : ℕ) (es : List (Elem K V)) (k : K)
        → priv_get_index H (record (table_set t i es) { e_count = n }) k ≡ priv_get_index H t k
    unfolding table_set put
    set_same t i n es k = elim (Bool-cases t.is_destroyed) [
      | inl d ↦ index_same t _ k (rw d refl) (rw d refl)
      | inr l ↦ index_same t _ k (rw l refl) (rw l refl)
    ]

    -- What a lookup finds after a chain was replaced.
    pub get_set :
        (t : Table K V) (i n : ℕ) (es : List (Elem K V)) (k : K)
        → t.is_destroyed ≡ false
        → priv_get H (record (table_set t i es) { e_count = n }) k
          ≡ find_in k (if priv_get_index H t k == i then es else table_get t (priv_get_index H t k))
    unfolding priv_get
    get_set t i n es k live =
        ap (λ j. find_in k (table_get (record (table_set t i es) { e_count = n }) j))
          (set_same t i n es k)
        ∙ ap (find_in k) (table_get-set t i _ es n live)

    -- In a live chained hash, `privGet` after `privInsert` finds at each key what it found before,
    -- and the inserted element, linked and with its hops, at its own key if nothing was found
    -- there before.
    pub get-priv_insert :
        (t : Table K V) (e : Elem K V) (k : K)
        → t.is_destroyed ≡ false
        → priv_get H (priv_insert H t e) k
          ≡ or_new (priv_get H t k) (
              if key.equal e.key k
              then some (chained (table_get t (priv_get_index H t e.key)) e)
              else none)
    unfolding priv_insert priv_get
    get-priv_insert t e k live =
        let i = priv_get_index H t e.key in
        get_set t i _ _ k live ∙ elim (Bool-cases (priv_get_index H t k == i)) [
          | inl same ↦
              let here : priv_get_index H t k ≡ i = (==_iff _ _).0 same in
              rw (same, here) (find_in-appended k (table_get t i) e)
          | inr ne ↦
              let other : key.equal e.key k ≡ false = elim (Bool-cases (key.equal e.key k)) [
                | inl eq ↦ absurd (
                    false≢true (
                      sym ne
                      ∙ (==_iff _ _).1 (ap (priv_get_index H t) (sym ((key.equal_iff _ _).0 eq)))))
                | inr differ ↦ differ
              ] in
              rw (ne, other) (or_new-none _)
        ]
