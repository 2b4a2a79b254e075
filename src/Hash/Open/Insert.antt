-- ===== src/Hash/Open/Insert.antt =====
-- What a round of `privInsert` does to the stored pairs, and why it stopped where it did.
use pwxlib.Base.{ℕ, ◌≡◌, ◌⊎◌, ◌↔◌, Bool, true, false, ◌||◌, ◌==◌, arith, Bool-cases, inl, inr}
use pwxlib.Hash.{Key, Elem, Slot, Table, is_null, is_vacated}
use pwxlib.Hash.Open.Lookup.{At}
use pwxlib.Hash.Open.Round.{seated, seat}

module _ {K V : Type 0} where
  abbrev pub Offers : Elem K V → K → V → Type 0
  Offers e k v = (e.key ≡ k) × (e.val ≡ v)

  abbrev pub is_unused : Slot K V → Bool
  is_unused x = is_null x || is_vacated x

module _ {K V : Type 0} ⦃key : Key K⦄ where
  -- The table holds the pair of `k` and `v`.
  pub record Stores (t : Table K V) (k : K) (v : V) : Type 0 where
    pub place : ℕ
    pub elem' : Elem K V
    pub at : At t place elem'
    pub offers : Offers elem' k v

  module _ (t : Table K V) (p h : ℕ) (e : Elem K V) (k : K) (v : V) where
    Stores-seat : Stores (seat t p e h) k v → Stores t k v ⊎ Offers e k v
    Stores-seat s = elim (Bool-cases (s.place == p)) [
      | inl same ↦ inr (ground (arith, s.at, s.offers))
      | inr ne ↦ inl (record {
        place = s.place;
        elem' = s.elem';
        at = ground (arith, s.at);
        offers = s.offers;
      })
    ]

    seat-Offers : Offers e k v → Stores (seat t p e h) k v
    seat-Offers o = record { place = p; elem' = seated e h; at = ground arith; offers = o }

    seat-Stores_ne : (s : Stores t k v) → (s.place == p) ≡ false → Stores (seat t p e h) k v
    seat-Stores_ne s ne = record {
      place = s.place;
      elem' = s.elem';
      at = ground (arith, s.at);
      offers = s.offers;
    }

    pub seat_unused :
        is_unused (t.slots p) ≡ true → Stores (seat t p e h) k v ↔ (Stores t k v ⊎ Offers e k v)
    seat_unused u = (
      Stores-seat,
      λ x. elim x [
        | inr o ↦ seat-Offers o
        | inl s ↦ elim (Bool-cases (s.place == p)) [
          | inl same ↦ absurd (ground (arith, s.at))
          | inr ne ↦ seat-Stores_ne s ne
        ]
      ],
    )

    pub seat_At :
        (f : Elem K V)
        → At t p f
        → (Stores (seat t p e h) k v ⊎ Offers f k v) ↔ (Stores t k v ⊎ Offers e k v)
    seat_At f at = (
      λ x. elim x [
        | inl s ↦ Stores-seat s
        | inr o ↦ inl (record { place = p; elem' = f; at = at; offers = o })
      ],
      λ x. elim x [
        | inr o ↦ inl (seat-Offers o)
        | inl s ↦ elim (Bool-cases (s.place == p)) [
          | inl same ↦ inr (ground (arith, s.at, s.offers))
          | inr ne ↦ inl (seat-Stores_ne s ne)
        ]
      ],
    )
