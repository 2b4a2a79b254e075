-- ===== src/Hash/Chain/Insert.antt =====
-- Insertion keeps the chained hash well-formed.
use pwxlib.Base.{
  ◌≡◌, ◌⊎◌, refl, sym, ap, ◌∙◌, Bool, true, false, List, [], ◌∷◌, Option, none, some, if◌then◌else◌,
  ◌==◌, succ_u32, Bool-cases, inl, inr, arith,
}
use pwxlib.Hash.{Key, Elem, Table, table_get, table_set}
use pwxlib.Hash.Stepping.{Hashing}
use pwxlib.Hash.Open.Lookup.{none≢some}
use pwxlib.Hash.Chain.{appended, find_in, drop_in, priv_get_index, priv_insert, priv_get}
use pwxlib.Hash.Chain.Map.{or_new, chained, find_in-appended, table_get-set, IsMap}
use pwxlib.Hash.Chain.Remove.{drop_in-append, set_live}

module _ {K V : Type 0} ⦃key : Key K⦄ where
  drop_in-appended :
      (k : K) (es : List (Elem K V)) (e : Elem K V)
      → (find_in k es ≡ none) ⊎ (key.equal e.key k ≡ false)
      → find_in k (drop_in k es) ≡ none
      → find_in k (drop_in k (appended es e)) ≡ none
  drop_in-appended k [] e h o = ground arith
  drop_in-appended k (f ∷ es) e h o = drop_in-append k (f ∷ es) (chained (f ∷ es) e) h o

  pub chained-linked : (es : List (Elem K V)) (e : Elem K V) → (chained es e).linked ≡ true
  chained-linked [] e = refl
  chained-linked (f ∷ es) e = refl

  some_linked : (f g : Elem K V) → f.linked ≡ true → some f ≡ some g → g.linked ≡ true
  some_linked f g h q = let same : f ≡ g = cc in ap Elem.linked (sym same) ∙ h

  or_new-linked :
      (o : Option (Elem K V)) (b : Bool) (c g : Elem K V)
      → ((g' : Elem K V) → o ≡ some g' → g'.linked ≡ true)
      → c.linked ≡ true
      → or_new o (if b then some c else none) ≡ some g
      → g.linked ≡ true
  or_new-linked (some f) b c g h l q = some_linked f g (h f refl) q
  or_new-linked none true c g h l q = some_linked c g l q
  or_new-linked none false c g h l q = absurd (none≢some q)

  appended-linked :
      (k : K) (es : List (Elem K V)) (e g : Elem K V)
      → ((g' : Elem K V) → find_in k es ≡ some g' → g'.linked ≡ true)
      → find_in k (appended es e) ≡ some g
      → g.linked ≡ true
  appended-linked k es e g h q =
      or_new-linked (find_in k es) (key.equal e.key k) (chained es e) g h (chained-linked es e)
        (sym (find_in-appended k es e) ∙ q)

  fresh :
      (es : List (Elem K V)) (k : K) (e : Elem K V)
      → find_in e.key es ≡ none
      → (find_in k es ≡ none) ⊎ (key.equal e.key k ≡ false)
  fresh es k e absent = elim (Bool-cases (key.equal e.key k)) [
    | inl same ↦ inl (rw ((key.equal_iff _ _).0 same) at absent)
    | inr ne ↦ inr ne
  ]

  module _ (H : Hashing) (t : Table K V) (m : IsMap H t) where
    open m use {live, once, inserted}

    -- `privInsert` of an element of an absent key keeps a chained hash well-formed: each chain
    -- holds a key once, and elements that are inserted.
    pub insert-IsMap : (e : Elem K V) → priv_get H t e.key ≡ none → IsMap H (priv_insert H t e)
    unfolding priv_insert priv_get
    insert-IsMap e absent =
        let i' = priv_get_index H t e.key in
        let t' = table_set t i' (appended (table_get t i') e) in
        record {
          live = set_live t i' _ live;
          once = λ i k.
              ap (λ es. find_in k (drop_in k es))
                (table_get-set t i' i _ (succ_u32 t'.e_count) live)
              ∙ elim (Bool-cases (i == i')) [
                | inl same ↦
                    rw same (drop_in-appended k _ e (fresh (table_get t i') k e absent) (once i' k))
                | inr ne ↦ rw ne (once i k)
              ];
          inserted = λ i k f h.
              let h' =
                sym (ap (find_in k) (table_get-set t i' i _ (succ_u32 t'.e_count) live)) ∙ h in
              elim (Bool-cases (i == i')) [
                | inl same ↦ appended-linked k (table_get t i') e f (inserted i' k) (rw same at h')
                | inr ne ↦ inserted i k f (rw ne at h')
              ];
        }
