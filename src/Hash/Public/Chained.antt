-- ===== src/Hash/Public/Chained.antt =====
-- The public methods of a TChainHash: its virtual methods form a finite map.
use pwxlib.Base.{
  ltb, ℕ, ◌≡◌, inl, inr, refl, sym, ap, ◌∙◌, true, false, List, [], ◌∷◌, Option, none, some,
  if◌then◌else◌, succ_u32, pred_u32, arith, Bool-cases,
}
use pwxlib.Hash.{Key, Elem, Table, table_get, table_set, put}
use pwxlib.Hash.Stepping.{Hashing}
use pwxlib.Hash.Open.{unlinked}
use pwxlib.Hash.Chain.{priv_get_index, priv_get, priv_insert, priv_remove_key, priv_remove_idx}
use pwxlib.Hash.Chain.Map.{IsMap, get-priv_insert, chained, or_new, or_new-none}
use pwxlib.Hash.Chain.Remove.{
  dropped, remove_some, get-priv_remove_key, remove_key-IsMap, priv_remove_key-absent,
}
use pwxlib.Hash.Chain.Insert.{insert-IsMap, chained-linked}
use pwxlib.Hash.Public.{Methods, new_elem}
use pwxlib.Hash.Public.Laws.{Laws, Kept, Removed, Added, with_counters}

module _ {K V : Type 0} ⦃key : Key K⦄ (H : Hashing) where
  abbrev pub chain_methods : Methods K V
  chain_methods = record {
    priv_get = λ t k. some (priv_get H t k);
    priv_insert = λ t e. some (priv_insert H t e);
    priv_remove_idx = priv_remove_idx;
    priv_remove_key = λ t k. some (priv_remove_key H t k);
  }

  chained-key : (es : List (Elem K V)) (e : Elem K V) → (chained es e).key ≡ e.key
  chained-key [] e = refl
  chained-key (f ∷ es) e = refl

  chained-val : (es : List (Elem K V)) (e : Elem K V) → (chained es e).val ≡ e.val
  chained-val [] e = refl
  chained-val (f ∷ es) e = refl

  -- At an absent key the new element is found, elsewhere what was there.
  only_new :
      (k k' : K) (f : K → Option (Elem K V))
      → f k ≡ none
      → (n : Elem K V)
      → or_new (f k') (if key.equal k k' then some n else none)
        ≡ (if key.equal k k' then some n else f k')
  only_new k k' f h n = elim (Bool-cases (key.equal k k')) [
    | inl same ↦
        let e : k ≡ k' = (key.equal_iff _ _).0 same in
        let h' : f k' ≡ none = ap f (sym e) ∙ h in rw (same, h') refl
    | inr ne ↦ rw ne (sym (or_new-none (f k')))
  ]

  remove_found :
      (t : Table K V) (k : K) (e : Elem K V)
      → IsMap H t
      → priv_get H t k ≡ some e
      → priv_remove_key H t k ≡ (some (unlinked e), dropped H t k)
  unfolding priv_get
  remove_found t k e m h = remove_some H t m k e h

  pub look_counters :
      (t : Table K V) (i r : ℕ) (d : List (Elem K V)) (k : K)
      → priv_get H (with_counters t i r d) k ≡ priv_get H t k
  unfolding priv_get priv_get_index table_get
  look_counters t i r d k = refl

  pub counters :
      (t : Table K V) (i r : ℕ) (d : List (Elem K V)) → IsMap H t → IsMap H (with_counters t i r d)
  unfolding table_get
  counters t i r d m = record { live = m.live; once = m.once; inserted = m.inserted }

  set_Kept :
      (t : Table K V) (i n : ℕ) (es : List (Elem K V))
      → t.is_destroyed ≡ false
      → Kept t (record (table_set t i es) { e_count = n })
  unfolding table_set put
  set_Kept t i n es live = record {
    live = ground arith;
    size = ground arith;
    clearing = ground arith;
    growing = ground arith;
    inserting = ground arith;
    removing = ground arith;
    deleted = ground arith;
  }

  set_count :
      (t : Table K V) (i : ℕ) (es : List (Elem K V)) → (table_set t i es).e_count ≡ t.e_count
  unfolding table_set put
  set_count t i es = ground arith

  pub removes :
      (t : Table K V) (k : K) (e : Elem K V)
      → IsMap H t
      → priv_get H t k ≡ some e
      → (t' : Table K V) × (some (priv_remove_key H t k) ≡ some (some (unlinked e), t'))
        × IsMap H t'
        × Removed (priv_get H) t k t'
  removes t k e m h =
      let run : priv_remove_key H t k ≡ (some (unlinked e), dropped H t k) =
        remove_found t k e m h in
      (
        dropped H t k,
        ap some run,
        rw run at (remove_key-IsMap H t m k),
        record {
          kept = set_Kept t _ _ _ m.live;
          count = ap pred_u32 (set_count t _ _);
          looks = λ k'. rw run at (get-priv_remove_key H t m k k' e h).1;
        },
      )

  pub removes_absent :
      (t : Table K V) (k : K)
      → IsMap H t
      → priv_get H t k ≡ none
      → some (priv_remove_key H t k) ≡ some (none, t)
  removes_absent t k m h = ap some (priv_remove_key-absent H t m k h)

  pub inserts :
      (t : Table K V) (k : K) (v : V)
      → IsMap H t
      → priv_get H t k ≡ none
      → (t' : Table K V) × (some (priv_insert H t (new_elem chain_methods k v)) ≡ some t')
        × IsMap H t'
        × Added (priv_get H) t k v t'
  unfolding priv_insert
  inserts t k v m h =
      let e = new_elem chain_methods k v in
      let es = table_get t (priv_get_index H t k) in
      (
        priv_insert H t e,
        refl,
        insert-IsMap H t m e h,
        record {
          kept = set_Kept t _ _ _ m.live;
          count = ap succ_u32 (set_count t _ _);
          new = chained es e;
          has = (chained-key es e, chained-val es e, chained-linked es e);
          looks = λ k'. get-priv_insert H t e k' m.live ∙ only_new k k' (priv_get H t) h _;
        },
      )

  unfoldable pub chain_laws : Laws chain_methods
  chain_laws = record {
    Good = IsMap H;
    look = priv_get H;
    counters = counters;
    look_counters = look_counters;
    gets = λ t k m. refl;
    removes = removes;
    removes_absent = removes_absent;
    inserts = inserts;
  }

  set_removing :
      (t : Table K V) (i : ℕ) (es : List (Elem K V)) → (table_set t i es).removing ≡ t.removing
  unfolding table_set put
  set_removing t i es = ground arith

  -- `privRemoveIdx` leaves the counter of removals alone.
  pub remove_idx-removing : (t : Table K V) (i : ℕ) → (priv_remove_idx t i).1.removing ≡ t.removing
  unfolding priv_remove_idx
  remove_idx-removing t i = elim (Bool-cases (ltb i t.hash_size)) [
    | inl inside ↦ go (table_get t i) refl inside
    | inr outside ↦ rw outside refl
  ]
    where
      go :
          (es : List (Elem K V))
          → table_get t i ≡ es
          → ltb i t.hash_size ≡ true
          → (priv_remove_idx t i).1.removing ≡ t.removing
      go [] q h = rw (h, q) refl
      go (e ∷ es) q h = rw (h, q) (set_removing t i es)
