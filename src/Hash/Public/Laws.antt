-- ===== src/Hash/Public/Laws.antt =====
-- What the public methods promise, for any hash whose virtual methods form a finite map.
use pwxlib.Base.{
  sym, inl, Bool-cases, Option-cases, ℕ, ◌<◌, ◌≡◌, inr, refl, ap, ◌∙◌, Bool, true, false, ◌||◌,
  List, ◌∷◌, Option, none, some, if◌then◌else◌, u32_mod, succ_u32, pred_u32, arith,
}
use pwxlib.Hash.{Key, Elem, Table}
use pwxlib.Hash.Open.{unlinked}
use pwxlib.Hash.Public.{
  Methods, Growth, busy, start_insert, stop_insert, start_remove, stop_remove,
  wait_for_clear_and_grow, prot_delete, delete_elem, get, exists, del_key, add, priv_add, new_elem,
}

pub if-true : {A : Type 0} (x y : A) (b : Bool) → b ≡ true → (if b then x else y) ≡ x
if-true x y b e = rw e refl

pub if-false : {A : Type 0} (x y : A) (b : Bool) → b ≡ false → (if b then x else y) ≡ y
if-false x y b e = rw e refl

module _ {K V : Type 0} where
  -- The table with other counters and another log.
  abbrev pub with_counters : Table K V → ℕ → ℕ → List (Elem K V) → Table K V
  with_counters t i r d = record t { inserting = i; removing = r; deleted = d }

  -- The fields that the virtual methods leave alone.
  pub record Kept (t t' : Table K V) : Type 0 where
    pub live : t'.is_destroyed ≡ t.is_destroyed
    pub size : t'.hash_size ≡ t.hash_size
    pub clearing : t'.clearing ≡ t.clearing
    pub growing : t'.growing ≡ t.growing
    pub inserting : t'.inserting ≡ t.inserting
    pub removing : t'.removing ≡ t.removing
    pub deleted : t'.deleted ≡ t.deleted

module _ {K V : Type 0} ⦃key : Key K⦄ where
  pub record Removed (look : Table K V → K → Option (Elem K V)) (t : Table K V) (k : K)
      (t' : Table K V) : Type 0 where
    pub kept : Kept t t'
    pub count : t'.e_count ≡ pred_u32 t.e_count
    pub looks : (k' : K) → look t' k' ≡ (if key.equal k k' then none else look t k')

  pub record Added (look : Table K V → K → Option (Elem K V)) (t : Table K V) (k : K) (v : V)
      (t' : Table K V) : Type 0 where
    pub kept : Kept t t'
    pub count : t'.e_count ≡ succ_u32 t.e_count
    pub new : Elem K V
    pub has : (new.key ≡ k) × (new.val ≡ v) × (new.linked ≡ true)
    pub looks : (k' : K) → look t' k' ≡ (if key.equal k k' then some new else look t k')

  -- A well-formed table is a finite map `look`, and the virtual methods are the operations on it.
  pub record Laws (m : Methods K V) : Type 1 where
    pub Good : Table K V → Type 0
    pub look : Table K V → K → Option (Elem K V)
    pub counters :
        (t : Table K V) (i r : ℕ) (d : List (Elem K V)) → Good t → Good (with_counters t i r d)
    pub look_counters :
        (t : Table K V) (i r : ℕ) (d : List (Elem K V)) (k : K)
        → look (with_counters t i r d) k ≡ look t k
    pub gets : (t : Table K V) (k : K) → Good t → m.priv_get t k ≡ some (look t k)
    pub removes :
        (t : Table K V) (k : K) (e : Elem K V)
        → Good t
        → look t k ≡ some e
        → (t' : Table K V) × (m.priv_remove_key t k ≡ some (some (unlinked e), t'))
          × Good t'
          × Removed look t k t'
    pub removes_absent :
        (t : Table K V) (k : K) → Good t → look t k ≡ none → m.priv_remove_key t k ≡ some (none, t)
    pub inserts :
        (t : Table K V) (k : K) (v : V)
        → Good t
        → look t k ≡ none
        → (t' : Table K V) × (m.priv_insert t (new_elem m k v) ≡ some t')
          × Good t'
          × Added look t k v t'

  -- A table that `k` has been deleted from, whether it was there or not.
  pub record Gone (Good : Table K V → Type 0) (look : Table K V → K → Option (Elem K V))
      (t : Table K V) (k : K) (t' : Table K V) : Type 0 where
    pub good : Good t'
    pub live : t'.is_destroyed ≡ false
    pub growing : t'.growing ≡ 0
    pub clearing : t'.clearing ≡ 0
    pub inserting : t'.inserting ≡ t.inserting
    pub size : t'.hash_size ≡ t.hash_size
    pub looks : (k' : K) → look t' k' ≡ (if key.equal k k' then none else look t k')

  module _ (m : Methods K V) (laws : Laws m) (t : Table K V) (good : laws.Good t)
      (live : t.is_destroyed ≡ false) (g : t.growing ≡ 0) (c : t.clearing ≡ 0) where
    open laws use {Good, look, counters, look_counters, gets, removes, removes_absent, inserts}

    no_wait : wait_for_clear_and_grow t ≡ some t
    unfolding wait_for_clear_and_grow
    no_wait = let idle : (busy t.growing || busy t.clearing) ≡ false = ground arith in rw idle refl

    pub exists-look :
        (k : K) → exists m t k ≡ some (elim (look t k) [ none ↦ false | some e ↦ true ])
    unfolding exists
    exists-look k = rw (no_wait, gets t k good) refl

    pub get-look : (k : K) → get m t k ≡ some (look t k)
    unfolding get
    get-look k = rw (no_wait, gets t k good) refl

    begin_remove :
        start_remove t ≡ some (with_counters t t.inserting (succ_u32 t.removing) t.deleted)
    unfolding start_remove
    begin_remove = rw no_wait refl

    begin_insert :
        start_insert t ≡ some (with_counters t (succ_u32 t.inserting) t.removing t.deleted)
    unfolding start_insert
    begin_insert = rw no_wait refl

    abbrev removing_t : Table K V
    removing_t = with_counters t t.inserting (succ_u32 t.removing) t.deleted

    abbrev inserting_t : Table K V
    inserting_t = with_counters t (succ_u32 t.inserting) t.removing t.deleted

    del_run :
        (k : K) (e : Elem K V) (t₂ : Table K V)
        → m.priv_remove_key removing_t k ≡ some (some (unlinked e), t₂)
        → del_key m t k ≡ some (inr t₂.e_count, stop_remove (delete_elem (unlinked e) t₂))
    unfolding del_key prot_delete
    del_run k e t₂ run = rw (begin_remove, run) (if-false _ _ _ live)

    -- On a live table that no thread grows or clears, of a hash whose virtual methods form a
    -- finite map: `delKey` of a present key returns the count, one lower modulo 2 ^ 32; the table
    -- is well-formed, finds nothing at the key and the same as before elsewhere, the element is
    -- deleted, once, and `removing` is back where it was.
    pub del_key-look :
        (k : K) (e : Elem K V)
        → look t k ≡ some e
        → t.removing < u32_mod
        → (t' : Table K V) × (del_key m t k ≡ some (inr t'.e_count, t'))
          × Good t'
          × (t'.deleted ≡ unlinked e ∷ t.deleted)
          × (t'.removing ≡ t.removing)
          × (t'.e_count ≡ pred_u32 t.e_count)
          × ((k' : K) → look t' k' ≡ (if key.equal k k' then none else look t k'))
    del_key-look k e h lt =
        let (t₂, run, good₂, r) =
          removes removing_t k e (counters t _ _ _ good) (look_counters t _ _ _ k ∙ h) in
        (
          stop_remove (delete_elem (unlinked e) t₂),
          del_run k e t₂ run,
          counters t₂ _ _ _ good₂,
          ap (λ d. unlinked e ∷ d) r.kept.deleted,
          ap pred_u32 r.kept.removing ∙ omega (arith, lt),
          r.count,
          λ k'.
              look_counters t₂ _ _ _ k'
              ∙ r.looks k'
              ∙ ap (λ o. if key.equal k k' then none else o) (look_counters t _ _ _ k'),
        )

    pub add-present :
        (growth : Growth) (fuel : ℕ) (k : K) (v : V) (e : Elem K V)
        → look t k ≡ some e
        → add m growth fuel t k v ≡ some (t.e_count, t)
    unfolding add
    add-present growth fuel k v e h = rw (gets t k good, h) refl

    add_run :
        (growth : Growth) (fuel : ℕ) (k : K) (v : V) (t₂ : Table K V)
        → m.priv_get t k ≡ some none
        → m.priv_get inserting_t k ≡ some none
        → m.priv_insert inserting_t (new_elem m k v) ≡ some t₂
        → growth.too_full t₂.e_count t₂.hash_size ≡ false
        → add m growth fuel t k v ≡ some (t₂.e_count, stop_insert t₂)
    unfolding add priv_add
    add_run growth fuel k v t₂ h h₁ run fits = rw (h, begin_insert, h₁, run, fits) refl

    -- On a live table that no thread grows or clears, of a hash whose virtual methods form a
    -- finite map: `add` of an absent key, where the load afterwards asks for no growth, returns
    -- the new count; the table is well-formed, finds the new pair at the key and the same as
    -- before elsewhere, and the counters are back where they were.
    pub add-look :
        (growth : Growth) (fuel : ℕ) (k : K) (v : V)
        → look t k ≡ none
        → t.inserting < u32_mod
        → growth.too_full (succ_u32 t.e_count) t.hash_size ≡ false
        → (t' : Table K V) × (add m growth fuel t k v ≡ some (t'.e_count, t'))
          × Good t'
          × Added look t k v t'
    add-look growth fuel k v h lt fits =
        let h₁ = look_counters t _ _ _ k ∙ h in
        let good₁ : Good inserting_t = counters t _ _ _ good in
        let (t₂, run, good₂, a) = inserts inserting_t k v good₁ h₁ in
        let fits₂ : growth.too_full t₂.e_count t₂.hash_size ≡ false =
          rw (a.count, a.kept.size) fits in
        (
          stop_insert t₂,
          add_run growth fuel k v t₂ (gets t k good ∙ ap some h)
              (gets inserting_t k good₁ ∙ ap some h₁) run fits₂,
          counters t₂ _ _ _ good₂,
          record {
            kept = record {
              live = a.kept.live;
              size = a.kept.size;
              clearing = a.kept.clearing;
              growing = a.kept.growing;
              inserting = ap pred_u32 a.kept.inserting ∙ omega (arith, lt);
              removing = a.kept.removing;
              deleted = a.kept.deleted;
            };
            count = a.count;
            new = a.new;
            has = a.has;
            looks = λ k'.
                look_counters t₂ _ _ _ k'
                ∙ a.looks k'
                ∙ ap (λ o. if key.equal k k' then some a.new else o) (look_counters t _ _ _ k');
          },
        )

    del_run_absent :
        (k : K)
        → m.priv_remove_key removing_t k ≡ some (none, removing_t)
        → del_key m t k ≡ some (inr t.e_count, stop_remove removing_t)
    unfolding del_key prot_delete
    del_run_absent k run = rw (begin_remove, run) (if-false _ _ _ live)

    same_looks :
        (k k' : K) → look t k ≡ none → look t k' ≡ (if key.equal k k' then none else look t k')
    same_looks k k' h = elim (Bool-cases (key.equal k k')) [
      | inl same ↦ let e : k ≡ k' = (key.equal_iff _ _).0 same in rw same (ap (look t) (sym e) ∙ h)
      | inr ne ↦ rw ne refl
    ]

    -- Deletion of a key returns, whether the key is present or not.
    pub del_key-Gone :
        (k : K)
        → (t' : Table K V) × (del_key m t k ≡ some (inr t'.e_count, t')) × Gone Good look t k t'
    del_key-Gone k = elim (Option-cases (look t k)) [
      | inl h ↦
          let h₁ = look_counters t _ _ _ k ∙ h in
          (
            stop_remove removing_t,
            del_run_absent k (removes_absent removing_t k (counters t _ _ _ good) h₁),
            record {
              good = counters t _ _ _ good;
              live = live;
              growing = g;
              clearing = c;
              inserting = refl;
              size = refl;
              looks = λ k'. look_counters t _ _ _ k' ∙ same_looks k k' h;
            },
          )
      | inr (e, h) ↦
          let (t₂, run, good₂, r) =
            removes removing_t k e (counters t _ _ _ good) (look_counters t _ _ _ k ∙ h) in
          (
            stop_remove (delete_elem (unlinked e) t₂),
            del_run k e t₂ run,
            record {
              good = counters t₂ _ _ _ good₂;
              live = r.kept.live ∙ live;
              growing = r.kept.growing ∙ g;
              clearing = r.kept.clearing ∙ c;
              inserting = r.kept.inserting;
              size = r.kept.size;
              looks = λ k'.
                  look_counters t₂ _ _ _ k'
                  ∙ r.looks k'
                  ∙ ap (λ o. if key.equal k k' then none else o) (look_counters t _ _ _ k');
            },
          )
    ]
