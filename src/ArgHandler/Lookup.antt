-- ===== src/ArgHandler/Lookup.antt =====
-- arg_handler/CArgHandler: finding a target by its name, as two finite maps, and clusters of short
-- arguments as the list of their targets.
use pwxlib.Base.{
  ℕ, ◌≡◌, refl, ap, sym, Bool, true, false, List, [], ◌∷◌, ◌++◌, Option, none, some, length,
  Option-cases, inl, inr, ◌>>=◌, arith,
}
use mathlib.Core.List.{append-nil, append_assoc}
use pwxlib.Hash.{Key, Table}
use pwxlib.Hash.Stepping.{Hashing}
use pwxlib.Hash.Chain.{priv_get}
use pwxlib.Hash.Chain.Map.{IsMap}
use pwxlib.Hash.Public.Laws.{exists-look, get-look}
use pwxlib.Hash.Public.Chained.{chain_methods, chain_laws}
use pwxlib.ArgHandler.{Text, Handler}
use pwxlib.ArgHandler.Queue.{clear_queue}
use pwxlib.ArgHandler.Register.{lookup_in, get_target}
use pwxlib.ArgHandler.Parse.{uncombine_loop, uncombine, dashes_of, after_dashes}

abbrev pub first_of : Option ℕ → Option ℕ → Option ℕ
first_of (some id) later = some id
first_of none later = later

module _ ⦃key : Key Text⦄ (H : Hashing) where
  -- A well-formed hash that no thread grows or clears.
  pub record AtRest (t : Table Text ℕ) : Type 0 where
    pub good : IsMap H t
    pub growing : t.growing ≡ 0
    pub clearing : t.clearing ≡ 0

  unfoldable pub look : Table Text ℕ → Text → Option ℕ
  look t k = elim (priv_get H t k) [ none ↦ none | some e ↦ some e.val ]

  -- Looking in the short names first, and then in the long ones.
  unfoldable pub find_target : Table Text ℕ → Table Text ℕ → Text → Option ℕ
  find_target short long [] = none
  find_target short long (c ∷ s) = first_of (look short (c ∷ s)) (look long (c ∷ s))

  pub lookup_in-look : (t : Table Text ℕ) (k : Text) → AtRest t → lookup_in H t k ≡ some (look t k)
  unfolding lookup_in look chain_laws
  lookup_in-look t k r =
      let m = chain_methods H in
      let laws = chain_laws H in
      let known = exists-look m laws t r.good r.good.live r.growing r.clearing k in
      let found = get-look m laws t r.good r.good.live r.growing r.clearing k in
      ground (arith, known, found)

-- The targets of a cluster: one for each character, or none at all.
abbrev pub targets_of : (Text → Option ℕ) → Text → Text → Option (List ℕ)
targets_of find dashes [] = some []
targets_of find dashes (c ∷ s) = do
  id ← find (dashes ++ (c ∷ []))
  ids ← targets_of find dashes s
  some (id ∷ ids)

-- What `uncombine` gives behind targets that it found before.
abbrev whole : List ℕ → Option (List ℕ) → Option (Bool × List ℕ)
whole before none = none
whole before (some ids) = some (true, before ++ ids)

whole_later :
    (before : List ℕ) (id : ℕ) (o : Option (List ℕ))
    → whole (before ++ (id ∷ [])) o ≡ whole before (o >>= (λ ids. some (id ∷ ids)))
whole_later before id none = refl
whole_later before id (some ids) = ap (λ l. some (true, l)) (append_assoc before (id ∷ []) ids)

-- What becomes of a cluster: a first character that names nothing ends it with an empty list, a
-- later one without a result.
abbrev pub uncombined_first : Option ℕ → Option (List ℕ) → Option (Bool × List ℕ)
uncombined_first none later = some (false, [])
uncombined_first (some id) none = none
uncombined_first (some id) (some ids) = some (true, id ∷ ids)

abbrev pub uncombined : (Text → Option ℕ) → Text → Text → Option (Bool × List ℕ)
uncombined find dashes [] = some (true, [])
uncombined find dashes (c ∷ s) =
    uncombined_first (find (dashes ++ (c ∷ []))) (targets_of find dashes s)

whole_one : (id : ℕ) (o : Option (List ℕ)) → whole (id ∷ []) o ≡ uncombined_first (some id) o
whole_one id none = refl
whole_one id (some ids) = refl

clear_queue-append : (before : List ℕ) (id : ℕ) → clear_queue (before ++ (id ∷ [])) ≡ none
unfolding clear_queue
clear_queue-append [] id = refl
clear_queue-append (x ∷ before) id = refl

pub record Ready {V : Type 0} ⦃key : Key Text⦄ (H : Hashing) (h : Handler V) : Type 0 where
  pub short : AtRest H h.short_args
  pub long : AtRest H h.long_args

module _ {V : Type 0} ⦃key : Key Text⦄ (H : Hashing) (h : Handler V) (r : Ready H h) where
  abbrev pub find : Text → Option ℕ
  find a = find_target H h.short_args h.long_args a

  pub get_target-find : (a : Text) → get_target H h a ≡ some (find a)
  unfolding get_target find_target
  get_target-find [] = refl
  get_target-find (c ∷ s) =
      let in_short = lookup_in-look H h.short_args (c ∷ s) r.short in
      let in_long = lookup_in-look H h.long_args (c ∷ s) r.long in ground (arith, in_short, in_long)

  uncombine_loop-whole :
      (dashes s : Text) (found : List ℕ)
      → clear_queue found ≡ none
      → uncombine_loop H h dashes s found ≡ whole found (targets_of find dashes s)
  unfolding uncombine_loop
  uncombine_loop-whole dashes [] found full = ap (λ l. some (true, l)) (sym (append-nil found))
  uncombine_loop-whole dashes (c ∷ s) found full =
      let found_first = get_target-find (dashes ++ (c ∷ [])) in
      elim (Option-cases (find (dashes ++ (c ∷ [])))) [
        | inl e ↦ rw (found_first, e, full) refl
        | inr (id, e) ↦
            let later = clear_queue-append found id in
            rw (found_first, e, uncombine_loop-whole dashes s (found ++ (id ∷ [])) later)
              (whole_later found id (targets_of find dashes s))
      ]

  uncombine_loop-uncombined :
      (dashes s : Text) → uncombine_loop H h dashes s [] ≡ uncombined find dashes s
  unfolding uncombine_loop clear_queue
  uncombine_loop-uncombined dashes [] = refl
  uncombine_loop-uncombined dashes (c ∷ s) =
      let found_first = get_target-find (dashes ++ (c ∷ [])) in
      elim (Option-cases (find (dashes ++ (c ∷ [])))) [
        | inl e ↦ rw (found_first, e) refl
        | inr (id, e) ↦
            rw (found_first, e, uncombine_loop-whole dashes s (id ∷ []) refl)
              (whole_one id (targets_of find dashes s))
      ]

  -- `uncombine` into an empty list, on a handler whose two hashes are well-formed maps at rest,
  -- looks up each character behind the dashes with all the dashes in front: if all of them name
  -- targets, these are its list, in order; if the first one does not, it fails with an empty list;
  -- if the first does and a later one does not, it has no result, since the list that it clears is
  -- not empty. The count is that of the leading dashes.
  pub uncombine-targets_of :
      (a : Text)
      → uncombine H h a [] ≡ (do
        (all_found, ids) ← uncombined find (dashes_of a) (after_dashes a)
        some (all_found, ids, length (dashes_of a)))
  unfolding uncombine
  uncombine-targets_of a = rw (uncombine_loop-uncombined (dashes_of a) (after_dashes a)) refl
