-- ===== src/SingleList/Splice.antt =====
-- container/TSingleElement.h: `insertNext` and `removeNext` change exactly two neighbours.
use pwxlib.Base.{
  ℕ, ◌≡◌, refl, ap, ◌∙◌, Bool, true, false, not, ◌&&◌, ◌||◌, some, ◌==◌, if◌then◌else◌, arith,
}
use pwxlib.SingleList.{Ptr, Node, World, done, load, modify}
use pwxlib.SingleList.Element.{
  get_next, set_next, store_next, link_next, insert_next, marked_inserted, remove_next, unlink_next,
  remove_unless_null, insert_before,
}
use pwxlib.SingleList.Edit.{
  Shows, Edit-Shows, Same, Same-trans, modify-Edits, insert-Edits, remove-Edits, removed_as,
  then_done, deref-some, if_so, if_not,
}
use pwxlib.SingleList.Linked.{At}

abbrev pub chained : Bool → Ptr → Node → Node
chained safe q = if safe then set_next q else store_next q

pub next-chained : (safe : Bool) (q : Ptr) (n : Node) → (chained safe q n).next ≡ q
unfolding set_next store_next
next-chained safe q n = ground arith

pub stays_chained :
    (safe : Bool) (q : Ptr) (n : Node) → (chained safe q n).is_removed ≡ n.is_removed
unfolding set_next store_next
stays_chained safe q n = ground arith

pub alive_chained :
    (safe : Bool) (q : Ptr) (n : Node) → (chained safe q n).is_destroyed ≡ n.is_destroyed
unfolding set_next store_next
alive_chained safe q n = ground arith

nr-chained : (safe : Bool) (q : Ptr) (n : Node) → (chained safe q n).e_nr ≡ n.e_nr
unfolding set_next store_next
nr-chained safe q n = ground arith

nr-removed_as : (safe : Bool) (n : Node) → (removed_as safe n).e_nr ≡ n.e_nr
unfolding set_next store_next
nr-removed_as safe n = ground arith

pub get_next-inserted : (n : Node) → n.is_removed ≡ false → get_next n ≡ n.next
unfolding get_next
get_next-inserted n e = ground arith

-- From `w` to `w'` only the elements at `p` and `q` changed.
pub record Only (p q : Ptr) (w w' : World) : Type 0 where
  pub others : (a : Ptr) → (a == p) ≡ false → (a == q) ≡ false → load a w'.heap ≡ load a w.heap
  pub numbers : (a : Ptr) (k : ℕ) → Shows w a k → Shows w' a k
  pub same : Same w w'

abbrev pub FreshAt : Ptr → World → Type 0
FreshAt p w = (m : Node) × (load p w.heap ≡ some m) × (m.is_destroyed ≡ false)

pub ==_comm : (a b : ℕ) → (a == b) ≡ (b == a)
==_comm a b = ground arith

target-chained :
    (safe : Bool) (n : Node) (q : Ptr)
    → n.is_removed ≡ false
    → n.next ≡ q
    → (if safe then set_next (get_next n) else store_next n.next) ≡ chained safe q
target-chained true n q e o = ap set_next (get_next-inserted n e ∙ o)
target-chained false n q e o = ap store_next o

-- An element behind a linked one: both links afterwards.
pub link_next-At :
    (safe : Bool) (e new q : Ptr) (w : World) (a : At w.heap e q)
    → FreshAt new w
    → (new == e) ≡ false
    → (w' : World) × (link_next safe a.node e new w ≡ done w')
      × At w'.heap e new
      × At w'.heap new q
      × Only e new w w'
unfolding link_next
link_next-At safe e new q w a (m, mh, live) ne =
    let (w₁, r₁, d₁) = modify-Edits (chained safe q) new w m mh in
    let (w₂, r₂, d₂) = insert-Edits new w₁ _ d₁.now in
    let en : (e == new) ≡ false = ==_comm e new ∙ ne in
    let (w₃, r₃, d₃) =
      modify-Edits (chained safe new) e w₂ a.node (d₂.others e en ∙ d₁.others e en ∙ a.here) in
    let first_run = ap (λ f. modify f new w) (target-chained safe a.node q a.stays a.onto) ∙ r₁ in
    (
      w₃,
      then_done _ first_run (then_done _ r₂ r₃),
      record {
        node = chained safe new a.node;
        here = d₃.now;
        onto = next-chained safe new a.node;
        stays = stays_chained safe new a.node ∙ a.stays;
        alive = alive_chained safe new a.node ∙ a.alive;
      },
      record {
        node = marked_inserted (chained safe q m);
        here = d₃.others new ne ∙ d₂.now;
        onto = next-chained safe q m;
        stays = refl;
        alive = alive_chained safe q m ∙ live;
      },
      record {
        others = λ x xe xn. d₃.others x xe ∙ d₂.others x xn ∙ d₁.others x xn;
        numbers = λ x k s.
            Edit-Shows _ x k d₃ (d₂.others e en ∙ d₁.others e en ∙ a.here)
              (nr-chained safe new a.node)
              (Edit-Shows _ x k d₂ d₁.now refl (Edit-Shows _ x k d₁ mh (nr-chained safe q m) s));
        same = Same-trans d₁.same (Same-trans d₂.same d₃.same);
      },
    )

pub not_null : (w : World) (p : Ptr) {q : Ptr} → At w.heap p q → (p == 0) ≡ false
unfolding load
not_null w p a = let h = a.here in ground arith

not_null-FreshAt : (w : World) (p : Ptr) → FreshAt p w → (p == 0) ≡ false
unfolding load
not_null-FreshAt w p (m, mh, live) = ground arith

pub insert_next-At :
    (e new q : Ptr) (w : World)
    → At w.heap e q
    → FreshAt new w
    → (new == e) ≡ false
    → (w' : World) × (insert_next e new w ≡ done w')
      × At w'.heap e new
      × At w'.heap new q
      × Only e new w w'
unfolding insert_next
insert_next-At e new q w a (m, mh, live) ne =
    let (w', r, x, y, z) = link_next-At a.node.thread_safe e new q w a (m, mh, live) ne in
    let guard : (new == 0 || new == e) ≡ false =
      rw (not_null-FreshAt w new (m, mh, live), ne) refl in
    let may : (not a.node.thread_safe || (not a.node.is_destroyed && not m.is_destroyed)) ≡ true =
      rw (a.alive, live) (ground arith) in
    (
      w',
      if_not _ _ guard (
          then_done _ (deref-some e w a.node a.here)
            (then_done _ (deref-some new w m mh) (if_so _ _ may r))),
      x,
      y,
      z,
    )

-- An element before the one at `q`, which is the head.
pub insert_before-At :
    (new q : Ptr) (w : World) (p : Ptr)
    → At w.heap q p
    → FreshAt new w
    → (new == q) ≡ false
    → (w' : World) × (insert_before new q w ≡ done w') × At w'.heap new q × Only new new w w'
unfolding insert_before
insert_before-At new q w p a (m, mh, live) ne =
    let guard : (q == 0 || q == new) ≡ false = rw (not_null w q a, ==_comm q new, ne) refl in
    let may : (not m.is_destroyed && not a.node.is_destroyed) ≡ true = rw (a.alive, live) refl in
    let (w₁, r₁, d₁) = modify-Edits (chained m.thread_safe q) new w m mh in
    let (w₂, r₂, d₂) = insert-Edits new w₁ _ d₁.now in
    (
      w₂,
      if_not _ _ guard (
          then_done _ (deref-some new w m mh)
            (then_done _ (deref-some q w a.node a.here) (if_so _ _ may (then_done _ r₁ r₂)))),
      record {
        node = marked_inserted (chained m.thread_safe q m);
        here = d₂.now;
        onto = next-chained m.thread_safe q m;
        stays = refl;
        alive = alive_chained m.thread_safe q m ∙ live;
      },
      record {
        others = λ x xn xe. d₂.others x xn ∙ d₁.others x xn;
        numbers = λ x k s.
            Edit-Shows _ x k d₂ d₁.now refl
              (Edit-Shows _ x k d₁ mh (nr-chained m.thread_safe q m) s);
        same = Same-trans d₁.same d₂.same;
      },
    )

pub removed_as_removed : (safe : Bool) (n : Node) → (removed_as safe n).is_removed ≡ true
unfolding set_next store_next
removed_as_removed safe n = ground arith

next-removed_as : (safe : Bool) (n : Node) → (removed_as safe n).next ≡ 0
unfolding set_next store_next
next-removed_as safe n = ground arith

-- An element between two linked ones leaves: the link across it afterwards, and its own state.
pub remove_next-At :
    (e r q : Ptr) (w : World)
    → At w.heap e r
    → At w.heap r q
    → (e == r) ≡ false
    → (w' : World) × (remove_next e w ≡ done (r, w'))
      × At w'.heap e q
      × ((n : Node) × (load r w'.heap ≡ some n) × (n.is_removed ≡ true) × (n.next ≡ 0))
      × Only e r w w'
unfolding remove_next unlink_next
remove_next-At e r q w a b ne =
    let n = a.node in
    let (w₁, r₁, d₁) = modify-Edits (chained n.thread_safe q) e w n a.here in
    let re : (r == e) ≡ false = ==_comm r e ∙ ne in
    let (w₂, r₂, d₂) = remove-Edits r w₁ b.node (d₁.others r re ∙ b.here) in
    let run = then_done _ (deref-some r w b.node b.here) (
      then_done _
        (ap (λ f. modify f e w) (target-chained n.thread_safe b.node q b.stays b.onto) ∙ r₁)
        (then_done _ r₂ refl)) in
    let go : remove_unless_null e r n w ≡ done (r, w₂) =
      if_not _ _ (not_null w r b) (if_not _ _ re run) in
    (
      w₂,
      then_done _ (deref-some e w n a.here) (ap (λ t. remove_unless_null e t n w) a.onto ∙ go),
      record {
        node = chained n.thread_safe q n;
        here = d₂.others e ne ∙ d₁.now;
        onto = next-chained n.thread_safe q n;
        stays = stays_chained n.thread_safe q n ∙ a.stays;
        alive = alive_chained n.thread_safe q n ∙ a.alive;
      },
      (
        removed_as b.node.thread_safe b.node,
        d₂.now,
        removed_as_removed _ b.node,
        next-removed_as _ b.node,
      ),
      record {
        others = λ x xe xr. d₂.others x xr ∙ d₁.others x xe;
        numbers = λ x k s.
            Edit-Shows _ x k d₂ (d₁.others r re ∙ b.here) (nr-removed_as _ b.node)
              (Edit-Shows _ x k d₁ a.here (nr-chained n.thread_safe q n) s);
        same = Same-trans d₁.same d₂.same;
      },
    )
