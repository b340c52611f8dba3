-- ===== src/Lru/Moves.antt =====
-- The methods of internal/lru/lru.go on a well-formed list: where they panic not, and what list
-- they leave.
use mathlib.Core.List.{append-nil, append_assoc}
use mathlib.Core.Path.{subst}
use gocache.Prelude.{
  ℕ, ◌<◌, ◌≡◌, refl, sym, ◌∙◌, ◌≢◌, false, Option, none, some, List, [], ◌∷◌, ◌++◌, arith, All,
  Absent, Distinct, All-append_left, All-append_right, All-middle, Distinct-middle, Distinct-left,
  Outcome, done,
}
use gocache.Lru.{Lru, set_prev, set_next, is_at, remove_node}
use gocache.Lru.Segments.{
  first, final, Segment, final-append, Segment-split, Segment-join, Segment-set_prev,
  Segment-set_prev_elsewhere, Segment-set_next_elsewhere, Segment-set_next,
}

-- `l` is the doubly linked list of the nodes `ns`, from head to tail.
pub record IsList (l : Lru) (ns : List ℕ) : Type 0 where
  pub at_head : l.head ≡ first ns none
  pub at_tail : l.tail ≡ final none ns
  pub linked : Segment l.nodes none ns none
  pub distinct : Distinct ns
  pub allocated : All (λ n. n < l.fresh) ns

-- The keys of the nodes and the next address are as they were.
pub record SameKeys (l l' : Lru) : Type 0 where
  pub key_at : (k : ℕ) → (l'.nodes k).key ≡ (l.nodes k).key
  pub fresh : l'.fresh ≡ l.fresh

-- `m` ends without a panic in the list `ns`, over the same keys.
abbrev pub Leaves : Outcome Lru → Lru → List ℕ → Type 0
Leaves m l ns = (l' : Lru) × (m ≡ done l') × IsList l' ns × SameKeys l l'

is_at-first :
    (n : ℕ) (xs : List ℕ) (p : ℕ) (ys : List ℕ) (q : Option ℕ)
    → Absent n (xs ++ p ∷ ys)
    → is_at (first (xs ++ p ∷ ys) q) n ≡ false
is_at-first n [] p ys q a = ground arith
is_at-first n (x ∷ xs) p ys q a = ground arith

is_at-final : (n m : ℕ) (ns : List ℕ) → Absent n (m ∷ ns) → is_at (final (some m) ns) n ≡ false
is_at-final n m [] a = ground arith
is_at-final n m (k ∷ ns) a = is_at-final n k ns a.1

-- The head of a list is that of its nonempty front.
first-append :
    (xs : List ℕ) (p : ℕ) (ys : List ℕ)
    → first ((xs ++ p ∷ []) ++ ys) none ≡ first (xs ++ p ∷ []) none
first-append [] p ys = refl
first-append (x ∷ xs) p ys = refl

SameKeys-set_prev :
    (l : Lru) (m k : ℕ) (p : Option ℕ) → (set_prev l.nodes m p k).key ≡ (l.nodes k).key
unfolding set_prev
SameKeys-set_prev l m k p = ground arith

SameKeys-set_next :
    (l : Lru) (m k : ℕ) (p : Option ℕ) → (set_next l.nodes m p k).key ≡ (l.nodes k).key
unfolding set_next
SameKeys-set_next l m k p = ground arith

keys_of_two :
    (l : Lru) (p m k : ℕ)
    → (set_prev (set_next l.nodes p (some m)) m (some p) k).key ≡ (l.nodes k).key
unfolding set_prev set_next
keys_of_two l p m k = ground arith

between_runs :
    (l : Lru) (n : ℕ) (xs : List ℕ) (p m : ℕ) (ys : List ℕ)
    → l.head ≡ first ((xs ++ p ∷ []) ++ n ∷ m ∷ ys) none
    → l.tail ≡ final none ((xs ++ p ∷ []) ++ n ∷ m ∷ ys)
    → (l.nodes n).prev ≡ final none (xs ++ p ∷ [])
    → (l.nodes n).next ≡ some m
    → Absent n (xs ++ p ∷ [])
    → Absent n (m ∷ ys)
    → remove_node n l
      ≡ done (record l { nodes = set_prev (set_next l.nodes p (some m)) m (some p) })
unfolding remove_node set_next
between_runs l n xs p m ys head tail prev next out_zs out_ys =
    let at_p : (l.nodes n).prev ≡ some p = prev ∙ final-append none xs p [] in
    let not_head : is_at l.head n ≡ false =
      rw (head ∙ first-append xs p (n ∷ m ∷ ys)) (is_at-first n xs p [] none out_zs) in
    let not_tail : is_at l.tail n ≡ false =
      rw (tail ∙ final-append none (xs ++ p ∷ []) n (m ∷ ys)) (is_at-final n m ys out_ys) in
    let p_ne_n : p ≢ n = (All-append_right (λ x. x ≢ n) xs (p ∷ []) out_zs).0 in
    ground (arith, at_p, next, not_head, not_tail)

module _ (l : Lru) (n : ℕ) where
  pub remove-only : IsList l (n ∷ []) → Leaves (remove_node n l) l []
  unfolding remove_node
  remove-only r = (
    record l { head = none; tail = none },
    ground arith,
    record { at_head = refl; at_tail = refl; linked = tt; distinct = tt; allocated = tt },
    record { key_at = λ k. refl; fresh = refl },
  )

  pub remove-first :
      (m : ℕ) (ys : List ℕ) → IsList l (n ∷ m ∷ ys) → Leaves (remove_node n l) l (m ∷ ys)
  unfolding remove_node
  remove-first m ys r =
      let here = is_at-final n m ys (r.distinct.0) in
      (
        record l { head = some m; nodes = set_prev l.nodes m none },
        ground (arith, r.at_head, r.at_tail, r.linked.1, here),
        record {
          at_head = refl;
          at_tail = r.at_tail;
          linked = Segment-set_prev l.nodes (some n) none m ys none r.distinct.1.0 r.linked.2;
          distinct = r.distinct.1;
          allocated = r.allocated.1;
        },
        record { key_at = λ k. SameKeys-set_prev l m k none; fresh = refl },
      )

  pub remove-last :
      (xs : List ℕ) (p : ℕ)
      → IsList l ((xs ++ p ∷ []) ++ n ∷ [])
      → Leaves (remove_node n l) l ((xs ++ p ∷ []) ++ [])
  unfolding remove_node
  remove-last xs p r =
      let zs = xs ++ p ∷ [] in
      let (rest, out) = Distinct-middle zs n [] r.distinct in
      let (before, here) = Segment-split l.nodes none zs (n ∷ []) none r.linked in
      let out_zs = All-append_left (λ x. x ≢ n) zs [] out in
      let (dxs, p_out) = Distinct-middle xs p [] (Distinct-left zs (n ∷ []) r.distinct) in
      (
        record l { tail = some p; nodes = set_next l.nodes p none },
        ground (
          arith,
          r.at_head,
          r.at_tail,
          here.0,
          is_at-first n xs p [] none out_zs,
          first-append xs p (n ∷ []),
          final-append none xs p [],
          final-append none zs n [],
        ),
        record {
          at_head = r.at_head ∙ first-append xs p (n ∷ []) ∙ sym (first-append xs p []);
          at_tail = sym (rw append-nil (final-append none xs p []));
          linked = rw append-nil (
              Segment-set_next l.nodes none xs p (some n) none
                (All-append_left (λ x. x ≢ p) xs [] p_out) before);
          distinct = rest;
          allocated = All-middle (λ x. x < l.fresh) zs n [] r.allocated;
        },
        record { key_at = λ k. SameKeys-set_next l p k none; fresh = refl },
      )

  pub remove-between :
      (xs : List ℕ) (p m : ℕ) (ys : List ℕ)
      → IsList l ((xs ++ p ∷ []) ++ n ∷ m ∷ ys)
      → Leaves (remove_node n l) l ((xs ++ p ∷ []) ++ m ∷ ys)
  unfolding remove_node
  remove-between xs p m ys r =
      let zs = xs ++ p ∷ [] in
      let h = set_next l.nodes p (some m) in
      let (rest, out) = Distinct-middle zs n (m ∷ ys) r.distinct in
      let (before, here) = Segment-split l.nodes none zs (n ∷ m ∷ ys) none r.linked in
      let out_zs = All-append_left (λ x. x ≢ n) zs (m ∷ ys) out in
      let out_ys = All-append_right (λ x. x ≢ n) zs (m ∷ ys) out in
      let (_, m_out) = Distinct-middle zs m ys rest in
      let (_, p_out) =
        Distinct-middle xs p (m ∷ ys)
          (subst (λ (ws : List ℕ). Distinct ws) (append_assoc xs (p ∷ []) (m ∷ ys)) rest) in
      let p_front = All-append_left (λ x. x ≢ p) xs (m ∷ ys) p_out in
      let p_back = All-append_right (λ x. x ≢ p) xs (m ∷ ys) p_out in
      (
        record l { nodes = set_prev h m (some p) },
        between_runs l n xs p m ys r.at_head r.at_tail here.0 here.1 out_zs out_ys,
        record {
          at_head = r.at_head ∙ first-append xs p (n ∷ m ∷ ys) ∙ sym (first-append xs p (m ∷ ys));
          at_tail = r.at_tail ∙ final-append none zs n (m ∷ ys) ∙ sym (final-append none zs m ys);
          linked =
              Segment-join (set_prev h m (some p)) none zs (m ∷ ys) none
                (Segment-set_prev_elsewhere h zs (some m) m (some p)
                  (All-append_left (λ x. x ≢ m) zs ys m_out)
                  (Segment-set_next l.nodes none xs p (some n) (some m) p_front before))
                (rw (final-append none xs p []) (
                  Segment-set_prev h (some n) (some p) m ys none
                    (All-append_right (λ x. x ≢ m) zs ys m_out)
                    (Segment-set_next_elsewhere l.nodes (some n) (m ∷ ys) p (some m) p_back
                      here.2)));
          distinct = rest;
          allocated = All-middle (λ x. x < l.fresh) zs n (m ∷ ys) r.allocated;
        },
        record { key_at = λ k. keys_of_two l p m k; fresh = refl },
      )
