-- ===== src/Api/Copies/Kept.antt =====
-- A deep copy of api/v1beta1/zz_generated.deepcopy.go has the value that was copied, and keeps it.
use cpodoperator.Base.{
  ℕ, ◌≤◌, ◌<◌, ◌≡◌, refl, ap, ◌∙◌, Option, none, some, List, [], ◌∷◌, map, All, arith,
}
use cpodoperator.Api.Job.{JobCondition}
use cpodoperator.Api.Heap.{
  Address, Cell, of_time, of_text, of_conditions, Heap, alloc, write_all, content, InHeap,
  InHeap-Extends, Outside, From, Extends, Extends-refl, alloc-Extends, content-Extends,
  content-write_all,
}
use cpodoperator.Api.Copies.{copy_condition, copy_cell, copy_content, copy_field}

map-copy_condition : (cs : List JobCondition) → map copy_condition cs ≡ cs
unfolding copy_condition
map-copy_condition [] = refl
map-copy_condition (c ∷ cs) = ap (λ l. c ∷ l) (map-copy_condition cs)

copy_cell-same : (c : Cell) → copy_cell c ≡ c
unfolding copy_cell
copy_cell-same (of_time t) = refl
copy_cell-same (of_text t) = refl
copy_cell-same (of_conditions cs) = ap of_conditions (map-copy_condition cs)

-- The pointer or the slice is nil, or to memory in use.
abbrev pub IsWhole : Heap → Option Address → Type 0
IsWhole h none = Unit
IsWhole h (some a) = (a < h.next) × (c : Cell) × (h.cells a ≡ some c)

IsWhole-InHeap : (h : Heap) (p : Option Address) → IsWhole h p → InHeap h p
IsWhole-InHeap h none w = tt
IsWhole-InHeap h (some a) w = w.0

IsWhole-Extends : (h h' : Heap) (p : Option Address) → Extends h h' → IsWhole h p → IsWhole h' p
IsWhole-Extends h h' none e w = tt
IsWhole-Extends h h' (some a) e (k, c, same) = (omega (arith, e.grows), c, e.keeps a k ∙ same)

From-le : (m n : ℕ) (p : Option Address) → m ≤ n → From n p → From m p
From-le m n none k l = tt
From-le m n (some a) k l = omega arith

-- What one field's copy is, in the memory after it.
record IsCopy (h : Heap) (p : Option Address) (h' : Heap) (q : Option Address) : Type 0 where
  extends : Extends h h'
  same : content h' q ≡ content h p
  from : From h.next q
  in_heap : InHeap h' q

copied_cell-IsCopy :
    (h : Heap) (a : Address) (c : Cell)
    → h.cells a ≡ some c
    → IsCopy h (some a) (copy_content h (some a) (some c)).0 (copy_content h (some a) (some c)).1
unfolding copy_content alloc content
copied_cell-IsCopy h a c e = record {
  extends = alloc-Extends h (copy_cell c);
  same = ground (arith, e, copy_cell-same c);
  from = omega arith;
  in_heap = omega arith;
}

copy_field-IsCopy :
    (h : Heap) (p : Option Address) → IsWhole h p → IsCopy h p (copy_field h p).0 (copy_field h p).1
unfolding copy_field
copy_field-IsCopy h none w = record {
  extends = Extends-refl h;
  same = refl;
  from = tt;
  in_heap = tt;
}
copy_field-IsCopy h (some a) (k, c, e) = rw e (copied_cell-IsCopy h a c e)

-- The copy of a field that the memory `g` had, made in a memory `h` that extends `g`, holds what the
-- field held in `g`, when more was copied and then any memory but that of the copies was written to.
kept :
    (g h : Heap) (p : Option Address) (h' : Heap) (q : Option Address) (h'' : Heap)
    (ws : List (Address × Cell))
    → Extends g h
    → IsWhole g p
    → IsCopy h p h' q
    → Extends h' h''
    → All (λ w. Outside g h'' w.0) ws
    → content (write_all h'' ws) q ≡ content g p
kept g h p h' q h'' ws e whole copy later below =
    content-write_all g h'' h'' ws q below (From-le g.next h.next q e.grows copy.from)
      (InHeap-Extends h' h'' q later copy.in_heap)
    ∙ content-Extends h' h'' q later copy.in_heap
    ∙ copy.same
    ∙ content-Extends g h p e (IsWhole-InHeap g p whole)

-- What a deep copy promises. Of a struct that is whole it adds to the memory alone, and the copy reads
-- as the struct did in a memory `g` before, when more was copied and then any
-- memory but that of the copies was written to.
pub record IsDeep {S V : Type 0} (copy : Heap → S → Heap × S) (read : Heap → S → Option V)
    (Whole : Heap → S → Type 0) : Type 0 where
  pub extends : (h : Heap) (s : S) → Whole h s → Extends h (copy h s).0
  pub moved : (g h : Heap) (s : S) → Extends g h → Whole g s → Whole h s
  pub stays :
      (g h : Heap) (s : S) (h'' : Heap) (ws : List (Address × Cell))
      → Extends g h
      → Whole g s
      → Extends (copy h s).0 h''
      → All (λ w. Outside g h'' w.0) ws
      → read (write_all h'' ws) (copy h s).1 ≡ read g s

pub field-IsDeep : IsDeep copy_field content IsWhole
field-IsDeep = record {
  extends = λ h p w. let copy = copy_field-IsCopy h p w in copy.extends;
  moved = λ g h p e w. IsWhole-Extends g h p e w;
  stays = λ g h p h'' ws e w later below.
      kept g h p (copy_field h p).0 (copy_field h p).1 h'' ws e w
        (copy_field-IsCopy h p (IsWhole-Extends g h p e w)) later below;
}
