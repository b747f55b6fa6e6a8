-- ===== src/Api/Heap.antt =====
-- The memory that the pointers and the slices of api/v1beta1 point into.
use cpodoperator.Base.{
  ◌≢◌, ◌⊎◌, inl, inr, ℕ, suc, ◌≤◌, ◌<◌, String, ◌≡◌, refl, ap, ◌∙◌, Option, none, some, List, [],
  ◌∷◌, All, ◌==◌, if◌then◌else◌, nat_eq, arith,
}
use cpodoperator.Api.Job.{JobCondition, Time}

abbrev pub Address : Type 0
Address = ℕ

-- What stands at an address: what a pointer points to, or the array of a slice.
pub data Cell : Type 0 where
  of_time : Time → Cell
  of_text : String → Cell
  of_conditions : List JobCondition → Cell

-- The addresses from `next` on are free.
pub record Heap : Type 0 where
  pub next : Address
  pub cells : Address → Option Cell

unfoldable pub write : Heap → Address → Cell → Heap
write h a c = record h { cells = λ b. if b == a then some c else h.cells b }

-- `new`, and `make`
unfoldable pub alloc : Heap → Cell → Heap × Address
alloc h c =
    (record { next = suc h.next; cells = λ b. if b == h.next then some c else h.cells b }, h.next)

unfoldable pub write_all : Heap → List (Address × Cell) → Heap
write_all h [] = h
write_all h ((a, c) ∷ ws) = write_all (write h a c) ws

abbrev pub pointed : Option Cell → Option (Option Cell)
pointed none = none
pointed (some c) = some (some c)

-- What a pointer or a slice holds: none for nil. Where it points nowhere, there is no answer.
unfoldable pub content : Heap → Option Address → Option (Option Cell)
content h none = some none
content h (some a) = pointed (h.cells a)

abbrev pub InHeap : Heap → Option Address → Type 0
InHeap h none = Unit
InHeap h (some a) = a < h.next

-- The pointer is nil or to memory from `n` on.
abbrev pub From : ℕ → Option Address → Type 0
From n none = Unit
From n (some a) = n ≤ a

-- Memory was added, and the old is as it was.
pub record Extends (h h' : Heap) : Type 0 where
  pub grows : h.next ≤ h'.next
  pub keeps : (a : Address) → a < h.next → h'.cells a ≡ h.cells a

pub Extends-refl : (h : Heap) → Extends h h
Extends-refl h = record { grows = omega arith; keeps = λ a k. refl }

pub Extends-trans : (h h' h'' : Heap) → Extends h h' → Extends h' h'' → Extends h h''
Extends-trans h h' h'' e f = record {
  grows = omega (arith, e.grows, f.grows);
  keeps = λ a k. f.keeps a (omega (arith, e.grows)) ∙ e.keeps a k;
}

pub alloc-Extends : (h : Heap) (c : Cell) → Extends h (alloc h c).0
unfolding alloc
alloc-Extends h c = record { grows = omega arith; keeps = λ a k. ground arith }

pub InHeap-Extends : (h h' : Heap) (p : Option Address) → Extends h h' → InHeap h p → InHeap h' p
InHeap-Extends h h' none e k = tt
InHeap-Extends h h' (some a) e k = omega (arith, e.grows)

pub content-Extends :
    (h h' : Heap) (p : Option Address) → Extends h h' → InHeap h p → content h' p ≡ content h p
unfolding content
content-Extends h h' none e k = refl
content-Extends h h' (some a) e k = ap pointed (e.keeps a k)

-- The address is none of those that are in use in the second memory and not in the first.
abbrev pub Outside : Heap → Heap → Address → Type 0
Outside g h a = (a < g.next) ⊎ (h.next ≤ a)

write-other : (h : Heap) (a b : ℕ) (c : Cell) → a ≢ b → (write h a c).cells b ≡ h.cells b
unfolding write
write-other h a b c k = ground arith

apart : (g h : Heap) (a b : Address) → Outside g h a → g.next ≤ b → b < h.next → a ≢ b
apart g h a b (inl k) l m = omega arith
apart g h a b (inr k) l m = omega arith

content-write :
    (g h e : Heap) (a : Address) (c : Cell) (p : Option Address)
    → Outside g h a
    → From g.next p
    → InHeap h p
    → content (write e a c) p ≡ content e p
unfolding content
content-write g h e a c none k l m = refl
content-write g h e a c (some b) k l m = ap pointed (write-other e a b c (apart g h a b k l m))

-- Writes elsewhere leave what came into use between two memories.
pub content-write_all :
    (g h e : Heap) (ws : List (Address × Cell)) (p : Option Address)
    → All (λ w. Outside g h w.0) ws
    → From g.next p
    → InHeap h p
    → content (write_all e ws) p ≡ content e p
unfolding write_all
content-write_all g h e [] p k l m = refl
content-write_all g h e ((a, c) ∷ ws) p (k, ks) l m =
    content-write_all g h (write e a c) ws p ks l m ∙ content-write g h e a c p k l m
