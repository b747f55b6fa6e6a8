-- ===== src/Sync/Observer/Nodes/Summaries.antt =====
-- What the summaries of GPUs in internal/synchronizer/cpodobserver.go add up.
use mathlib.Core.Option
use cpodoperator.Base.{
  ◌≡◌, ◌∙◌, ap, refl, Option, none, some, List, [], ◌∷◌, map, arith, if◌then◌else◌, string_eq,
}
use cpodoperator.Base.Int.{ℤ, ◌+ℤ◌, to_int64}
use cpodoperator.Sync.Observer.Nodes.{
  NodeInfo, Kind, kind_of, same_kind, Stat, read_stat, or_zero, add_stat, stat_nodes, GpuSummary,
  summary_of, gpu_summaries,
}

read_stat-add_stat :
    (q k : Kind) (n : ℤ) (stat : Stat)
    → read_stat q (add_stat k n stat) ≡ (
        if same_kind k q
        then some (to_int64 (or_zero (read_stat q stat) +ℤ n))
        else read_stat q stat)
unfolding read_stat add_stat
read_stat-add_stat q k n [] = ground arith
read_stat-add_stat q k n ((j, m) ∷ stat) = ground (arith, read_stat-add_stat q k n stat)

-- The sum over the nodes of one kind, in the arithmetic of int64, from what there was before.
-- Without a node of the kind and without a sum before there is none.
abbrev pub tally : (NodeInfo → ℤ) → Kind → List NodeInfo → Option ℤ → Option ℤ
tally amount q [] sum = sum
tally amount q (node ∷ nodes) sum =
    tally amount q nodes
      (if same_kind (kind_of node) q then some (to_int64 (or_zero sum +ℤ amount node)) else sum)

read_stat-stat_nodes :
    (amount : NodeInfo → ℤ) (q : Kind) (nodes : List NodeInfo) (stat : Stat)
    → read_stat q (stat_nodes amount nodes stat) ≡ tally amount q nodes (read_stat q stat)
unfolding stat_nodes
read_stat-stat_nodes amount q [] stat = refl
read_stat-stat_nodes amount q (node ∷ nodes) stat =
    read_stat-stat_nodes amount q nodes (add_stat (kind_of node) (amount node) stat)
    ∙ ap (tally amount q nodes) (read_stat-add_stat q (kind_of node) (amount node) stat)

-- The first summary of a kind.
abbrev pub find_summary : Kind → List GpuSummary → Option GpuSummary
find_summary q [] = none
find_summary q (s ∷ ss) =
    let rest = find_summary q ss in if same_kind (s.vendor, s.prod) q then some s else rest

-- The summary of a kind by its two sums.
abbrev pub summary : Kind → ℤ → Option ℤ → GpuSummary
summary (vendor, prod) total allocatable = record {
  vendor = vendor;
  prod = prod;
  total = total;
  allocatable = or_zero allocatable;
}

find_summary-map :
    (q : Kind) (alloc stat : Stat)
    → find_summary q (map (summary_of alloc) stat)
      ≡ Option.map (λ n. summary q n (read_stat q alloc)) (read_stat q stat)
unfolding read_stat summary_of
find_summary-map q alloc [] = refl
find_summary-map q alloc ((j, n) ∷ stat) = ground (arith, find_summary-map q alloc stat)

-- There is a summary of a kind of GPU exactly if a node has that kind, and the total and the
-- allocatable number of the first one are the sums of those of all nodes of the kind, in the
-- arithmetic of int64.
pub gpu_summaries-tally :
    (nodes : List NodeInfo) (q : Kind)
    → find_summary q (gpu_summaries nodes)
      ≡ Option.map
          (λ n. summary q n (tally (λ node. node.gpu_allocatable) q nodes none))
          (tally (λ node. node.gpu_total) q nodes none)
unfolding gpu_summaries
gpu_summaries-tally nodes q =
    find_summary-map q (stat_nodes (λ n. n.gpu_allocatable) nodes [])
      (stat_nodes (λ n. n.gpu_total) nodes [])
    ∙ rw
        (
          read_stat-stat_nodes (λ node. node.gpu_allocatable) q nodes [],
          read_stat-stat_nodes (λ node. node.gpu_total) q nodes [],
        )
        refl
