-- ===== src/Sync/Observer/Nodes.antt =====
-- internal/synchronizer/cpodobserver.go: `getResourceInfo`, with the resources of
-- pkg/resource/resource.go. The fields of a node that nothing sets are left out.
pub mod Summaries
use mathlib.Core.Option
use cpodoperator.Base.{
  ℕ, zero, suc, ◌+◌, ◌*◌, ◌-◌, ◌<>◌, String, Bool, true, false, ◌&&◌, not, Option, none, some, List,
  [], ◌∷◌, ◌++◌, map, ◌==◌, ltb, leb, if◌then◌else◌, string_eq, nat_eq,
}
use cpodoperator.Base.Int.{ℤ, pos, negsuc, ◌+ℤ◌, to_int64, div_ℤ, pos_part, sub_ℕ}
use cpodoperator.Kube.Objects.{Node}
use cpodoperator.Sync.Text.{codes}

-- `strconv.Atoi` with its error dropped: 0 where the text is no number, and the nearest number of
-- the range of int64 where the number is too large.
pub data Digits : Type 0 where
  bad : Digits
  huge : Digits
  number : ℕ → Digits

-- The digits of a number below 2 ^ 64, read from the left.
unfoldable scan : ℕ → List ℕ → Digits
scan n [] = number n
scan n (c ∷ cs) =
    let m = n * 10 + (c - b'0') in
    let rest = scan m cs in
    if leb b'0' c && leb c b'9' then (if leb m 18446744073709551615 then rest else huge) else bad

scan_some : List ℕ → Digits
scan_some [] = bad
scan_some (c ∷ cs) = scan 0 (c ∷ cs)

positive : Digits → ℤ
positive bad = pos 0
positive huge = pos 9223372036854775807
positive (number n) = if leb n 9223372036854775807 then pos n else pos 9223372036854775807

negative : Digits → ℤ
negative bad = pos 0
negative huge = negsuc 9223372036854775807
negative (number n) = if leb n 9223372036854775808 then sub_ℕ 0 n else negsuc 9223372036854775807

atoi_codes : List ℕ → ℤ
atoi_codes [] = pos 0
atoi_codes (c ∷ cs) =
    if c == b'-'
    then negative (scan_some cs)
    else if c == b'+'
    then positive (scan_some cs)
    else positive (scan_some (c ∷ cs))

unfoldable pub atoi : String → ℤ
unfolding atoi_codes scan_some scan positive negative
atoi s = atoi_codes (codes s)

-- `resource.GPUState`, of which only zero values are made.
pub data GpuState : Type 0 where
  unset : GpuState

-- `resource.GPUInfo`
pub record GpuInfo : Type 0 where
  pub status : String
  pub vendor : String
  pub prod : String
  pub driver : String
  pub cuda : String
  pub mem_size : ℤ

-- `resource.NodeInfo`
pub record NodeInfo : Type 0 where
  pub name : String
  pub status : String
  pub arch : String
  pub kernel_version : String
  pub linux_dist : String
  pub gpu_info : GpuInfo
  pub gpu_total : ℤ
  pub gpu_allocatable : ℤ
  pub gpu_state : List GpuState
  pub cores : ℤ
  pub mem_size : ℤ

abbrev pub Labels : Type 0
Labels = List (String × String)

unfoldable pub find_label : String → Labels → Option String
find_label k [] = none
find_label k ((j, v) ∷ labels) = if j == k then some v else find_label k labels

-- A read of a map: a missing key reads as the empty text.
unfoldable pub label : String → Labels → String
unfolding find_label
label k labels = elim (find_label k labels) [ none ↦ "" | some v ↦ v ]

states : ℕ → List GpuState
states zero = []
states (suc n) = unset ∷ states n

abbrev no_gpu : GpuInfo
no_gpu = record { status = ""; vendor = ""; prod = ""; driver = ""; cuda = ""; mem_size = pos 0 }

abbrev of_node : Node → NodeInfo
of_node node = record {
  name = node.name;
  status = label "status" node.labels;
  arch = label "kubernetes.io/arch" node.labels;
  kernel_version = label "feature.node.kubernetes.io/kernel-version.full" node.labels;
  linux_dist = node.os_image;
  gpu_info = no_gpu;
  gpu_total = pos 0;
  gpu_allocatable = pos 0;
  gpu_state = [];
  cores = node.cpu;
  mem_size = div_ℤ (div_ℤ node.memory 1024) 1024;
}

unfoldable pub gpu_info_of : Labels → String → GpuInfo
gpu_info_of labels prod = record {
  status = if label "nvidia.com/gpu.present" labels == "true" then "normal" else "abnormal";
  vendor = "nvidia";
  prod = prod;
  driver =
      label "nvidia.com/cuda.driver.major" labels
      <> "."
      <> label "nvidia.com/cuda.driver.minor" labels
      <> "."
      <> label "nvidia.com/cuda.driver.rev" labels;
  cuda =
      label "nvidia.com/cuda.runtime.major" labels
      <> "."
      <> label "nvidia.com/cuda.runtime.minor" labels;
  mem_size = atoi (label "nvidia.com/gpu.memory" labels);
}

with_gpus : Node → String → NodeInfo
unfolding gpu_info_of states
with_gpus node prod =
    let count = atoi (label "nvidia.com/gpu.count" node.labels) in
    record (of_node node) {
      gpu_info = gpu_info_of node.labels prod;
      gpu_total = count;
      gpu_state = states (pos_part count);
      gpu_allocatable = elim node.allocatable_gpus [ none ↦ pos 0 | some n ↦ n ];
    }

-- The body of the loop over the nodes.
unfoldable pub node_info : Node → NodeInfo
unfolding with_gpus
node_info node = elim (find_label "nvidia.com/gpu.product" node.labels) [
  | none ↦ of_node node
  | some prod ↦ with_gpus node prod
]

-- A kind of GPU: the vendor and the product.
abbrev pub Kind : Type 0
Kind = String × String

abbrev pub kind_of : NodeInfo → Kind
kind_of node = (node.gpu_info.vendor, node.gpu_info.prod)

abbrev pub same_kind : Kind → Kind → Bool
same_kind (v, p) (v', p') = v == v' && p == p'

abbrev pub Stat : Type 0
Stat = List (Kind × ℤ)

unfoldable pub read_stat : Kind → Stat → Option ℤ
read_stat k [] = none
read_stat k ((j, n) ∷ stat) = if same_kind j k then some n else read_stat k stat

abbrev pub or_zero : Option ℤ → ℤ
or_zero none = pos 0
or_zero (some n) = n

-- `stat[k] += n`
unfoldable pub add_stat : Kind → ℤ → Stat → Stat
add_stat k n [] = (k, to_int64 (pos 0 +ℤ n)) ∷ []
add_stat k n ((j, m) ∷ stat) =
    let rest = add_stat k n stat in
    if same_kind j k then (j, to_int64 (m +ℤ n)) ∷ stat else (j, m) ∷ rest

-- The loop that fills one of the two maps, `amount` being what it adds of a node.
unfoldable pub stat_nodes : (NodeInfo → ℤ) → List NodeInfo → Stat → Stat
unfolding add_stat
stat_nodes amount [] stat = stat
stat_nodes amount (node ∷ nodes) stat =
    stat_nodes amount nodes (add_stat (kind_of node) (amount node) stat)

-- `resource.GPUSummary`
pub record GpuSummary : Type 0 where
  pub vendor : String
  pub prod : String
  pub total : ℤ
  pub allocatable : ℤ

summary_of : Stat → Kind × ℤ → GpuSummary
unfolding read_stat
summary_of alloc ((vendor, prod), n) = record {
  vendor = vendor;
  prod = prod;
  total = n;
  allocatable = or_zero (read_stat (vendor, prod) alloc);
}

unfoldable pub gpu_summaries : List NodeInfo → List GpuSummary
unfolding stat_nodes summary_of
gpu_summaries nodes =
    map (summary_of (stat_nodes (λ n. n.gpu_allocatable) nodes []))
      (stat_nodes (λ n. n.gpu_total) nodes [])
