-- ===== src/Compression/Report/Print/Laws.antt =====
-- What is printed where nodes can be scaled down.
use kluster_capacity.Base.{String, ◌<>◌, ◌≡◌, ◌≢◌, false, [], ◌++◌, map, eq_iff, arith}
use kluster_capacity.Base.Monad.{ok}
use kluster_capacity.Print.{Output, Encoders}
use kluster_capacity.Print.Laws.{for_each-print}
use kluster_capacity.StopReason.{newline}
use kluster_capacity.Compression.Report.{ReviewStatus}
use kluster_capacity.Compression.Report.Print.{default_print, print_review}

-- In any format but json, and not in verbose mode: if nodes can be scaled down then what is printed is the names of
-- these nodes, in their order, each on a line, and nothing else.
pub print_review-names :
    (encoders : Encoders ReviewStatus) (format : String) (r : ReviewStatus) (out : Output)
    → format ≢ "json"
    → r.scale_down_node_names ≢ []
    → print_review encoders false format r out
      ≡ (ok tt, out ++ map (λ name. name <> newline) r.scale_down_node_names)
unfolding print_review default_print
print_review-names encoders format r out other some' =
    let each = for_each-print (λ name. name <> newline) r.scale_down_node_names out in
    ground (arith, eq_iff format "json")
