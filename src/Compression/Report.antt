-- ===== src/Compression/Report.antt =====
-- report.go: the nodes that can go, with the counts of the run.
pub mod Print
use kluster_capacity.Base.{ℕ, String, List}
use kluster_capacity.Base.Monad.{Result, ok, err, panic, stuck}
use kluster_capacity.Status.{Status}
use kluster_capacity.StopReason.{StopReason, get_main_stop_reason}

-- ClusterCompressionReviewReviewStatus, less its time stamp, is all that a review holds.
pub record ReviewStatus : Type 0 where
  pub stop_reason : StopReason
  pub scale_down_node_names : List String
  pub select_node_count : ℕ
  pub scheduler_count : ℕ
  pub failed_scheduler_count : ℕ

abbrev with_reason : Status → Result StopReason → Result ReviewStatus
with_reason status (ok reason) = ok (record {
  stop_reason = reason;
  scale_down_node_names = status.nodes_to_scale_down;
  select_node_count = status.select_node_count;
  scheduler_count = status.scheduler_count;
  failed_scheduler_count = status.failed_scheduler_count;
})
with_reason status (err m) = err m
with_reason status panic = panic
with_reason status stuck = stuck

unfoldable pub get_review_status : Status → Result ReviewStatus
unfolding get_main_stop_reason
get_review_status status = with_reason status (get_main_stop_reason status.stop_reason)
