-- ===== src/Lib.antt =====
-- A verification library of the Argo CD autoscaler, which spreads the clusters of an Argo CD
-- installation over the replicas of its application controller.
--
-- The program is a chain of Kubernetes controllers, each of which reads the status of the stage
-- before it and writes its own: a poll takes metrics of each cluster (a shard), a normalizer scales
-- them, a load index makes one number of them, a partition packs the shards into replicas, an
-- evaluation holds the partition back until it is stable, and the replica set scaler has a shard
-- manager write the number of its replica into the Secret of each cluster and scales the
-- StatefulSet. The library models all of these stages.
--
-- Base holds the shared names, lists and tests; Text the texts of the program as lists of bytes
-- with what it takes from strconv and fmt, and Text/Sets the sorted sets of them; Sorting what the
-- package sort promises; Arithmetic the quantities and float64, as a record that the definitions
-- take as a parameter, with an instance over whole numbers on which they run.
--
-- Outcomes: what a call comes to (a value, an error or a panic), for the partitioner and the
--   normalizer, which read slices at indices that they compute.
-- Api: api/autoscaler/common, the data of the stages, and ReplicaList.SerializeToString (Api/Serialize).
-- Maps: Go maps with text keys as association lists; Grouping: lists grouped by a key.
-- Polling: pollers/prometheus, Poll; Polling/Reconcile is
--   internal/controller/autoscaler/prometheuspoll_controller.go.
-- Normalizing: normalizers/robustscaling, Normalize with its medians, quartiles and offset;
--   Normalizing/Reconcile is internal/controller/autoscaler/robustscalingnormalizer_controller.go.
-- LoadIndexing: loadindexers/weightedpnorm, Calculate and loadIndex; LoadIndexing/Reconcile is
--   internal/controller/autoscaler/weightedpnormloadindex_controller.go.
-- Partition: partitioners/longestprocessingtime, Partition and Sort; Partition/Reconcile is
--   internal/controller/autoscaler/longestprocessingtimepartition_controller.go.
-- Evaluation: the periods, the history and the election of
--   internal/controller/autoscaler/mostwantedtwophasehysteresisevaluation_controller.go;
--   Evaluation/Reconcile is its Reconcile.
-- ShardManager: the loops of
--   internal/controller/autoscaler/secrettypeclustershardmanager_controller.go;
--   ShardManager/Reconcile is its Reconcile.
-- Scaler: resolving the mode, ScaleTo, RSControllerIsZero and
--   RSControllerNeedsDesiredStateEnforcement of
--   internal/controller/autoscaler/replicasetscaler_controller.go; Scaler/Reconcile is its
--   Reconcile with EnforceRSControllerDesiredState. Scaler/Rollout runs its passes between the steps
--   of the shard manager and of the stateful set.
-- Controller: conditions, passes and calls; Controller/RateLimit is the start of every Reconcile.
-- Watch: the handler that turns an event into requests, mapLoadIndexProvider of
--   internal/controller/autoscaler/longestprocessingtimepartition_controller.go; Watch/Handlers those
--   of the other controllers; Watch/Registry internal/controller/autoscaler/controllers.go;
--   Watch/Setup SetupWithManager of every controller; Watch/Lookup findByRef of
--   internal/controller/autoscaler/ref_finder.go.
-- Pipeline: the stages from the poll to the partition and the shard manager, each on what the one
--   before it returned.
-- Examples: runs of the definitions on small inputs.
-- The other modules below these hold proofs, and are named for what they prove.
--
-- A pass of Reconcile is a function from the objects that it reads to the list of the calls that it
-- makes, in their order, and its outcome. What the API server answers to a call is a parameter, so
-- every statement on a pass is for all answers. Objects that findByRef finds, the clock, sha256,
-- the order in which Go walks a map and the sorting algorithm are parameters too; what is assumed
-- of one is a hypothesis of the theorem that needs it. A Go map is an association list.
-- Numbers are natural numbers; an int32 is its bit pattern, with its wrap-around written out where
-- the code counts. `search` runs on fuel, the distance of its bounds, which halves at each step;
-- `digits` on the number plus one, which falls at each step.
-- The recursion of the other loops is on the list that the loop walks, so they end.
--
-- Not modelled: logs, and the messages and times of conditions; the options of the controller
-- builder and the predicates on its events; the locks, which make a function one step; the getters
-- of the resources, which are fields; the command cmd/main.go, which reads flags and starts the
-- manager; the generated deep copies; the test harness.
pub mod Base
pub mod Text
pub mod Sorting
pub mod Outcomes
pub mod Arithmetic
pub mod Api
pub mod Partition
pub mod Controller
pub mod Evaluation
pub mod Scaler
pub mod ShardManager
pub mod Maps
pub mod Watch
pub mod Grouping
pub mod LoadIndexing
pub mod Normalizing
pub mod Polling
pub mod Pipeline
pub mod Examples
