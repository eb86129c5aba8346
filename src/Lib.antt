-- ===== src/Lib.antt =====
-- Bucketeer's feature flags: what a flag is, how commands change it, and which variation a user
-- is given; the segments of users that flags refer to; the experiments and the goals that measure
-- them; and the rules of automatic operations.
--
-- The parts and their files:
--
-- * Feature/Model is the messages of proto/feature/*.proto with the errors of
--   pkg/feature/domain/feature.go. A pointer that the code may find nil is an Option;
--   enumerations are open, as in proto3. Feature/Lookup is findTarget, findVariation, findRule,
--   findClause, findPrerequisite and index. Feature/Settings, Targets, Rules, Clauses,
--   Variations, Prerequisites and Create are the methods of the type Feature: `rename` is Rename,
--   `add_rule` is AddRule, `remove_variation` is RemoveVariation, and so on; `new_feature` is
--   NewFeature. A method becomes a function from a feature to a Result: the new feature, a
--   returned error, or a run-time panic (an index out of range, a nil pointer). No method changes
--   the feature before it returns an error, so an error carries none.
-- * Feature/WellFormed states when a feature is consistent, and its children follow the
--   operations.
-- * Evaluation/Clause, Rule and Strategy are clause_evaluator.go, segment_evaluator.go,
--   rule_evaluator.go and strategy_evaluator.go of pkg/feature/domain. Evaluation/Assign is
--   assignUser of feature.go. Evaluation/Order is TopologicalSort and Evaluation/Evaluate is
--   EvaluateFeatures, of evaluation.go, with the digest of user_evaluations.go.
--   Evaluation/Rollout, Known, Assignment, Unweighted, Addition and the children of Order
--   prove what these promise.
-- * Command/Model, Handlers and Dispatch are FeatureCommandHandler of
--   pkg/feature/command/feature.go and detail.go: a handler changes the feature through the
--   operations above and records an event. Command/Consistency and Command/Events are about every
--   command at once.
-- * Api/Validation is pkg/feature/api/validation.go as far as it creates, archives and changes
--   features, with the identifiers' patterns in Api/Identifiers; Api/Targeting is the transaction
--   of UpdateFeatureTargeting in pkg/feature/api/feature.go, where the feature that is checked is
--   the one that is then changed. Api/Checks, Admitted and Stored follow the commands that the
--   checks let through; Prerequisites, DefaultStrategy and Creation are about what the checks
--   miss.
-- * Feature/LastUsed is pkg/feature/domain/feature_last_used_info.go; its child Span follows the
--   oldest and the latest client version.
-- * Publish is the `send` that the handlers below share: the event is made and given to the
--   publisher, and either may fail. Transaction is RunInTransaction of
--   pkg/storage/v2/mysql/client.go around the storage of pkg/experiment/storage/v2 and a handler;
--   Transaction/Laws, Kept and Exact are about what it commits and what it rolls back. Role is
--   pkg/role/role.go.
-- * Experiment/Model and Operations are pkg/experiment/domain/experiment.go, Command is
--   pkg/experiment/command/experiment.go, Api and Requests are pkg/experiment/api/experiment.go,
--   and Updater is the job of pkg/experiment/batch/job/experiment_status_updater.go. Lifecycle,
--   History, Events, Goals, Period, Stored, Updater/Paging and Updater/Due are about them.
-- * Goal is pkg/experiment/domain/goal.go and pkg/experiment/command/goal.go, Goal/Requests is
--   pkg/experiment/api/goal.go, and Goal/Edits follows a request that changes a goal.
-- * Segment/Model and Operations are pkg/feature/domain/segment.go and Segment/Command is
--   pkg/feature/command/segment.go; Sound, Edits, Fresh and Commands are about the ids in a
--   segment.
-- * AutoOps/Model and Operations are pkg/autoops/domain/auto_ops_rule.go and AutoOps/Command is
--   pkg/autoops/command/auto_ops_rule.go; Deletion, RoundTrip, Rates and Extraction are about the
--   clauses.
--   AutoOps/Execute is ExecuteAutoOps of pkg/autoops/api/api.go with operation.go,
--   AutoOps/Webhook is pkg/autoops/webhookhandler/evaluation.go, and AutoOps/Watcher is
--   pkg/opsevent/batch/job/datetime_watcher.go.
-- * Uuid is pkg/uuid/uuid.go, and Uuid/Valid compares what it makes with its own pattern.
-- * Tests has the samples and the theorems applied to them. Prelude has the results, the
--   integers, the searches in lists and their lemmas.
--
-- How they interact: a request is checked against the features stored, and its commands are
-- handled in turn. A command's handler calls one operation of the feature and then makes the
-- event from the feature that results. An evaluation sorts the features by their prerequisites,
-- assigns each of them in that order, and reads the variations given so far. A request on an
-- experiment or a goal checks the caller's role and its own fields, and then runs one transaction:
-- the row is read, the handler changes it and publishes, and the row is written back; a failure
-- rolls the rows back but not the events. The job lists the experiments page by page and calls
-- the same requests.
--
-- Conventions and bounds. int32 and int64 fields are integers; the arithmetic on them wraps
-- (`next_int32`, `sub_int64`). Maps are association lists or functions. The elements of slices
-- are pointers that are neither nil nor shared. `now` is the one reading of the clock in an
-- operation. EvaluateFeatures clears the name and the description of a variation inside the
-- feature it was given; here that shows in the evaluation only. ListSegmentIDs collects a map,
-- whose order is random; here the ids stand in the order of the rules. The recursive closure of
-- TopologicalSort takes fuel, one unit more than there are features: every nested call marks a
-- feature that had no mark, so this is enough. It would panic where the fuel runs out.
-- The loop over the pages of the job takes a unit for each page, and more units than there are
-- experiments are enough. The loop of DeleteClause over the clauses of an automatic operation
-- takes as many steps as there are clauses.
--
-- Parameters stand for code outside the repository: the float64 arithmetic and
-- strconv.ParseFloat, blang/semver, md5 and FNV (Evaluation/External, Feature/LastUsed.Semver),
-- strconv and encoding/json as the tests of a variation's value (Feature/Variations.Parsers), and
-- strings.TrimSpace (Command/Model.World). The random answers of crypto/rand and uuid.NewUUID and
-- the factory of events (protocol buffers marshalled under a new UUID) are parameters there too,
-- and in Publish.Outlet with the publisher. Transaction.Database has the answers of the
-- database, Role.Token and Account those of the account service, Experiment/Updater.Clients the
-- services that the job calls, AutoOps/Execute.Features and AutoOps/Watcher.Targets those of the
-- automatic operations, AutoOps/Webhook.Libraries gojq and encoding/json, and
-- AutoOps/Model.Packing the packing of google.protobuf.Any.
-- Evaluation/Rollout.FloatLaws, Transaction/Laws.DatabaseLaws, AutoOps/Extraction.PackingLaws and
-- Feature/LastUsed/Span.SemverLaws say what is asked of these.
--
-- Not modelled: Feature.Clone, the users of segments, the other requests of pkg/feature/api and of
-- pkg/autoops/api (which check for missing fields, and read or write the storage), the requests
-- that only list (they build SQL), webhooks and their commands, accounts,
-- environments, push, notification, the event pipeline, storage and transport, generated code and
-- the user interface.
pub mod Prelude
pub mod Feature
pub mod Evaluation
pub mod Command
pub mod Api
pub mod Role
pub mod Publish
pub mod Transaction
pub mod Experiment
pub mod Goal
pub mod Segment
pub mod AutoOps
pub mod Uuid
pub mod Tests
