-- ===== src/Lib.antt =====
-- A verification library of the semiconductor intelligence platform.
--
-- The platform (semi_intel/) collects signal items from feeds, clusters them into candidates,
-- promotes candidates to stories and notifies the editors; a scheduler runs the pipeline and the
-- daily jobs. A crawler (src/oem_radar/) watches the shops of manufacturers. The library models the
-- parts that decide what may be delivered, who may run, and what is recorded.
--
-- Signals (semi_intel/signals/source_lifecycle.py)
--   Source: a source, its JSON metadata and the calls that change its watermarks. Metadata is
--     modelled decoded: an object, an unusable text, or none; a text that reads as a time is a
--     `stamp`. Times are microseconds, compared as natural numbers.
--   Admission: item_is_delivery_admitted and the gates over a candidate's members.
--   Lifecycle: runs of the calls that change one source.
--   Watermark: the membership snapshots that notifications and automatic promotion keep, over the
--     table notification_event_states.
--   Registry: register_reddit_hardware over the table of sources.
--   Independence: _UnionFind, group_items and recompute_independence_groups of
--     semi_intel/signals/independence.py; URL normalisation, str.lower, the substring test and the
--     regular expression for attributions are parameters.
--   Aging: classify and classify_many of semi_intel/signals/aging.py, for one candidate. The rounded
--     age in days and the texts are left out.
--   Origins: build_origin_graph of semi_intel/signals/origin_graph.py.
-- Candidates (semi_intel/signals/candidate_state.py and candidate_qc.py)
--   State: the transitions of a candidate and the two recurring jobs. An attention score is its
--     rank, since it is only compared.
--   Review: submit_candidate_review, with the rows that other sessions commit meanwhile as an
--     argument, the queue of candidates without a review, and its pages.
--   Promotion: check_automatic_eligibility and run_automatic_promotion of
--     semi_intel/signals/promotion.py, over candidates, promotion events and the snapshots of
--     Signals/Watermark. The story that a promotion creates is a parameter.
-- Operations (semi_intel/operations/scheduler.py)
--   Lease: LeaseManager over the tables of leases and runs; row ids and tokens come from counters.
--   Runs: run_job, retry and reconcile_stale_runs. `_execute` is a parameter: how the body ends and
--     what it and other sessions do to the two tables. The calls of the qualification service are
--     left out, and a body is taken to leave the row of its job in the table.
--   Clock: _daily_due, most_recent_daily_boundary, and quiet_hours_end of
--     semi_intel/notifications/delivery.py. A time zone is a pair of functions; a theorem on times
--     assumes a zone without clock changes, named IsFixed.
--   Cycle: cycle and _daily_job_due.
--   Automation: effective_automation_state.
-- Notifications (semi_intel/notifications/delivery.py and service.py)
--   Attempt: the settings, targets, attempts and adapters.
--   Delivery: _deliver and _deferred over the table of attempts. The adapter and `safe_error` are
--     parameters; the calls that adapters receive are recorded.
--   Emission: _emit of semi_intel/notifications/service.py and the handling of notifications.
--   Incidents: _provider_events, over runs, incidents and the notifications of Emission.
--   Crossings: _candidate_events for one candidate, and reset_activation. Its four event states are a
--     record, and scores are ranks on a fixed scale.
-- Graph (semi_intel/graph/queries.py)
--   Entities: the tables of entities and relationships.
--   Related: related_entities, the breadth-first search; Relation: find_by_relation.
-- Radar (src/oem_radar/core/run_lock.py and feedback.py)
--   RunLock: processes that take one file-system call at a time, in any order; the answers of the
--     operating system on pids, and whether it removes the file, are parameters.
--   Feedback: the vocabulary of alert reviews, the statuses of rule suggestions, and in Models the
--     validators of both. Python's str.strip is a parameter.
-- Prelude holds the tests on numbers, the lists, Python's dict, and the lemmas on rows. Each part
-- has a module Tests with its concrete runs.
--
-- Fuel: `acquire` of Radar/RunLock/Reclaim has six steps; the search of Graph/Related has one round
-- more than there are entities, since each enters the queue at most once; `find` of
-- Signals/Independence has as many steps as unions are called, since each lengthens a path by one at
-- most. The theorems there show that this is enough.
--
-- Not modelled: the qualification service, logs and summary texts, evidence and stories, merging of
-- candidates, clustering and scoring (floating point), feed and shop clients, the web application and
-- the command line.
pub mod Prelude
pub mod Signals
pub mod Candidates
pub mod Operations
pub mod Notifications
pub mod Radar
pub mod Graph
