-- ===== src/Lib.antt =====
-- A verification library for SES, the Smart Escalation System.
--
-- SES audits Excel workbooks of project plans: each sheet is checked by the audit engine of its
-- function, every finding is assigned to a manager, and a tracking entry per manager is walked
-- through an escalation ladder until the finding is resolved.
--
-- Base holds what the modules share: Boolean tests on numbers, lists, texts, JavaScript maps and
-- sets as lists, and thrown errors as results.
--
-- Project models packages/domain/src/project: the registry of audit functions (functions.ts is
-- Project.Functions) and the status of a manager in each function with its aggregate
-- (projectStatuses.ts is Project.Statuses; Project.Stored reads it from the
-- JSON column of a tracking entry, and Project.Stored.Json is that JSON).
--
-- Escalation models packages/domain/src/escalation: the stages and `transition`
-- (escalationStages.ts is Escalation.Stages), the occurrence levels over the history of uploads
-- (escalationLevels.ts is Escalation.Levels) and the board column of a tracking entry (tracking.ts
-- is Escalation.Tracking).
--
-- Js models the parts of JavaScript that the audit code uses: doubles (every finite double is a
-- whole multiple of 2 ^ -1074, so `finite z` stands for z * 2 ^ -1074 and comparison is comparison
-- of integers), cell values, `trim`, `join`, and the header normalisation with its regular
-- expressions, which is given by the words of the normalised text. What belongs to the language's
-- library and is not modelled (the formatting and parsing of numbers, case mapping, UTF-8 encoding
-- and the clock) is the record Js.Host, an argument of the definitions that use it.
--
-- Workbook and Workbook.Rows model the workbook of packages/domain/src/core/types.ts and the row
-- objects that the engines build from a sheet (`rowsToObjects`, `readCell`, `textValue`). Every
-- engine file has its own copy of these functions, with the same text; the copy in
-- functions-audit/function-rate is the one that is mapped. A row object is an association list, so
-- a header that is the name of a property of Object.prototype is not treated apart.
--
-- Audit models the findings and results (core/types.ts), the policy, and the keys of findings
-- (`createIssueKey` with its SHA-1, packages/domain/src/audit/auditEngine.ts), the comparison of two
-- results (`compareResults` is Audit.Compare) and the export of findings as comma-separated values
-- (`buildIssuesCsv` is Audit.Csv).
--
-- Engine models packages/domain/src/functions-audit: the loop that every engine repeats
-- (Engine.Loop), the search for the header row (Engine.Columns), the finding (Engine.Build), the
-- engines function-rate, internal-cost-rate, over-planning, missing-plan, master-data (with
-- bad-values.ts in Engine.BadValues) and opportunities, and the registry (index.ts is
-- Engine.Registry). The findings are pushed to one list that all sheets share, so the loops
-- pass that list on.
--
-- Engine.RunAudit models `runAudit` of packages/domain/src/audit/auditEngine.ts, the audit that is driven
-- by a policy instead of a function. Its rules (`buildAuditRules`) and readings of a row are
-- Engine.PolicyRules, its row objects, which number a header whose name is taken, are
-- Workbook.SuffixRows, and the default policy and its normalisation (auditPolicy.ts) are Audit.Defaults.
-- The number that a value other than a number, a text or a truth value has is an argument.
--
-- StageService models the verification of a tracking entry and its reversal (`verify` and
-- `revertVerification` of apps/api/src/modules/tracking/stage/tracking-stage.service.ts) after the
-- entry is loaded, with the row, the events, the log and the messages as one state.
--
-- Links models the signed links by which managers answer without an account
-- (apps/api/src/modules/signed-links): the tokens (signed-link-token.service.ts is Links.Tokens), the
-- look-up and the single use of a link (`peek` and `claim` of signed-link.service.ts), and the response
-- (`submit` of public-response.service.ts is Links.Response), with all tables that it writes as one
-- state. A transaction that throws gives an error and no new state. The signature, the hash, base 64
-- and JSON are the fields of Crypto; the ids and codes of new rows are left out.
--
-- Pilot models the rules that a language model proposes (packages/domain/src/ai-pilot): JSON as a data
-- type, the operators and the resolver of columns (Pilot.Operators), the validation with the
-- normalisation of the logic (specSchema.ts is Pilot.Spec), the evaluation on a row (evaluator.ts is Pilot.Evaluate)
-- and the merge of its result with that of an engine (merger.ts is Pilot.Merge). The depth of the source counts up to 2 and throws above it; the model counts the
-- levels that are left, from 3 down, which is what its recursion runs on. The conversion String(v) of
-- an array or an object is a field of Pilot.Platform; it may throw, and then the operator throws.
--
-- ManagerKey models the key under which a manager is tracked and the test of an e-mail address
-- (`managerKey`, `isValidEmail` of packages/domain/src/notifications/notificationBuilder.ts). The regular
-- expression of an address is a machine with four states, and the runs of other characters that become
-- dashes are given by the words between them.
--
-- Reconciler models the reconciliation of the tracking entries after an audit run
-- (apps/api/src/modules/tracking/status-reconciler.service.ts): the findings are counted by ManagerKey,
-- entries are made for new managers, and each entry's statuses go through Project.Stored,
-- Project.Statuses and back to JSON.
--
-- Presence models the registry of who is looking at which process
-- (apps/api/src/realtime/presence.registry.ts), with its two maps as one state.
--
-- AccessScope models what a member of a process may view or edit and how the scopes of a member are
-- replaced (`resolve` and `replaceMemberScopes` of apps/api/src/common/access-scope.service.ts).
--
-- Aggregator models the page of a process (`aggregateEscalations` of
-- apps/api/src/modules/escalations/escalations-aggregator.ts): the findings grouped by ManagerKey, joined
-- with the tracking entries, and their summary. The comparison of names by locale is an argument.
--
-- Sla models the engine that queues drafts for overdue entries
-- (apps/api/src/modules/escalations/sla-engine.service.ts, `enforce` and `handleEntry`), with the
-- entries, the events and the notices as one state.
--
-- Loops are structural recursion over the sheets, rows, columns, bytes or levels. The one loop on fuel
-- is the search for a free name in Workbook.SuffixRows: its fuel is the number of names of the row and one
-- more. Not modelled: the HTTP and database layers and the other services (apps/api), the web client
-- (apps/web), the Python sidecar (services/ai-sidecar), and the parts of packages/domain that are named
-- in the manifest.
--
-- Strings are native texts, counters and levels natural numbers, `null` and `undefined` are
-- `Option`, and a thrown error is `throw` with its message.
mod Base
pub mod AccessScope
pub mod Aggregator
pub mod ManagerKey
pub mod Presence
pub mod Reconciler
pub mod Js
pub mod Workbook
pub mod Audit
pub mod Engine
pub mod Project
pub mod Escalation
pub mod StageService
pub mod Links
pub mod Pilot
pub mod Sla
