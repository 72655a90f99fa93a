-- ===== src/Postgres/Columns.antt =====
-- How the enums are stored: as texts, read back with an error or a default for unknown ones.
use ai_agent_boilerplate.Prelude.{◌≡◌, refl, ◌++◌, if◌then◌else◌}
use ai_agent_boilerplate.Exec.{Result, ok, err}
use ai_agent_boilerplate.Text.{Text, codes, text_eq}
use ai_agent_boilerplate.Domain.Job.{JobStatus, JobMode}
use ai_agent_boilerplate.Domain.SearchResult.{DateConfidence, EventType}
use ai_agent_boilerplate.Domain.Document.{DocumentStatus}
use ai_agent_boilerplate.Ports.{PortError, port_error}

unfoldable pub status_to_str : JobStatus → Text
status_to_str JobStatus.pending = codes "pending"
status_to_str JobStatus.running = codes "running"
status_to_str JobStatus.awaiting_input = codes "awaiting_input"
status_to_str JobStatus.completed = codes "completed"
status_to_str JobStatus.failed = codes "failed"

unfoldable pub status_from_str : Text → Result PortError JobStatus
status_from_str value =
    if text_eq value (codes "pending")
    then ok JobStatus.pending
    else if text_eq value (codes "running")
    then ok JobStatus.running
    else if text_eq value (codes "awaiting_input")
    then ok JobStatus.awaiting_input
    else if text_eq value (codes "completed")
    then ok JobStatus.completed
    else if text_eq value (codes "failed")
    then ok JobStatus.failed
    else err (port_error (codes "unknown job status in database: " ++ value))

unfoldable pub mode_to_str : JobMode → Text
mode_to_str JobMode.workflow = codes "workflow"
mode_to_str JobMode.agent = codes "agent"

-- An unknown mode reads as the default one.
unfoldable pub mode_from_str : Text → JobMode
mode_from_str value = if text_eq value (codes "agent") then JobMode.agent else JobMode.workflow

unfoldable pub confidence_to_str : DateConfidence → Text
confidence_to_str DateConfidence.high = codes "high"
confidence_to_str DateConfidence.medium = codes "medium"
confidence_to_str DateConfidence.unknown = codes "unknown"

unfoldable pub confidence_from_str : Text → Result PortError DateConfidence
confidence_from_str value =
    if text_eq value (codes "high")
    then ok DateConfidence.high
    else if text_eq value (codes "medium")
    then ok DateConfidence.medium
    else if text_eq value (codes "unknown")
    then ok DateConfidence.unknown
    else err (port_error (codes "unknown date confidence in database: " ++ value))

unfoldable pub event_type_to_str : EventType → Text
event_type_to_str EventType.announcement = codes "announcement"
event_type_to_str EventType.release = codes "release"
event_type_to_str EventType.funding = codes "funding"
event_type_to_str EventType.legal = codes "legal"
event_type_to_str EventType.incident = codes "incident"
event_type_to_str EventType.research = codes "research"
event_type_to_str EventType.opinion = codes "opinion"
event_type_to_str EventType.other = codes "other"

-- An unknown type reads as `other`.
unfoldable pub event_type_from_str : Text → EventType
event_type_from_str value =
    if text_eq value (codes "announcement")
    then EventType.announcement
    else if text_eq value (codes "release")
    then EventType.release
    else if text_eq value (codes "funding")
    then EventType.funding
    else if text_eq value (codes "legal")
    then EventType.legal
    else if text_eq value (codes "incident")
    then EventType.incident
    else if text_eq value (codes "research")
    then EventType.research
    else if text_eq value (codes "opinion")
    then EventType.opinion
    else EventType.other

unfoldable pub doc_status_from_str : Text → DocumentStatus
doc_status_from_str value =
    if text_eq value (codes "ready")
    then DocumentStatus.ready
    else if text_eq value (codes "failed")
    then DocumentStatus.failed
    else DocumentStatus.pending

pub status-from-to : (s : JobStatus) → status_from_str (status_to_str s) ≡ ok s
unfolding status_from_str status_to_str text_eq
status-from-to JobStatus.pending = refl
status-from-to JobStatus.running = refl
status-from-to JobStatus.awaiting_input = refl
status-from-to JobStatus.completed = refl
status-from-to JobStatus.failed = refl

pub mode-from-to : (m : JobMode) → mode_from_str (mode_to_str m) ≡ m
unfolding mode_from_str mode_to_str text_eq
mode-from-to JobMode.workflow = refl
mode-from-to JobMode.agent = refl

pub confidence-from-to : (c : DateConfidence) → confidence_from_str (confidence_to_str c) ≡ ok c
unfolding confidence_from_str confidence_to_str text_eq
confidence-from-to DateConfidence.high = refl
confidence-from-to DateConfidence.medium = refl
confidence-from-to DateConfidence.unknown = refl

pub event_type-from-to : (e : EventType) → event_type_from_str (event_type_to_str e) ≡ e
unfolding event_type_from_str event_type_to_str text_eq
event_type-from-to EventType.announcement = refl
event_type-from-to EventType.release = refl
event_type-from-to EventType.funding = refl
event_type-from-to EventType.legal = refl
event_type-from-to EventType.incident = refl
event_type-from-to EventType.research = refl
event_type-from-to EventType.opinion = refl
event_type-from-to EventType.other = refl
